-- ===== src/Ownership/Uploads/Order.antt =====
-- The order of positions in src/bucket/runtime.rs, and what `advance` does in it.
use durable_actors.Prelude.{
  ◌≡◌, refl, String, true, false, Option, none, some, arith, ok, inl, inr, Bool-cases, ensure-eq-ok,
}
use durable_actors.Ownership.Types.{SnapshotRef}
use durable_actors.Ownership.Loading.{Position, position_lt, agrees, advance}

pub position_lt_trans :
    (a b c : Position) → position_lt a b ≡ false → position_lt b c ≡ false → position_lt a c ≡ false
position_lt_trans none none c h h' = h'
position_lt_trans none (some b) none h h' = refl
position_lt_trans none (some b) (some c) h h' = cc
position_lt_trans (some a) none none h h' = refl
position_lt_trans (some a) none (some c) h h' = cc
position_lt_trans (some a) (some b) none h h' = refl
position_lt_trans (some (e, v)) (some (e', v')) (some (e'', v'')) h h' = ground arith

pub position_lt_irrefl : (a : Position) → position_lt a a ≡ false
position_lt_irrefl none = refl
position_lt_irrefl (some (epoch, version)) = ground arith

position_lt_asym : (a b : Position) → position_lt a b ≡ true → position_lt b a ≡ false
position_lt_asym a none h = cc
position_lt_asym none (some b) h = refl
position_lt_asym (some (e, v)) (some (e', v')) h = ground arith

pub ok-injective {ℓ} : {A : Type ℓ} {a b : Option A} → ok a ≡ ok b → a ≡ b
ok-injective h = cc

module _ (position : String → Position) where
  -- The reference is at least as new as `r`.
  abbrev pub Reaches : SnapshotRef → Option SnapshotRef → Type 0
  Reaches r none = ⊥
  Reaches r (some latest) = position_lt (position latest.object) (position r.object) ≡ false

  -- What `advance` gives back is as new as both.
  pub advance-Reaches :
      (current candidate result : Option SnapshotRef)
      → advance position current candidate ≡ ok result
      → ((r : SnapshotRef) → Reaches r current → Reaches r result)
        × ((r : SnapshotRef) → Reaches r candidate → Reaches r result)
  unfolding advance
  advance-Reaches current none result h =
      let e : current ≡ result = cc in rw⁻¹ e (λ r reaches. reaches, λ r reaches. absurd reaches)
  advance-Reaches none (some candidate) result h =
      let e : some candidate ≡ result = cc in
      rw⁻¹ e (λ r reaches. absurd reaches, λ r reaches. reaches)
  advance-Reaches (some current) (some candidate) result h =
      let (_, h') = ensure-eq-ok (agrees position (some current) candidate) _ _ h in
      let older = position_lt (position current.object) (position candidate.object) in
      elim (Bool-cases older) [
        | inl newer ↦
            let e : some candidate ≡ result = ok-injective (rw newer at h') in
            rw⁻¹ e (
              λ r reaches.
                  position_lt_trans (position candidate.object) (position current.object)
                    (position r.object)
                    (position_lt_asym (position current.object) (position candidate.object) newer)
                    reaches,
              λ r reaches. reaches,
            )
        | inr not_newer ↦
            let e : some current ≡ result = ok-injective (rw not_newer at h') in
            rw⁻¹ e (
              λ r reaches. reaches,
              λ r reaches.
                  position_lt_trans (position current.object) (position candidate.object)
                    (position r.object) not_newer reaches,
            )
      ]
