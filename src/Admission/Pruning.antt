-- ===== src/Admission/Pruning.antt =====
-- What `Usage::prune` keeps: src/control_plane/organization_limits/memory.rs.
use durable_actors.Prelude.{
  ℕ, ◌<◌, ◌≡◌, ◌↔◌, refl, inl, inr, Bool, true, List, [], ◌∷◌, some, arith, Bool-cases,
}
use durable_actors.Prelude.Maps.{Eq, get, retain, Unique, beq-eq, get-retain_fresh, get-retain_kept}
use durable_actors.Admission.{
  Activation, activation_eq, Floats, AdmissionSession, Usage, later_than, is_remembered, prune,
}

module _ {ℓ κ} {Key : Type ℓ} {Value : Type κ} ⦃e : Eq Key⦄ where
  pub get-retain_found :
      (test : Value → Bool) (k : Key) (v : Value) (m : List (Key × Value))
      → Unique m
      → get k (retain test m) ≡ some v
      → (get k m ≡ some v) × (test v ≡ true)
  get-retain_found test k v [] u h = absurd cc
  get-retain_found test k v ((j, w) ∷ m) u h =
      let rest = get-retain_found test k v m u.1 in
      elim (Bool-cases (test w)) [
        | inl kept ↦ elim (Bool-cases (e.beq j k)) [
          | inl same ↦ ground (arith, h)
          | inr other ↦ ground (arith, h, rest)
        ]
        | inr dropped ↦
            let found : get k (retain test m) ≡ some v = rw dropped at h in
            ground (arith, found, rest, beq-eq j k, u.0)
      ]

  pub retain-Unique :
      (test : Value → Bool) (m : List (Key × Value)) → Unique m → Unique (retain test m)
  retain-Unique test [] u = tt
  retain-Unique test ((j, w) ∷ m) u = elim (Bool-cases (test w)) [
    | inl kept ↦ rw kept (get-retain_fresh test j m u.0, retain-Unique test m u.1)
    | inr dropped ↦ rw dropped (retain-Unique test m u.1)
  ]

-- The usage `before` is the stored one without the leases and the sessions whose time is over.
pub record Pruned (f : Floats) (now : ℕ) (stored before : Usage f) : Type 0 where
  pub slots :
      (b : Activation) (expires_at : ℕ)
      → (get b before.active ≡ some expires_at)
        ↔ ((get b stored.active ≡ some expires_at) × (now < expires_at))
  pub sessions :
      (b : Activation) (state : AdmissionSession)
      → (get b before.sessions ≡ some state)
        ↔ ((get b stored.sessions ≡ some state) × (now < state.forget_at))
  pub one_slot_each : Unique before.active
  pub tokens : before.tokens ≡ stored.tokens
  pub refilled_at : before.refilled_at ≡ stored.refilled_at

pub prune-Pruned :
    (f : Floats) (now : ℕ) (stored : Usage f)
    → Unique stored.active
    → Unique stored.sessions
    → Pruned f now stored (prune f now stored)
unfolding prune
prune-Pruned f now stored slots sessions = record {
  slots = λ b expires_at. (
    λ h.
        let (found, kept) = get-retain_found (later_than now) b expires_at stored.active slots h in
        (found, ground (arith, kept)),
    λ h. get-retain_kept (later_than now) b expires_at stored.active h.0 (ground (arith, h.1)),
  );
  sessions = λ b state. (
    λ h.
        let (found, kept) =
          get-retain_found (is_remembered now) b state stored.sessions sessions h in
        (found, ground (arith, kept)),
    λ h. get-retain_kept (is_remembered now) b state stored.sessions h.0 (ground (arith, h.1)),
  );
  one_slot_each = retain-Unique (later_than now) stored.active slots;
  tokens = refl;
  refilled_at = refl;
}
