-- ===== src/Rapid/Index/Laws.antt =====
-- Where the frames of a batch lie.
use durable_actors.Prelude.{
  ℕ, ◌+◌, ◌-◌, ◌<◌, ◌≡◌, refl, sym, ap, ◌∙◌, true, List, [], ◌∷◌, ◌++◌, Option, some, arith, length,
  All, ok, >>=-eq-ok, length-append, append_assoc, le→leb, ==_iff,
}
use durable_actors.Prelude.Words.{u32_mod, u64_mod, checked_add_fits}
use durable_actors.Rapid.Frame.{Record, header_size, encode, encode_all, follows, Consecutive}
use durable_actors.Rapid.Frame.Laws.{encode-eq-ok, length-frame}
use durable_actors.Rapid.Index.{frame_size, entry_at, entries_from, valid_entry, check_entries}

abbrev pub size : List Record → ℕ
size [] = 0
size (r ∷ rs) = frame_size r + size rs

-- A state's length is a u32.
abbrev pub IsSmall : Record → Type 0
IsSmall r = length r.state < u32_mod

pub entries_from-size : (start : ℕ) (rs : List Record) → (entries_from start rs).1 ≡ start + size rs
entries_from-size start [] = omega arith
entries_from-size start (r ∷ rs) = omega (arith, entries_from-size (start + frame_size r) rs)

valid_entry-entry_at :
    (start : ℕ) (previous : Option ℕ) (r : Record)
    → IsSmall r
    → follows previous r.version ≡ true
    → valid_entry start previous (entry_at start r) ≡ true
valid_entry-entry_at start previous r small follow =
    rw
      (
        (==_iff start start).1 refl,
        le→leb header_size (frame_size r) (omega arith),
        le→leb (frame_size r) (header_size + (u32_mod - 1)) (omega arith),
        follow,
      )
      refl

pub check_entries-entries_from :
    (start : ℕ) (previous : Option ℕ) (rs : List Record)
    → All IsSmall rs
    → Consecutive previous rs
    → start + size rs < u64_mod
    → check_entries start previous (entries_from start rs).0 ≡ ok (start + size rs)
unfolding check_entries
check_entries-entries_from start previous [] small consecutive fits = ap ok (omega arith)
check_entries-entries_from start previous (r ∷ rs) small consecutive fits =
    let rest =
      check_entries-entries_from (start + frame_size r) (some r.version) rs small.1 consecutive.1
        (omega (arith, fits)) in
    rw
      (
        valid_entry-entry_at start previous r small.0 consecutive.0,
        checked_add_fits start (frame_size r) (omega (arith, fits)),
      )
      (rest ∙ ap ok (omega arith))

module _ (sha256 : List ℕ → List ℕ) where
  pub encode_all-split :
      (xs ys : List Record) (w : List ℕ)
      → encode_all sha256 (xs ++ ys) ≡ ok w
      → (wx : List ℕ) × (wy : List ℕ) × (encode_all sha256 xs ≡ ok wx)
        × (encode_all sha256 ys ≡ ok wy)
        × (w ≡ wx ++ wy)
  unfolding encode_all
  encode_all-split [] ys w h = ([], w, refl, h, refl)
  encode_all-split (x ∷ xs) ys w h =
      let (f, ef, h') = >>=-eq-ok (encode sha256 x) _ h in
      let (more, es, h'') = >>=-eq-ok (encode_all sha256 (xs ++ ys)) _ h' in
      let (wx, wy, ex, ey, split) = encode_all-split xs ys more es in
      let whole : f ++ more ≡ w = cc in
      (
        f ++ wx,
        wy,
        rw (ef, ex) refl,
        ey,
        sym whole ∙ ap (λ m. f ++ m) split ∙ sym (append_assoc f wx wy),
      )

  pub encode_all-IsSmall :
      (rs : List Record) (w : List ℕ) → encode_all sha256 rs ≡ ok w → All IsSmall rs
  unfolding encode_all
  encode_all-IsSmall [] w h = tt
  encode_all-IsSmall (r ∷ rs) w h =
      let (f, ef, h') = >>=-eq-ok (encode sha256 r) _ h in
      let (more, es, h'') = >>=-eq-ok (encode_all sha256 rs) _ h' in
      ((encode-eq-ok sha256 r ef).1, encode_all-IsSmall rs more es)

  module _ (sha256-length : (b : List ℕ) → length (sha256 b) ≡ 32) where
    pub length-encode_all :
        (rs : List Record) (w : List ℕ) → encode_all sha256 rs ≡ ok w → length w ≡ size rs
    unfolding encode_all
    length-encode_all [] w h = let e : [] ≡ w = cc in rw⁻¹ e refl
    length-encode_all (r ∷ rs) w h =
        let (f, ef, h') = >>=-eq-ok (encode sha256 r) _ h in
        let (more, es, h'') = >>=-eq-ok (encode_all sha256 rs) _ h' in
        let whole : f ++ more ≡ w = cc in
        let (_, _, is_frame) = encode-eq-ok sha256 r ef in
        omega (
          arith,
          ap length whole,
          length-append f more,
          ap length is_frame,
          length-frame sha256 sha256-length r,
          length-encode_all rs more es,
        )
