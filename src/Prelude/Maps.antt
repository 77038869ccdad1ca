-- ===== src/Prelude/Maps.antt =====
-- A `HashMap` as an association list with one entry for each key. The order of its entries stands for
-- the order in which the map is iterated.
use text.Mathlib.Text.{◌==◌ as str_eq}
use text.Mathlib.TextEquality.{eq_iff}
use Prim.Native.Nat.{ℕ, suc, ◌+◌, ◌<◌, ◌≤◌}
use Prim.Native.String.{String}
use mathlib.Core.Path.{◌≡◌, refl, sym, ◌∙◌}
use mathlib.Core.Logic.{◌↔◌, inl, inr}
use mathlib.Core.Bool.{Bool, true, false}
use mathlib.Core.List.{List, [], ◌∷◌}
use mathlib.Core.Option.{Option, none, some}
use native.Mathlib.Omega.{arith}
use durable_actors.Prelude.Tests.{◌==◌, ==_iff, if◌then◌else◌, Bool-cases}
use durable_actors.Prelude.Lists.{length, All}

pub record Eq {ℓ} (A : Type ℓ) : Type ℓ where
  pub beq : A → A → Bool
  pub beq_iff : (a b : A) → (beq a b ≡ true) ↔ (a ≡ b)

instance abbrev pub nat_eq : Eq ℕ
nat_eq = record { beq = λ m n. m == n; beq_iff = ==_iff }

instance abbrev pub string_eq : Eq String
string_eq = record { beq = str_eq; beq_iff = eq_iff }

module _ {ℓ} {A : Type ℓ} ⦃e : Eq A⦄ where
  pub beq_refl : (a : A) → e.beq a a ≡ true
  beq_refl a = (e.beq_iff a a).1 refl

  pub beq-eq : (a b : A) → e.beq a b ≡ true → a ≡ b
  beq-eq a b h = (e.beq_iff a b).0 h

  pub beq_ne : (a b : A) → e.beq a b ≡ false → e.beq b a ≡ false
  beq_ne a b h = ground (arith, beq-eq b a, beq_refl b)

module _ {ℓ κ} {Key : Type ℓ} {Value : Type κ} ⦃e : Eq Key⦄ where
  abbrev pub get : Key → List (Key × Value) → Option Value
  get k [] = none
  get k ((j, v) ∷ entries) = if e.beq j k then some v else get k entries

  abbrev pub insert : Key → Value → List (Key × Value) → List (Key × Value)
  insert k v [] = (k, v) ∷ []
  insert k v ((j, w) ∷ entries) =
      if e.beq j k then (k, v) ∷ entries else (j, w) ∷ insert k v entries

  abbrev pub remove : Key → List (Key × Value) → List (Key × Value)
  remove k [] = []
  remove k ((j, w) ∷ entries) =
      let rest = remove k entries in if e.beq j k then rest else (j, w) ∷ rest

  -- `retain(|_, value| test(value))`
  abbrev pub retain : (Value → Bool) → List (Key × Value) → List (Key × Value)
  retain test [] = []
  retain test ((j, w) ∷ entries) =
      let rest = retain test entries in if test w then (j, w) ∷ rest else rest

  pub get-retain_fresh :
      (test : Value → Bool) (k : Key) (m : List (Key × Value))
      → get k m ≡ none
      → get k (retain test m) ≡ none
  get-retain_fresh test k [] h = refl
  get-retain_fresh test k ((j, w) ∷ m) h = ground (arith, get-retain_fresh test k m)

  pub get-retain_kept :
      (test : Value → Bool) (k : Key) (v : Value) (m : List (Key × Value))
      → get k m ≡ some v
      → test v ≡ true
      → get k (retain test m) ≡ some v
  get-retain_kept test k v [] h t = ground arith
  get-retain_kept test k v ((j, w) ∷ m) h t = ground (arith, get-retain_kept test k v m)

  pub get_head : (k : Key) (v : Value) (m : List (Key × Value)) → get k ((k, v) ∷ m) ≡ some v
  get_head k v m = rw (beq_refl k)

  pub get-insert_same :
      (k : Key) (v : Value) (m : List (Key × Value)) → get k (insert k v m) ≡ some v
  get-insert_same k v [] = ground (arith, beq_refl k)
  get-insert_same k v ((j, w) ∷ m) = ground (arith, beq_refl k, get-insert_same k v m)

  pub get-insert_other :
      (j k : Key) (v : Value) (m : List (Key × Value))
      → e.beq k j ≡ false
      → get j (insert k v m) ≡ get j m
  get-insert_other j k v [] h = ground arith
  get-insert_other j k v ((i, w) ∷ m) h =
      ground (arith, beq-eq i k, beq_refl k, get-insert_other j k v m h)

  pub get-insert :
      (j k : Key) (v : Value) (m : List (Key × Value))
      → get j (insert k v m) ≡ (if e.beq k j then some v else get j m)
  get-insert j k v m = ground (arith, beq-eq k j, get-insert_same k v m, get-insert_other j k v m)

  pub length-insert_new :
      (k : Key) (v : Value) (m : List (Key × Value))
      → get k m ≡ none
      → length (insert k v m) ≡ suc (length m)
  length-insert_new k v [] h = refl
  length-insert_new k v ((j, w) ∷ m) h = ground (arith, length-insert_new k v m)

  pub length-insert_old :
      (k : Key) (v w : Value) (m : List (Key × Value))
      → get k m ≡ some w
      → length (insert k v m) ≡ length m
  length-insert_old k v w [] h = ground arith
  length-insert_old k v w ((j, u) ∷ m) h = ground (arith, length-insert_old k v w m)

  pub length-insert_le :
      (k : Key) (v : Value) (m : List (Key × Value)) → length (insert k v m) ≤ suc (length m)
  length-insert_le k v [] = ground arith
  length-insert_le k v ((j, w) ∷ m) = ground (arith, length-insert_le k v m)

  pub length-insert_pos : (k : Key) (v : Value) (m : List (Key × Value)) → 0 < length (insert k v m)
  length-insert_pos k v [] = ground arith
  length-insert_pos k v ((j, w) ∷ m) = ground arith

  pub length-remove : (k : Key) (m : List (Key × Value)) → length (remove k m) ≤ length m
  length-remove k [] = ground arith
  length-remove k ((j, w) ∷ m) = ground (arith, length-remove k m)

  pub get-remove :
      (j k : Key) (m : List (Key × Value))
      → get j (remove k m) ≡ (if e.beq k j then none else get j m)
  get-remove j k [] = ground arith
  get-remove j k ((i, w) ∷ m) =
      ground (arith, get-remove j k m, beq-eq i k, beq-eq i j, beq-eq k j, beq_refl j, beq_refl k)

  -- One entry for each key.
  abbrev pub Unique : List (Key × Value) → Type (ℓ ⊔ κ)
  Unique [] = Unit
  Unique ((k, v) ∷ m) = (get k m ≡ none) × Unique m

  pub insert-Unique :
      (k : Key) (v : Value) (m : List (Key × Value)) → Unique m → Unique (insert k v m)
  insert-Unique k v [] u = (refl, tt)
  insert-Unique k v ((j, w) ∷ m) u = elim (Bool-cases (e.beq j k)) [
    | inl same ↦ rw (same, sym (beq-eq j k same)) u
    | inr other ↦
        let fresh : get j (insert k v m) ≡ none =
          get-insert_other j k v m (beq_ne j k other) ∙ u.0 in
        rw other (fresh, insert-Unique k v m u.1)
  ]

  get-remove_fresh :
      (j k : Key) (m : List (Key × Value)) → get j m ≡ none → get j (remove k m) ≡ none
  get-remove_fresh j k m h = ground (arith, get-remove j k m)

  pub remove-Unique : (k : Key) (m : List (Key × Value)) → Unique m → Unique (remove k m)
  remove-Unique k [] u = tt
  remove-Unique k ((j, w) ∷ m) u = elim (Bool-cases (e.beq j k)) [
    | inl same ↦ rw same (remove-Unique k m u.1)
    | inr other ↦ rw other (get-remove_fresh j k m u.0, remove-Unique k m u.1)
  ]

  pub remove_absent : (k : Key) (m : List (Key × Value)) → get k m ≡ none → remove k m ≡ m
  remove_absent k [] h = refl
  remove_absent k ((j, w) ∷ m) h = ground (arith, remove_absent k m)

  -- How many entries satisfy a test.
  abbrev pub count_by : (Value → Bool) → List (Key × Value) → ℕ
  count_by test [] = 0
  count_by test ((j, w) ∷ m) = (if test w then 1 else 0) + count_by test m

  pub count_by-le-length :
      (test : Value → Bool) (m : List (Key × Value)) → count_by test m ≤ length m
  count_by-le-length test [] = ground arith
  count_by-le-length test ((j, w) ∷ m) = ground (arith, count_by-le-length test m)

  pub count_by-insert_new :
      (test : Value → Bool) (k : Key) (v : Value) (m : List (Key × Value))
      → get k m ≡ none
      → count_by test (insert k v m) ≡ (if test v then 1 else 0) + count_by test m
  count_by-insert_new test k v [] h = refl
  count_by-insert_new test k v ((j, w) ∷ m) h = ground (arith, count_by-insert_new test k v m)

  pub count_by-insert_old :
      (test : Value → Bool) (k : Key) (v w : Value) (m : List (Key × Value))
      → get k m ≡ some w
      → count_by test (insert k v m) + (if test w then 1 else 0)
        ≡ (if test v then 1 else 0) + count_by test m
  count_by-insert_old test k v w [] h = ground arith
  count_by-insert_old test k v w ((j, u) ∷ m) h = ground (arith, count_by-insert_old test k v w m)

  pub count_by-remove :
      (test : Value → Bool) (k : Key) (w : Value) (m : List (Key × Value))
      → Unique m
      → get k m ≡ some w
      → count_by test (remove k m) + (if test w then 1 else 0) ≡ count_by test m
  count_by-remove test k w [] u h = ground arith
  count_by-remove test k w ((j, v) ∷ m) u h = elim (Bool-cases (e.beq j k)) [
    | inl same ↦
        let fresh : get k m ≡ none = rw (sym (beq-eq j k same)) u.0 in
        let is_w : v ≡ w = ground arith in rw (same, remove_absent k m fresh, is_w) (omega arith)
    | inr other ↦
        let rest = count_by-remove test k w m u.1 (ground arith) in rw other (omega (arith, rest))
  ]

module _ {ℓ κ μ} {Key : Type ℓ} {Value : Type κ} ⦃e : Eq Key⦄ (P : Key × Value → Type μ) where
  pub All-get :
      (k : Key) (v : Value) (m : List (Key × Value)) → All P m → get k m ≡ some v → P (k, v)
  All-get k v [] all h = absurd (ground arith)
  All-get k v ((j, w) ∷ m) (p, all) h = elim (Bool-cases (e.beq j k)) [
    | inl same ↦ let is_v : w ≡ v = ground arith in rw (sym (beq-eq j k same), sym is_v) p
    | inr other ↦ All-get k v m all (ground arith)
  ]

  pub All-insert :
      (k : Key) (v : Value) (m : List (Key × Value)) → P (k, v) → All P m → All P (insert k v m)
  All-insert k v [] p all = (p, tt)
  All-insert k v ((j, w) ∷ m) p (q, all) = elim (Bool-cases (e.beq j k)) [
    | inl same ↦ rw same (p, all)
    | inr other ↦ rw other (q, All-insert k v m p all)
  ]

  pub All-remove : (k : Key) (m : List (Key × Value)) → All P m → All P (remove k m)
  All-remove k [] all = tt
  All-remove k ((j, w) ∷ m) (q, all) = elim (Bool-cases (e.beq j k)) [
    | inl same ↦ rw same (All-remove k m all)
    | inr other ↦ rw other (q, All-remove k m all)
  ]
