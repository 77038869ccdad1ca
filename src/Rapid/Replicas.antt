-- ===== src/Rapid/Replicas.antt =====
-- src/bucket/rapid/reader.rs, `read_replicas`: one log out of the copies that its zones still give.
use durable_actors.Prelude.{
  ℕ, suc, lt→ltb, ◌≡◌, refl, sym, ap, ◌∙◌, ◌⊎◌, inl, inr, append-nil, Bool-cases, Bool, true, false,
  ◌&&◌, List, [], ◌∷◌, ◌++◌, Option, none, some, arith, ltb, ◌==◌, if◌then◌else◌, length, All,
  Result, ok, ◌>>=◌, ◌>>◌, ensure,
}
use durable_actors.Rapid.Frame.{Record, same_bytes, decode}
use durable_actors.Rapid.Frame.Laws.{same_bytes_refl, same_bytes-eq}

unfoldable pub same_record : Record → Record → Bool
same_record a b = a.version == b.version && same_bytes a.state b.state

-- `selected.iter().zip(&records)`, each pair equal.
pub agree : List Record → List Record → Bool
agree [] bs = true
agree (a ∷ as') [] = true
agree (a ∷ as') (b ∷ bs) = same_record a b && agree as' bs

unfoldable pub select_longest : List Record → List (List Record) → Result (List Record)
select_longest selected [] = ok selected
select_longest selected (records ∷ copies) = do
  ensure (agree selected records) "divergent log replicas"
  select_longest (if ltb (length selected) (length records) then records else selected) copies

abbrev is_empty : List (List Record) → Bool
is_empty [] = true
is_empty (c ∷ cs) = false

module _ (sha256 : List ℕ → List ℕ) where
  -- The copies of the zones that answered; `none` is a zone that did not.
  unfoldable pub decode_copies : List (Option (List ℕ)) → Result (List (List Record))
  decode_copies [] = ok []
  decode_copies (none ∷ reads) = decode_copies reads
  decode_copies (some bytes ∷ reads) = do
    copy ← decode sha256 bytes
    copies ← decode_copies reads
    ok (copy ∷ copies)

  unfoldable pub read_replicas : List (Option (List ℕ)) → Result (List Record)
  read_replicas reads = do
    copies ← decode_copies reads
    ensure (if is_empty copies then false else true)
        "acknowledged log is unavailable in all configured zones"
    select_longest [] copies

same_record_refl : (r : Record) → same_record r r ≡ true
unfolding same_record
same_record_refl r = ground (arith, same_bytes_refl r.state)

pub same_record-eq : (a b : Record) → same_record a b ≡ true → a ≡ b
unfolding same_record
same_record-eq a b h =
    let v : a.version ≡ b.version = ground arith in
    let s : a.state ≡ b.state = same_bytes-eq a.state b.state (ground arith) in
    λ i. record { version = v i; state = s i }

-- Copies of which one is the start of the other agree.
pub agree-prefix : (as' bs : List Record) → agree as' (as' ++ bs) ≡ true
unfolding agree
agree-prefix [] bs = refl
agree-prefix (a ∷ as') bs = rw (same_record_refl a) (agree-prefix as' bs)

pub agree-prefix_left : (as' bs : List Record) → agree (as' ++ bs) as' ≡ true
unfolding agree
agree-prefix_left [] [] = refl
agree-prefix_left [] (b ∷ bs) = refl
agree-prefix_left (a ∷ as') bs = rw (same_record_refl a) (agree-prefix_left as' bs)

-- Copies that hold the same records, but that some may lack the records `extra` at the end.
module _ (common extra : List Record) where
  abbrev pub Near : List Record → Type 0
  Near records = (records ≡ common) ⊎ (records ≡ common ++ extra)

  agree-Near : (as' bs : List Record) → Near as' → Near bs → agree as' bs ≡ true
  agree-Near as' bs (inl p) (inl q) =
      rw (p, q) (ap (agree common) (sym (append-nil common)) ∙ agree-prefix common [])
  agree-Near as' bs (inl p) (inr q) = rw (p, q) (agree-prefix common extra)
  agree-Near as' bs (inr p) (inl q) = rw (p, q) (agree-prefix_left common extra)
  agree-Near as' bs (inr p) (inr q) =
      rw (p, q)
        (ap (agree (common ++ extra)) (sym (append-nil (common ++ extra)))
          ∙ agree-prefix (common ++ extra) [])

  select_longest-Near :
      (selected : List Record) (copies : List (List Record))
      → Near selected
      → All Near copies
      → (result : List Record) × (select_longest selected copies ≡ ok result) × Near result
  unfolding select_longest
  select_longest-Near selected [] near all = (selected, refl, near)
  select_longest-Near selected (c ∷ copies) near all =
      let longer = ltb (length selected) (length c) in
      let next : Near (if longer then c else selected) = elim (Bool-cases longer) [
        | inl e ↦ rw e all.0
        | inr e ↦ rw e near
      ] in
      rw (agree-Near selected c near all.0)
        (select_longest-Near (if longer then c else selected) copies next all.1)

  -- The first copy replaces the empty selection, whatever its length.
  pub select_longest-Near_first :
      (c : List Record) (copies : List (List Record))
      → Near c
      → All Near copies
      → (result : List Record) × (select_longest [] (c ∷ copies) ≡ ok result) × Near result
  unfolding select_longest agree
  select_longest-Near_first [] copies near all = select_longest-Near [] copies near all
  select_longest-Near_first (r ∷ c) copies near all =
      rw (lt→ltb 0 (suc (length c)) (omega arith)) (select_longest-Near (r ∷ c) copies near all)
