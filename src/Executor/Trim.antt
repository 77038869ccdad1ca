-- ===== src/Executor/Trim.antt =====
-- `trim_ascii_end` of src/actor/executor_connection.rs.
use durable_actors.Prelude.{
  ℕ, zero, suc, ◌≤◌, ◌≡◌, ◌∙◌, refl, sym, ap, inl, inr, true, false, List, [], ◌∷◌, ◌++◌,
  append_assoc, append-nil, length, last, All, arith, Bool-cases,
}
use durable_actors.Executor.{
  is_ascii_whitespace, ends_in_whitespace, but_last, trim_rounds, trim_ascii_end,
}

abbrev pub IsWhitespace : ℕ → Type 0
IsWhitespace b = is_ascii_whitespace b ≡ true

-- The document is what is left of it, which does not end in whitespace, and then whitespace.
pub record Trimmed (document trimmed : List ℕ) : Type 0 where
  pub spaces : List ℕ
  pub is_split : document ≡ trimmed ++ spaces
  pub all_spaces : All IsWhitespace spaces
  pub ends : ends_in_whitespace (last trimmed) ≡ false

All-append :
    (xs ys : List ℕ) → All IsWhitespace xs → All IsWhitespace ys → All IsWhitespace (xs ++ ys)
All-append [] ys h g = g
All-append (x ∷ xs) ys (p, h) g = (p, All-append xs ys h g)

-- A document that ends in whitespace is all but its last byte, and that byte.
but_last-append :
    (document : List ℕ)
    → ends_in_whitespace (last document) ≡ true
    → (b : ℕ) × (IsWhitespace b)
      × (document ≡ but_last document ++ b ∷ [])
      × (length document ≡ suc (length (but_last document)))
but_last-append [] h = absurd (ground (arith, h))
but_last-append (b ∷ []) h = (b, h, refl, refl)
but_last-append (b ∷ c ∷ bs) h =
    let (x, space, split, shorter) = but_last-append (c ∷ bs) h in
    (x, space, ap (λ rest. b ∷ rest) split, ap suc shorter)

trim_rounds-Trimmed :
    (rounds : ℕ) (document : List ℕ)
    → length document ≤ rounds
    → Trimmed document (trim_rounds rounds document)
trim_rounds-Trimmed zero [] enough = record {
  spaces = [];
  is_split = refl;
  all_spaces = tt;
  ends = refl;
}
trim_rounds-Trimmed zero (b ∷ bs) enough = absurd (omega (arith, enough))
trim_rounds-Trimmed (suc rounds) document enough =
    elim (Bool-cases (ends_in_whitespace (last document))) [
      | inr other ↦ rw other (record {
        spaces = [];
        is_split = sym (append-nil document);
        all_spaces = tt;
        ends = other;
      })
      | inl space ↦
          let (b, is_space, split, shorter) = but_last-append document space in
          let rest =
            trim_rounds-Trimmed rounds (but_last document) (omega (arith, enough, shorter)) in
          rw space (record {
            spaces = rest.spaces ++ b ∷ [];
            is_split =
                split
                ∙ ap (λ front. front ++ b ∷ []) rest.is_split
                ∙ append_assoc (trim_rounds rounds (but_last document)) rest.spaces (b ∷ []);
            all_spaces = All-append rest.spaces (b ∷ []) rest.all_spaces (is_space, tt);
            ends = rest.ends;
          })
    ]

-- Trimming drops whitespace off the end of a document and nothing else, and what it leaves does not
-- end in whitespace.
pub trim_ascii_end-Trimmed : (document : List ℕ) → Trimmed document (trim_ascii_end document)
unfolding trim_ascii_end
trim_ascii_end-Trimmed document = trim_rounds-Trimmed (length document) document (omega arith)
