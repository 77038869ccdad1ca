-- ===== src/Rapid/Index/Find.antt =====
-- The entry that the search of src/bucket/rapid/index.rs finds.
use durable_actors.Prelude.{
  ℕ, ◌+◌, ◌≡◌, refl, ap, inl, inr, List, [], ◌∷◌, ◌++◌, some, arith, ◌==◌, ==_iff, Bool-cases,
}
use durable_actors.Rapid.Frame.{Record}
use durable_actors.Rapid.Index.{Entry, frame_size, entry_at, entries_from, find_entry}
use durable_actors.Rapid.Index.Laws.{size}

-- Records before a place are kept in reverse, the nearest first.
abbrev pub rev_onto : List Record → List Record → List Record
rev_onto [] rs = rs
rev_onto (b ∷ before) rs = rev_onto before (b ∷ rs)

abbrev pub rev_entries : List Record → List Entry
rev_entries [] = []
rev_entries (b ∷ before) = entry_at (size before) b ∷ rev_entries before

-- Some record, and what is before and behind it.
pub record Found (version : ℕ) (whole : List Record) (entries : List Entry) (entry : Entry)
    : Type 0 where
  pub before : List Record
  pub found : Record
  pub behind : List Record
  pub is_version : found.version ≡ version
  pub is_whole : rev_onto before (found ∷ behind) ≡ whole
  pub are_entries : entries ≡ rev_entries before
  pub is_entry : entry ≡ entry_at (size before) found

pub find_entry-Found :
    (version : ℕ) (before rs : List Record) (start : ℕ)
    → start ≡ size before
    → (entries : List Entry) (entry : Entry)
    → find_entry version (rev_entries before) (entries_from start rs).0 ≡ some (entries, entry)
    → Found version (rev_onto before rs) entries entry
find_entry-Found version before [] start placed entries entry h = cc
find_entry-Found version before (r ∷ rs) start placed entries entry h =
    elim (Bool-cases (r.version == version)) [
      | inl e ↦
          let here : some (rev_entries before, entry_at start r) ≡ some (entries, entry) =
            rw e at h in
          let there : some (rev_entries before, entry_at (size before) r) ≡ some (entries, entry) =
            rw placed at here in
          record {
            before = before;
            found = r;
            behind = rs;
            is_version = (==_iff r.version version).0 e;
            is_whole = refl;
            are_entries = cc;
            is_entry = cc;
          }
      | inr e ↦
          let later : find_entry version (entry_at start r ∷ rev_entries before)
                (entries_from (start + frame_size r) rs).0
              ≡ some (entries, entry) =
            rw e at h in
          let at_size : entry_at start r ≡ entry_at (size before) r =
            ap (λ s. entry_at s r) placed in
          find_entry-Found version (r ∷ before) rs (start + frame_size r) (omega (arith, placed))
            entries entry (rw at_size at later)
    ]

-- Some record of the version is found where there is one.
pub find_entry-present :
    (version : ℕ) (before : List Entry) (front : List Record) (r : Record) (behind : List Record)
    (start : ℕ)
    → r.version ≡ version
    → (entries : List Entry) × (entry : Entry) × (find_entry version before
          (entries_from start (front ++ r ∷ behind)).0
        ≡ some (entries, entry))
find_entry-present version before [] r behind start e =
    (before, entry_at start r, rw ((==_iff r.version version).1 e) refl)
find_entry-present version before (f ∷ front) r behind start e =
    elim (Bool-cases (f.version == version)) [
      | inl found ↦ (before, entry_at start f, rw found refl)
      | inr other ↦
          let (entries, entry, later) =
            find_entry-present version (entry_at start f ∷ before) front r behind
              (start + frame_size f) e in
          (entries, entry, rw other later)
    ]
