-- ===== src/Rapid/Index/Range.antt =====
-- The records that a range of src/bucket/rapid/index.rs covers.
use durable_actors.Prelude.{
  ℕ, ◌+◌, ◌-◌, ◌≤◌, ◌≡◌, refl, sym, ap, ◌∙◌, ◌⊎◌, inl, inr, String, Bool, true, false, ◌||◌, List,
  [], ◌∷◌, ◌++◌, arith, All, ok, >>=-eq-ok, append_assoc, ltb, context, context-eq-ok, All-append,
  if◌then◌else◌,
}
use durable_actors.Rapid.Frame.{Record}
use durable_actors.Rapid.Index.{frame_size, entries_from, find_entry, extend_back, range}
use durable_actors.Rapid.Index.Find.{rev_onto, rev_entries, find_entry-Found, find_entry-present}
use durable_actors.Rapid.Index.Laws.{size}

-- Records that end in front of `rs`, added at the front of it.
record Extended (first limit : ℕ) (before rs : List Record) (start : ℕ) : Type 0 where
  further : List Record
  added : List Record
  is_same : rev_onto further (added ++ rs) ≡ rev_onto before rs
  placed : start ≡ size further
  wanted : All (λ r. first ≤ r.version) added
  is_short : (added ≡ []) ⊎ (size added + size rs ≤ limit)

unextended :
    (first limit : ℕ) (before rs : List Record) (start : ℕ)
    → start ≡ size before
    → Extended first limit before rs start
unextended first limit before rs start placed = record {
  further = before;
  added = [];
  is_same = refl;
  placed = placed;
  wanted = tt;
  is_short = inl refl;
}

size-append : (xs ys : List Record) → size (xs ++ ys) ≡ size xs + size ys
size-append [] ys = omega arith
size-append (x ∷ xs) ys = omega (arith, size-append xs ys)

more-Extended :
    (first limit : ℕ) (before : List Record) (b : Record) (rs : List Record) (start : ℕ)
    → first ≤ b.version
    → frame_size b + size rs ≤ limit
    → Extended first limit before (b ∷ rs) start
    → Extended first limit (b ∷ before) rs start
more-Extended first limit before b rs start new fits x = record {
  further = x.further;
  added = x.added ++ b ∷ [];
  is_same = ap (rev_onto x.further) (append_assoc x.added (b ∷ []) rs) ∙ x.is_same;
  placed = x.placed;
  wanted = All-append (λ r. first ≤ r.version) x.added (b ∷ []) x.wanted (new, tt);
  is_short = inr (elim x.is_short [
    | inl none_added ↦ rw none_added (omega (arith, fits))
    | inr short ↦ omega (arith, short, size-append x.added (b ∷ []))
  ]);
}

extend_back-Extended :
    (first limit end : ℕ) (before rs : List Record) (start : ℕ)
    → start ≡ size before
    → end ≡ size before + size rs
    → Extended first limit before rs (extend_back first limit end start (rev_entries before))
extend_back-Extended first limit end [] rs start placed ends =
    unextended first limit [] rs start placed
extend_back-Extended first limit end (b ∷ before) rs start placed ends =
    go (ltb b.version first || ltb limit (end - size before)) refl (
      extend_back-Extended first limit end before (b ∷ rs) (size before) refl (omega (arith, ends)))
  where
    go :
        (stop : Bool)
        → (ltb b.version first || ltb limit (end - size before)) ≡ stop
        → Extended first limit before
            (b ∷ rs)
            (extend_back first limit end (size before) (rev_entries before))
        → Extended first limit
            (b ∷ before)
            rs
            (if stop then start else extend_back first limit end (size before) (rev_entries before))
    go true e rest = unextended first limit (b ∷ before) rs start placed
    go false e rest =
        more-Extended first limit before b rs _ (ground (arith, e)) (ground (arith, e, ends)) rest

pub rev_onto-append : (before rs : List Record) → rev_onto before rs ≡ rev_onto before [] ++ rs
rev_onto-append [] rs = refl
rev_onto-append (b ∷ before) rs =
    rev_onto-append before (b ∷ rs)
    ∙ sym (append_assoc (rev_onto before []) (b ∷ []) rs)
    ∙ ap (λ xs. xs ++ rs) (sym (rev_onto-append before (b ∷ [])))

pub size-rev_onto : (before rs : List Record) → size (rev_onto before rs) ≡ size before + size rs
size-rev_onto [] rs = omega arith
size-rev_onto (b ∷ before) rs = omega (arith, size-rev_onto before (b ∷ rs))

-- The records that a range covers: `front` and `behind` are left out, `added` are taken in beside `last`.
pub record Covers (version first limit : ℕ) (whole : List Record) (start length' : ℕ) : Type 0 where
  pub front : List Record
  pub added : List Record
  pub last : Record
  pub behind : List Record
  pub is_whole : whole ≡ front ++ ((added ++ last ∷ []) ++ behind)
  pub is_version : last.version ≡ version
  pub wanted : All (λ r. first ≤ r.version) added
  pub is_short : (added ≡ []) ⊎ (length' ≤ limit)
  pub starts : start ≡ size front
  pub measures : length' ≡ size (added ++ last ∷ [])

Extended-whole :
    (first limit : ℕ) (before : List Record) (found : Record) (behind : List Record) (start : ℕ)
    → (x : Extended first limit before (found ∷ []) start)
    → rev_onto before (found ∷ behind)
      ≡ rev_onto x.further [] ++ ((x.added ++ found ∷ []) ++ behind)
Extended-whole first limit before found behind start x =
    let range_records = x.added ++ found ∷ [] in
    rev_onto-append before (found ∷ behind)
    ∙ sym (append_assoc (rev_onto before []) (found ∷ []) behind)
    ∙ ap (λ xs. xs ++ behind)
        (sym (rev_onto-append before (found ∷ []))
          ∙ sym x.is_same
          ∙ rev_onto-append x.further range_records)
    ∙ append_assoc (rev_onto x.further []) range_records behind

found-Covers :
    (version first limit : ℕ) (whole before : List Record) (found : Record) (behind : List Record)
    (start length' : ℕ)
    → found.version ≡ version
    → rev_onto before (found ∷ behind) ≡ whole
    → Extended first limit before (found ∷ []) start
    → length' ≡ (size before + frame_size found) - start
    → Covers version first limit whole start length'
found-Covers version first limit whole before found behind start length' is_version is_whole x
      measured =
    let all : size before + size (found ∷ []) ≡ size x.further + size (x.added ++ found ∷ []) =
      sym (size-rev_onto before (found ∷ []))
      ∙ ap size (sym x.is_same)
      ∙ size-rev_onto x.further (x.added ++ found ∷ []) in
    let measures : length' ≡ size (x.added ++ found ∷ []) =
      omega (arith, measured, all, x.placed) in
    record {
      front = rev_onto x.further [];
      added = x.added;
      last = found;
      behind = behind;
      is_whole = sym is_whole ∙ Extended-whole first limit before found behind start x;
      is_version = is_version;
      wanted = x.wanted;
      is_short = elim x.is_short [
        | inl none_added ↦ inl none_added
        | inr short ↦ inr (omega (arith, measures, short, size-append x.added (found ∷ [])))
      ];
      starts = omega (arith, x.placed, size-rev_onto x.further []);
      measures = measures;
    }

pub range-Covers :
    (first version limit : ℕ) (batch : String) (rs : List Record) (start length' : ℕ)
    → range first version limit (record { batch = batch; records = (entries_from 0 rs).0 })
      ≡ ok (start, length')
    → Covers version first limit rs start length'
unfolding range
range-Covers first version limit batch rs start length' h =
    let ((entries, entry), found, h') =
      >>=-eq-ok (context (find_entry version [] (entries_from 0 rs).0) _) _ h in
    let f = find_entry-Found version [] rs 0 refl entries entry (context-eq-ok _ _ found) in
    let end : ℕ = entry.start + entry.length in
    let reached : ℕ = extend_back first limit end entry.start entries in
    let is_start : reached ≡ start = cc in
    let is_length : end - reached ≡ length' = cc in
    let at : entry.start ≡ size f.before = ap (λ e. e.start) f.is_entry in
    let long : entry.length ≡ frame_size f.found = ap (λ e. e.length) f.is_entry in
    let x : Extended first limit f.before (f.found ∷ []) reached = rw f.are_entries (
      extend_back-Extended first limit end f.before (f.found ∷ []) entry.start at
        (omega (arith, at, long))) in
    found-Covers version first limit rs f.before f.found f.behind start length' f.is_version
      f.is_whole (rw is_start at x) (omega (arith, is_start, is_length, at, long))

-- A version that the index has is found.
pub range-present :
    (first limit : ℕ) (batch : String) (front : List Record) (r : Record) (behind : List Record)
    → (start : ℕ) × (length' : ℕ) × (range first r.version limit
          (record { batch = batch; records = (entries_from 0 (front ++ r ∷ behind)).0 })
        ≡ ok (start, length'))
unfolding range
range-present first limit batch front r behind =
    let (entries, entry, found) = find_entry-present r.version [] front r behind 0 refl in
    let end : ℕ = entry.start + entry.length in
    (
      extend_back first limit end entry.start entries,
      end - extend_back first limit end entry.start entries,
      rw found refl,
    )
