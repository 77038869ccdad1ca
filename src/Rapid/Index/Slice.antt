-- ===== src/Rapid/Index/Slice.antt =====
-- A range of an index, cut out of its batch, is a log of the records that it is to hold.
use durable_actors.Prelude.{
  ℕ, ◌+◌, ◌-◌, ◌≤◌, ◌<◌, ◌≡◌, refl, sym, ap, ◌∙◌, ◌⊎◌, String, true, List, [], ◌∷◌, ◌++◌, Option,
  none, some, arith, length, take, drop, All, ok, length-append, append_assoc, take-append,
  drop-append, ==_iff,
}
use durable_actors.Prelude.Words.{u64_mod, checked_sub_fits}
use durable_actors.Rapid.Frame.{Record, header_size, encode_all, decode, follows, Consecutive}
use durable_actors.Rapid.Frame.RoundTrip.{HasWord, decode-encode_all_whole}
use durable_actors.Rapid.Index.{
  Index, entries_from, index_batch, validate, range, bounds, has_entries,
}
use durable_actors.Rapid.Index.Laws.{
  size, IsSmall, entries_from-size, check_entries-entries_from, encode_all-split,
  encode_all-IsSmall, length-encode_all,
}
use durable_actors.Rapid.Index.Range.{Covers, range-Covers, range-present}

All-middle {ℓ κ} :
    {A : Type ℓ} (Holds : A → Type κ) (front middle behind : List A)
    → All Holds (front ++ (middle ++ behind))
    → All Holds middle
All-middle Holds [] [] behind all = tt
All-middle Holds [] (m ∷ middle) behind all = (all.0, All-middle Holds [] middle behind all.1)
All-middle Holds (f ∷ front) middle behind all = All-middle Holds front middle behind all.1

Consecutive-head :
    (previous : Option ℕ) (rs : List Record) → Consecutive previous rs → Consecutive none rs
Consecutive-head previous [] c = tt
Consecutive-head previous (r ∷ rs) c = (refl, c.1)

Consecutive-middle :
    (previous : Option ℕ) (front middle behind : List Record)
    → Consecutive previous (front ++ (middle ++ behind))
    → Consecutive none middle
Consecutive-middle previous [] [] behind c = tt
Consecutive-middle previous [] (m ∷ middle) behind c = (refl, ends (some m.version) middle c.1)
  where
    ends : (p : Option ℕ) (ms : List Record) → Consecutive p (ms ++ behind) → Consecutive p ms
    ends p [] c = tt
    ends p (r ∷ ms) c = (c.0, ends (some r.version) ms c.1)
Consecutive-middle previous (f ∷ front) middle behind c =
    Consecutive-middle (some f.version) front middle behind c.1

follows-lt : (previous version : ℕ) → follows (some previous) version ≡ true → previous < version
follows-lt previous version h = ground arith

-- The versions behind a record are greater, so a version names one record.
later-lt :
    (v : ℕ) (front : List Record) (r : Record) (behind : List Record)
    → Consecutive (some v) (front ++ r ∷ behind)
    → v < r.version
later-lt v [] r behind c = follows-lt v r.version c.0
later-lt v (f ∷ front) r behind c =
    omega (arith, follows-lt v f.version c.0, later-lt f.version front r behind c.1)

one_of_version :
    (previous : Option ℕ) (xs ys : List Record) (a b : Record) (xs' ys' : List Record)
    → Consecutive previous (xs ++ a ∷ xs')
    → xs ++ a ∷ xs' ≡ ys ++ b ∷ ys'
    → a.version ≡ b.version
    → a ≡ b
one_of_version previous [] [] a b xs' ys' c e v = cc
one_of_version previous [] (y ∷ ys) a b xs' ys' c e v =
    let tail : xs' ≡ ys ++ b ∷ ys' = cc in
    absurd (omega (arith, v, later-lt a.version ys b ys' (rw tail at c.1)))
one_of_version previous (x ∷ xs) [] a b xs' ys' c e v =
    let head : x ≡ b = cc in
    let later = later-lt x.version xs a xs' c.1 in
    absurd (omega (arith, v, later, ap (λ r. r.version) head))
one_of_version previous (x ∷ xs) (y ∷ ys) a b xs' ys' c e v =
    let tail : xs ++ a ∷ xs' ≡ ys ++ b ∷ ys' = cc in
    one_of_version (some x.version) xs ys a b xs' ys' c.1 tail v

has_entries-append :
    (front : List Record) (r : Record) (behind : List Record) (start : ℕ)
    → has_entries (entries_from start (front ++ r ∷ behind)).0 ≡ true
has_entries-append [] r behind start = refl
has_entries-append (f ∷ front) r behind start = refl

bounds-some :
    (front : List Record) (r : Record) (behind : List Record) (start : ℕ)
    → (first : ℕ) × (last : ℕ) × (bounds (entries_from start (front ++ r ∷ behind)).0
        ≡ some (first, last))
bounds-some [] r behind start = (_, _, refl)
bounds-some (f ∷ front) r behind start = (_, _, refl)

module _ (sha256 : List ℕ → List ℕ) (sha256-length : (b : List ℕ) → length (sha256 b) ≡ 32) where
  index_batch-eq :
      (batch : String) (front : List Record) (r : Record) (behind : List Record) (bytes : List ℕ)
      → decode sha256 bytes ≡ ok (front ++ r ∷ behind)
      → length bytes ≡ size (front ++ r ∷ behind)
      → (first : ℕ) × (last : ℕ) × (index_batch sha256 batch bytes
          ≡ ok (
            record { batch = batch; records = (entries_from 0 (front ++ r ∷ behind)).0 },
            first,
            last,
          ))
  unfolding index_batch
  index_batch-eq batch front r behind bytes decoded long =
      let (first, last, e) = bounds-some front r behind 0 in
      (
        first,
        last,
        rw
            (
              decoded,
              (==_iff (entries_from 0 (front ++ r ∷ behind)).1 (length bytes)).1
                  (omega (arith, long, entries_from-size 0 (front ++ r ∷ behind))),
              e,
            )
            refl,
      )

  validate-entries :
      (batch : String) (front : List Record) (r : Record) (behind : List Record) (start total : ℕ)
      → All IsSmall (front ++ r ∷ behind)
      → Consecutive none (front ++ r ∷ behind)
      → total ≡ size (front ++ r ∷ behind)
      → total < u64_mod
      → validate
          (start, start + total)
          (record { batch = batch; records = (entries_from 0 (front ++ r ∷ behind)).0 })
        ≡ ok tt
  unfolding validate
  validate-entries batch front r behind start total small consecutive is_total fits =
      let rs : List Record = front ++ r ∷ behind in
      let difference : (start + total) - start ≡ total = omega arith in
      rw
        (
          checked_sub_fits (start + total) start (omega arith),
          check_entries-entries_from 0 none rs small consecutive (omega (arith, is_total, fits)),
          has_entries-append front r behind 0,
          difference,
          (==_iff (0 + size rs) total).1 (omega (arith, is_total)),
        )
        refl

  -- The bytes of a range are the encoding of the records that it covers.
  Covers-decode :
      (version first limit : ℕ) (whole : List Record) (start length' : ℕ) (bytes : List ℕ)
      → (c : Covers version first limit whole start length') → encode_all sha256 whole ≡ ok bytes
      → All HasWord whole
      → Consecutive none whole
      → length bytes + header_size < u64_mod
      → decode sha256 (take length' (drop start bytes)) ≡ ok (c.added ++ c.last ∷ [])
  Covers-decode version first limit whole start length' bytes c written words consecutive fits =
      let middle : List Record = c.added ++ c.last ∷ [] in
      let (w1, w', e1, e', split) =
        encode_all-split sha256 c.front (middle ++ c.behind) bytes (rw (c.is_whole) at written) in
      let (w2, w3, e2, e3, split') = encode_all-split sha256 middle c.behind w' e' in
      let l1 = length-encode_all sha256 sha256-length c.front w1 e1 in
      let l2 = length-encode_all sha256 sha256-length middle w2 e2 in
      rw
        (
          split,
          drop-append w1 w' start (omega (arith, c.starts, l1)),
          split',
          take-append w2 w3 length' (omega (arith, c.measures, l2)),
        )
        (decode-encode_all_whole sha256 sha256-length middle w2 e2
          (All-middle HasWord c.front middle c.behind (rw (c.is_whole) at words))
          (Consecutive-middle none c.front middle c.behind (rw (c.is_whole) at consecutive))
          (omega (
            arith,
            fits,
            ap length split,
            ap length split',
            length-append w1 w',
            length-append w2 w3,
          )))

  -- A batch of consecutive records, one `encode` after another, that is below 2^64 - 48 bytes long: it
  -- can be indexed; the index is valid for the batch at any offset; and for each record of it and any
  -- limit and first version there is a range, whose bytes `decode` reads as that record behind some of
  -- those before it. None of these is older than `first`, and with any of them the range is no longer
  -- than the limit.
  pub index_batch-range :
      (batch : String) (front : List Record) (r : Record) (behind : List Record) (bytes : List ℕ)
      (at first limit : ℕ)
      → encode_all sha256 (front ++ r ∷ behind) ≡ ok bytes
      → All HasWord (front ++ r ∷ behind)
      → Consecutive none (front ++ r ∷ behind)
      → length bytes + header_size < u64_mod
      → (index : Index) × (from : ℕ) × (to : ℕ) × (start : ℕ) × (length' : ℕ) × (added : List
          Record)
        × (index_batch sha256 batch bytes ≡ ok (index, from, to))
        × (validate (at, at + length bytes) index ≡ ok tt)
        × (range first r.version limit index ≡ ok (start, length'))
        × (decode sha256 (take length' (drop start bytes)) ≡ ok (added ++ r ∷ []))
        × All (λ q. first ≤ q.version) added
        × ((added ≡ []) ⊎ (length' ≤ limit))
  index_batch-range batch front r behind bytes at first limit written words consecutive fits =
      let rs : List Record = front ++ r ∷ behind in
      let long = length-encode_all sha256 sha256-length rs bytes written in
      let decoded =
        decode-encode_all_whole sha256 sha256-length rs bytes written words consecutive fits in
      let (from, to, indexed) = index_batch-eq batch front r behind bytes decoded long in
      let (start, length', ranged) = range-present first limit batch front r behind in
      let c = range-Covers first r.version limit batch rs start length' ranged in
      let shape : rs ≡ (c.front ++ c.added) ++ c.last ∷ c.behind =
        c.is_whole
        ∙ ap (λ xs. c.front ++ xs) (append_assoc c.added (c.last ∷ []) c.behind)
        ∙ sym (append_assoc c.front c.added (c.last ∷ c.behind)) in
      let same : r ≡ c.last =
        one_of_version none front (c.front ++ c.added) r c.last behind c.behind consecutive shape
          (sym c.is_version) in
      (
        record { batch = batch; records = (entries_from 0 rs).0 },
        from,
        to,
        start,
        length',
        c.added,
        indexed,
        validate-entries batch front r behind at (length bytes)
            (encode_all-IsSmall sha256 rs bytes written) consecutive long (omega (arith, fits)),
        ranged,
        Covers-decode r.version first limit rs start length' bytes c written words consecutive fits
            ∙ ap (λ q. ok (c.added ++ q ∷ [])) (sym same),
        c.wanted,
        c.is_short,
      )
