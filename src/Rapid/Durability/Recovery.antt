-- ===== src/Rapid/Durability/Recovery.antt =====
-- What `read_replicas` gives back after any writes, from whichever zones still answer.
use durable_actors.Prelude.{
  ℕ, ◌+◌, ◌<◌, ◌≡◌, refl, ap, ◌∙◌, ◌⊎◌, inl, inr, List, [], ◌∷◌, ◌++◌, Option, none, some, arith,
  length, All, ok, append-nil, length-append, take-length, ltb, ltb→lt, Bool-cases, Option-cases,
  ◌^◌, ◌≢◌,
}
use durable_actors.Prelude.Words.{u64_mod}
use durable_actors.Rapid.Frame.{Record, encode, decode, Consecutive}
use durable_actors.Rapid.Frame.Laws.{encode-eq-ok, length-frame}
use durable_actors.Rapid.Frame.RoundTrip.{HasWord, decode-encode_all, decode-encode_all_whole}
use durable_actors.Rapid.Replicas.{decode_copies, read_replicas, Near, select_longest-Near_first}
use durable_actors.Rapid.Durability.System.{Log, full, Reach}
use durable_actors.Rapid.Durability.Invariant.{Inv, Holds, Reach-Inv, encode_all-append_one}

abbrev extra : Option Record → List Record
extra none = []
extra (some p) = p ∷ []

All-left {ℓ κ} :
    {A : Type ℓ} (Holds : A → Type κ) (front back : List A)
    → All Holds (front ++ back)
    → All Holds front
All-left Holds [] back h = tt
All-left Holds (x ∷ front) back h = (h.0, All-left Holds front back h.1)

Consecutive-left :
    (previous : Option ℕ) (rs qs : List Record)
    → Consecutive previous (rs ++ qs)
    → Consecutive previous rs
Consecutive-left previous [] qs c = tt
Consecutive-left previous (r ∷ rs) qs c = (c.0, Consecutive-left (some r.version) rs qs c.1)

-- The reads of a recovery: each zone gives what it holds, or does not answer.
abbrev pub Answers : List (List ℕ) → List (Option (List ℕ)) → Type 0
Answers [] [] = Unit {0}
Answers [] (read ∷ reads) = ⊥
Answers (c ∷ copies) [] = ⊥
Answers (c ∷ copies) (read ∷ reads) = ((read ≡ none) ⊎ (read ≡ some c)) × Answers copies reads

-- Some zone answers.
abbrev pub SomeAnswer : List (Option (List ℕ)) → Type 0
SomeAnswer [] = ⊥
SomeAnswer (none ∷ reads) = SomeAnswer reads
SomeAnswer (some bytes ∷ reads) = Unit {0}

decode_copies-ne-empty :
    (sha256 : List ℕ → List ℕ) (reads : List (Option (List ℕ)))
    → SomeAnswer reads
    → decode_copies sha256 reads ≢ ok []
unfolding decode_copies
decode_copies-ne-empty sha256 [] a h = a
decode_copies-ne-empty sha256 (none ∷ reads) a h = decode_copies-ne-empty sha256 reads a h
decode_copies-ne-empty sha256 (some bytes ∷ reads) a h = ground arith

module _ (sha256 : List ℕ → List ℕ) (sha256-length : (b : List ℕ) → length (sha256 b) ≡ 32) where
  module _ (l : Log) (written : List ℕ) (inv : Inv sha256 l written)
      (room : l.segment.offset + 2 ^ 33 < u64_mod) where
    length-frame_bound :
        (r : Record) (frame : List ℕ) → encode sha256 r ≡ ok frame → length frame < 2 ^ 32 + 48
    length-frame_bound r frame e =
        let (_, small, ef) = encode-eq-ok sha256 r e in
        omega (arith, ap length ef, length-frame sha256 sha256-length r)

    -- Each zone holds the acknowledged records, and the uncertain one or nothing of it.
    decode-Holds :
        (pending : Option Record) (copy : List ℕ)
        → All HasWord (full l.acked pending)
        → Consecutive none (full l.acked pending)
        → Holds sha256 written pending copy
        → (records : List Record) × (decode sha256 copy ≡ ok records)
          × Near l.acked (extra pending) records
    decode-Holds none copy words c held = (
      l.acked,
      rw held (
          decode-encode_all_whole sha256 sha256-length l.acked written inv.stored words c
            (omega (arith, inv.offset))),
      inl refl,
    )
    decode-Holds (some p) copy words c (frame, kept, e, part, held) =
        let bound = length-frame_bound p frame e in
        let both = encode_all-append_one sha256 l.acked p written frame inv.stored e in
        elim (Bool-cases (ltb kept (length frame))) [
          | inl torn ↦ (
            l.acked,
            rw held (
                decode-encode_all sha256 sha256-length l.acked p written frame kept inv.stored e
                  (ltb→lt kept (length frame) torn) (All-left HasWord l.acked (p ∷ []) words)
                  (Consecutive-left none l.acked (p ∷ []) c) (omega (arith, inv.offset))),
            inl refl,
          )
          | inr whole ↦
              let kept_all : kept ≡ length frame = ground arith in
              (
                l.acked ++ p ∷ [],
                rw (held, kept_all, take-length frame)
                    (decode-encode_all_whole sha256 sha256-length (l.acked ++ p ∷ [])
                      (written ++ frame) both words c
                      (omega (arith, inv.offset, length-append written frame))),
                inr refl,
              )
        ]

    decode_copies-Holds :
        (copies : List (List ℕ)) (reads : List (Option (List ℕ)))
        → All (Holds sha256 written l.pending) copies
        → Answers copies reads
        → (records : List (List Record)) × (decode_copies sha256 reads ≡ ok records)
          × All (Near l.acked (extra l.pending)) records
    unfolding decode_copies
    decode_copies-Holds [] [] held answers = ([], refl, tt)
    decode_copies-Holds [] (read ∷ reads) held answers = absurd answers
    decode_copies-Holds (c ∷ copies) [] held answers = absurd answers
    decode_copies-Holds (c ∷ copies) (read ∷ reads) held answers =
        let (rest, e, near) = decode_copies-Holds copies reads held.1 answers.1 in
        let (records, d, n) = decode-Holds l.pending c inv.words inv.consecutive held.0 in
        elim answers.0 [
          | inl silent ↦ (rest, rw silent e, near)
          | inr given ↦ (records ∷ rest, rw (given, d, e), (n, near))
        ]

    read_replicas-Near :
        (reads : List (Option (List ℕ)))
        → Answers l.copies reads
        → SomeAnswer reads
        → (result : List Record) × (read_replicas sha256 reads ≡ ok result)
          × Near l.acked (extra l.pending) result
    unfolding read_replicas
    read_replicas-Near reads answers some_answer =
        let (records, e, near) = decode_copies-Holds l.copies reads inv.copies answers in
        go records e near
      where
        go :
            (records : List (List Record))
            → decode_copies sha256 reads ≡ ok records
            → All (Near l.acked (extra l.pending)) records
            → (result : List Record) × (read_replicas sha256 reads ≡ ok result)
              × Near l.acked (extra l.pending) result
        go [] e near = absurd (decode_copies-ne-empty sha256 reads some_answer e)
        go (c ∷ copies) e near =
            let (result, chosen, n) =
              select_longest-Near_first l.acked (extra l.pending) c copies near.0 near.1 in
            (result, rw (e, chosen), n)

  -- Whatever happened to the appends of a segment, replies lost, zones timed out, frames kept in part,
  -- a recovery that gets an answer from one zone at least succeeds, and gives back every record whose
  -- append was acknowledged, in order, followed at most by the one record whose append was left
  -- uncertain. A zone keeps a part of a frame at most, and its reply states what it holds; the log
  -- leaves room for two frames below 2^64 bytes.
  pub read_replicas_durable :
      (zones : ℕ) (l : Log) (reads : List (Option (List ℕ)))
      → Reach sha256 zones l
      → l.segment.offset + 2 ^ 33 < u64_mod
      → Answers l.copies reads
      → SomeAnswer reads
      → (read_replicas sha256 reads ≡ ok l.acked)
        ⊎ ((p : Record) × (l.pending ≡ some p)
            × (read_replicas sha256 reads ≡ ok (l.acked ++ p ∷ [])))
  read_replicas_durable zones l reads reach room answers some_answer =
      let (written, inv) = Reach-Inv sha256 reach in
      let (result, e, near) = read_replicas-Near l written inv room reads answers some_answer in
      elim near [
        | inl acked ↦ inl (e ∙ ap ok acked)
        | inr longer ↦ elim (Option-cases l.pending) [
          | inl none_left ↦
              inl (e ∙ ap ok (longer ∙ ap (λ o. l.acked ++ extra o) none_left ∙ append-nil l.acked))
          | inr (p, left) ↦ inr (p, left, e ∙ ap ok (longer ∙ ap (λ o. l.acked ++ extra o) left))
        ]
      ]
