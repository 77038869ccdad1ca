-- ===== src/Rapid/Segment.antt =====
-- src/bucket/rapid/segment.rs: appending to the open segment of a log. What its writers answer is the
-- environment's: a function from the bytes that are flushed to the replies.
use durable_actors.Prelude.{
  ℕ, ◌+◌, ◌≡◌, ◌≢◌, refl, Bool, true, false, List, [], ◌∷◌, Option, none, some, arith, ◌==◌, length,
  All, Result, ok, err, out_of_fuel, ◌>>=◌, ◌>>◌, ensure, context,
}
use durable_actors.Prelude.Words.{checked_add}
use durable_actors.Rapid.Frame.{Record, encode}

-- The fields that `append` reads and writes.
pub record Segment : Type 0 where
  pub offset : ℕ
  pub healthy : Bool

abbrev pub opened : Segment
opened = record { offset = 0; healthy = true }

-- What `bounded(join_all(...))` gives: `none` if it timed out, else a reply from each writer.
abbrev pub Flush : Type 0
Flush = Option (List (Result ℕ))

-- `for result in flushed { ensure!(result? == expected) }`
unfoldable pub check_replies : ℕ → List (Result ℕ) → Result (Unit {0})
check_replies expected [] = ok tt
check_replies expected (reply ∷ replies) = do
  offset ← reply
  ensure (offset == expected) "unexpected persisted log offset"
  check_replies expected replies

module _ (sha256 : List ℕ → List ℕ) where
  -- The part of `append` before the flush: the frame, and the offset that it will end at.
  unfoldable pub start_append : Segment → Record → Result (List ℕ × ℕ)
  start_append s r = do
    ensure s.healthy "uncertain log append requires activation recovery"
    frame ← encode sha256 r
    expected ← context (checked_add s.offset (length frame)) "log offset overflow"
    ok (frame, expected)

  -- The part after it, in a segment that is marked unhealthy until every reply has been checked.
  unfoldable pub finish_append : Segment → List ℕ → ℕ → Flush → Result (List ℕ) × Segment
  finish_append s frame expected none =
      (err "log operation timed out", record s { healthy = false })
  finish_append s frame expected (some replies) = elim (check_replies expected replies) [
    | ok _ ↦ (ok frame, record { offset = expected; healthy = true })
    | err e ↦ (err e, record s { healthy = false })
    | out_of_fuel ↦ (out_of_fuel, record s { healthy = false })
  ]

  pub append : Segment → Record → (List ℕ → Flush) → Result (List ℕ) × Segment
  append s r flush = elim (start_append s r) [
    | ok (frame, expected) ↦ finish_append s frame expected (flush frame)
    | err e ↦ (err e, s)
    | out_of_fuel ↦ (out_of_fuel, s)
  ]

  -- A reply of `expected` from every writer.
  abbrev pub AllReplied : ℕ → List (Result ℕ) → Type 0
  AllReplied expected = All (λ reply. reply ≡ ok expected)

  pub check_replies-AllReplied :
      (expected : ℕ) (replies : List (Result ℕ))
      → check_replies expected replies ≡ ok tt
      → AllReplied expected replies
  unfolding check_replies
  check_replies-AllReplied expected [] h = tt
  check_replies-AllReplied expected (reply ∷ replies) h =
      ground (arith, check_replies-AllReplied expected replies)

  pub start_append-eq-ok :
      (s : Segment) (r : Record) (frame : List ℕ) (expected : ℕ)
      → start_append s r ≡ ok (frame, expected)
      → (s.healthy ≡ true) × (encode sha256 r ≡ ok frame) × (expected ≡ s.offset + length frame)
  unfolding start_append
  start_append-eq-ok s r frame expected h = ground arith

  -- An append that is acknowledged had a reply of the frame's end from every writer, and only then is
  -- the segment still healthy. Any other append, once its flush has begun, leaves the segment at its
  -- old offset and unhealthy.
  pub data Finished (s : Segment) (frame : List ℕ) (expected : ℕ) (flush : Flush)
      : Result (List ℕ) × Segment → Type 0 where
    acknowledged :
        (replies : List (Result ℕ))
        → flush ≡ some replies
        → AllReplied expected replies
        → Finished s frame expected flush (ok frame, record { offset = expected; healthy = true })
    uncertain :
        (result : Result (List ℕ))
        → ((f : List ℕ) → result ≢ ok f)
        → Finished s frame expected flush (result, record { offset = s.offset; healthy = false })

  pub finish_append-Finished :
      (s : Segment) (frame : List ℕ) (expected : ℕ) (flush : Flush)
      → Finished s frame expected flush (finish_append s frame expected flush)
  unfolding finish_append
  finish_append-Finished s frame expected none = uncertain _ (λ f e. cc)
  finish_append-Finished s frame expected (some replies) = go (check_replies expected replies) refl
    where
      go :
          (checked : Result (Unit {0}))
          → check_replies expected replies ≡ checked
          → Finished s frame expected (some replies) (elim checked [
            | ok _ ↦ (ok frame, record { offset = expected; healthy = true })
            | err e ↦ (err e, record s { healthy = false })
            | out_of_fuel ↦ (out_of_fuel, record s { healthy = false })
          ])
      go (ok u) e = acknowledged replies refl (check_replies-AllReplied expected replies e)
      go (err m) e = uncertain _ (λ f p. cc)
      go out_of_fuel e = uncertain _ (λ f p. cc)
