-- ===== src/Examples/Durability.antt =====
-- A log in two zones: src/bucket/rapid/segment.rs and src/bucket/rapid/reader.rs. The first append
-- reaches both zones; of the second, one zone keeps ten bytes and does not answer.
use durable_actors.Prelude.{
  ℕ, ◌≡◌, refl, ◌⊎◌, inl, inr, true, false, List, [], ◌∷◌, ◌++◌, Option, none, some, arith, take,
  Result, ok, err,
}
use durable_actors.Rapid.Frame.{Record, encode, checksum, prefix}
use durable_actors.Rapid.Segment.{opened, check_replies, start_append, finish_append}
use durable_actors.Rapid.Replicas.{read_replicas}
use durable_actors.Rapid.Durability.{
  Log, ZoneWrite, new_log, write, writes, Honest, Reach, start, next,
}
use durable_actors.Rapid.Durability.Recovery.{read_replicas_durable}
use durable_actors.Examples.Frame.{no_digest, first, second, framed, first_bytes}

abbrev reached : ℕ → ℕ → ZoneWrite
reached kept size = record { kept = kept; reply = ok size }

abbrev lost : ℕ → ZoneWrite
lost kept = record { kept = kept; reply = err "connection lost" }

abbrev both : List ZoneWrite
both = reached 51 51 ∷ reached 51 51 ∷ []

abbrev one : List ZoneWrite
one = reached 49 100 ∷ lost 10 ∷ []

abbrev after_first : Log
after_first = record {
  segment = record { offset = 51; healthy = true };
  copies = first_bytes ∷ first_bytes ∷ [];
  acked = first ∷ [];
  pending = none;
}

abbrev after_second : Log
after_second = record {
  segment = record { offset = 51; healthy = false };
  copies =
      (first_bytes ++ framed 1 8 (4 ∷ [])) ∷ (first_bytes ++ take 10 (framed 1 8 (4 ∷ []))) ∷ [];
  acked = first ∷ [];
  pending = some second;
}

start-first : start_append no_digest opened first ≡ ok (first_bytes, 51)
unfolding start_append encode prefix checksum
start-first = refl

start-second : start_append no_digest after_first.segment second ≡ ok (framed 1 8 (4 ∷ []), 100)
unfolding start_append encode prefix checksum
start-second = refl

write-first : write no_digest (new_log 2) first false both ≡ after_first
unfolding write finish_append check_replies start_append encode prefix checksum
write-first = refl

write-second : write no_digest after_first second false one ≡ after_second
unfolding write finish_append check_replies start_append encode prefix checksum
write-second = refl

reply-size : (m n : ℕ) (reply : Result ℕ) → reply ≡ ok m → reply ≡ ok n → n ≡ m
reply-size m n reply e h = ground arith

Honest-started :
    (l : Log) (r : Record) (zones : List ZoneWrite) (started : List ℕ) (end : ℕ)
    → start_append no_digest l.segment r ≡ ok (started, end)
    → Honest l.copies started zones
    → (frame : List ℕ) (expected : ℕ) → start_append no_digest l.segment r ≡ ok (frame, expected)
    → Honest l.copies frame zones
Honest-started l r zones started end e honest frame expected h =
    let same : frame ≡ started = ground (arith, e, h) in rw same honest

Reach-first : Reach no_digest 2 after_first
Reach-first = rw⁻¹ write-first (
    next start (
      writes first false both (omega arith) refl (
        Honest-started (new_log 2) first both first_bytes 51 start-first (
          (omega arith, λ n h. reply-size 51 n (ok 51) refl h),
          ((omega arith, λ n h. reply-size 51 n (ok 51) refl h), tt),
        ))))

Reach-second : Reach no_digest 2 after_second
Reach-second = rw⁻¹ write-second (
    next Reach-first (
      writes second false one (omega arith) refl (
        Honest-started after_first second one (framed 1 8 (4 ∷ [])) 100 start-second (
          (omega arith, λ n h. reply-size 100 n (ok 100) refl h),
          ((omega arith, λ n h. ground arith), tt),
        ))))

-- Only the zone that answered neither append in full is there.
abbrev reads : List (Option (List ℕ))
reads = none ∷ some (first_bytes ++ take 10 (framed 1 8 (4 ∷ []))) ∷ []

read_replicas_durable_example :
    (read_replicas no_digest reads ≡ ok (first ∷ []))
    ⊎ ((p : Record) × (some second ≡ some p)
        × (read_replicas no_digest reads ≡ ok (first ∷ p ∷ [])))
read_replicas_durable_example =
    read_replicas_durable no_digest (λ b. refl) 2 after_second reads Reach-second (omega arith)
      (inl refl, (inr refl, tt)) tt
