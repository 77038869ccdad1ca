-- ===== src/Rapid/Durability/System.antt =====
-- The log of one segment together with the bytes that each of its zones holds.
use durable_actors.Prelude.{
  ℕ, ◌+◌, ◌≤◌, ◌<◌, ◌≡◌, Bool, true, List, [], ◌∷◌, ◌++◌, Option, none, some, if◌then◌else◌, length,
  take, map, Result, ok, err, out_of_fuel,
}
use durable_actors.Prelude.Words.{u64_mod}
use durable_actors.Rapid.Frame.{Record, follows}
use durable_actors.Rapid.Segment.{Segment, opened, Flush, start_append, finish_append}

-- `acked` holds the records whose append returned, and `pending` the one whose flush went wrong.
pub record Log : Type 0 where
  pub segment : Segment
  pub copies : List (List ℕ)
  pub acked : List Record
  pub pending : Option Record

abbrev pub empty_copies : ℕ → List (List ℕ)
empty_copies ℕ.zero = []
empty_copies (ℕ.suc n) = [] ∷ empty_copies n

abbrev pub new_log : ℕ → Log
new_log zones = record { segment = opened; copies = empty_copies zones; acked = []; pending = none }

-- What one zone does with a frame: it keeps the first `kept` bytes, and answers.
pub record ZoneWrite : Type 0 where
  pub kept : ℕ
  pub reply : Result ℕ

-- A zone keeps a part of the frame at most, and when it answers with a persisted size, that is the
-- size of what it holds.
abbrev pub Honest : List (List ℕ) → List ℕ → List ZoneWrite → Type 0
Honest [] frame [] = Unit {0}
Honest [] frame (z ∷ zones) = ⊥
Honest (c ∷ copies) frame [] = ⊥
Honest (c ∷ copies) frame (z ∷ zones) =
    ((z.kept ≤ length frame) × ((n : ℕ) → z.reply ≡ ok n → n ≡ length c + z.kept))
    × Honest copies frame zones

abbrev pub persist : List ℕ → List (List ℕ) → List ZoneWrite → List (List ℕ)
persist frame [] zones = []
persist frame (c ∷ copies) [] = c ∷ copies
persist frame (c ∷ copies) (z ∷ zones) = (c ++ take z.kept frame) ∷ persist frame copies zones

abbrev pub flush : Bool → List ZoneWrite → Flush
flush timed_out zones = if timed_out then none else some (map (λ z. z.reply) zones)

abbrev pub full : List Record → Option Record → List Record
full acked none = acked
full acked (some p) = acked ++ p ∷ []

-- The version of the last record, or `previous` if there is none.
abbrev pub last_version : Option ℕ → List Record → Option ℕ
last_version previous [] = previous
last_version previous (r ∷ rs) = last_version (some r.version) rs

abbrev pub settle : Log → Record → List (List ℕ) → Result (List ℕ) × Segment → Log
settle l r copies (ok frame, segment) = record {
  segment = segment;
  copies = copies;
  acked = l.acked ++ r ∷ [];
  pending = none;
}
settle l r copies (err e, segment) = record {
  segment = segment;
  copies = copies;
  acked = l.acked;
  pending = some r;
}
settle l r copies (out_of_fuel, segment) = record {
  segment = segment;
  copies = copies;
  acked = l.acked;
  pending = some r;
}

module _ (sha256 : List ℕ → List ℕ) where
  -- `Segment::append`, and what the zones keep of the frame that it flushes.
  unfoldable pub write : Log → Record → Bool → List ZoneWrite → Log
  write l r timed_out zones = elim (start_append sha256 l.segment r) [
    | ok (frame, expected) ↦
        settle l r (persist frame l.copies zones)
          (finish_append sha256 l.segment frame expected (flush timed_out zones))
    | err e ↦ l
    | out_of_fuel ↦ l
  ]

  -- The session writes consecutive versions (`Session::put`); the versions are u64s.
  pub data Step (l : Log) : Log → Type 0 where
    writes :
        (r : Record) (timed_out : Bool) (zones : List ZoneWrite)
        → r.version < u64_mod
        → follows (last_version none l.acked) r.version ≡ true
        → ((frame : List ℕ) (expected : ℕ)
            → start_append sha256 l.segment r ≡ ok (frame, expected)
            → Honest l.copies frame zones)
        → Step l (write l r timed_out zones)

  pub data Reach (zones : ℕ) : Log → Type 0 where
    start : Reach zones (new_log zones)
    next : {l m : Log} → Reach zones l → Step l m → Reach zones m
