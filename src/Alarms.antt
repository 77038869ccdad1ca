-- ===== src/Alarms.antt =====
-- src/control_plane/alarms.rs: the alarms of actors in `MemoryAlarmStore`, and the loop that claims due
-- alarms and delivers them. An i64 is the natural number that is 2^63 above it, so that a
-- subtraction that saturates at the least i64 is the subtraction that stops at 0.
pub mod Due
pub mod Runs
pub mod Safety
pub mod Delivery
pub mod Order
pub mod Matched
pub mod Poll
use durable_actors.Prelude.{
  ℕ, suc, ◌+◌, ◌-◌, ◌*◌, ◌^◌, Bool, true, false, ◌&&◌, List, [], ◌∷◌, Option, none, some, ltb, leb,
  ◌==◌, if◌then◌else◌, take, Result, ok, err, out_of_fuel, ◌>>=◌, context,
}
use durable_actors.Prelude.Words.{checked_add}
use durable_actors.Prelude.Maps.{get, insert}
use durable_actors.Ownership.Types.{ActorKey, actor_eq}

abbrev pub max_in_flight : ℕ
max_in_flight = 100

abbrev pub max_attempts : ℕ
max_attempts = 3

abbrev pub min_retry_delay_ms : ℕ
min_retry_delay_ms = 1000

abbrev pub attempt_timeout_ms : ℕ
attempt_timeout_ms = 60000

abbrev pub queued_timeout_ms : ℕ
queued_timeout_ms = 300000

pub record ClaimedAlarm : Type 0 where
  pub actor : ActorKey
  pub revision : ℕ

pub record MemoryAlarm : Type 0 where
  pub revision : ℕ
  pub timestamp_ms : Option ℕ
  pub queued_at_ms : Option ℕ

abbrev pub Alarms : Type 0
Alarms = List (ActorKey × MemoryAlarm)

abbrev pub timestamp_of : Option MemoryAlarm → Option ℕ
timestamp_of none = none
timestamp_of (some alarm) = alarm.timestamp_ms

-- `MemoryAlarmStore::get`
unfoldable pub get_alarm : Alarms → ActorKey → Option ℕ
get_alarm alarms actor = timestamp_of (get actor alarms)

abbrev pub next_revision : Option MemoryAlarm → Result ℕ
next_revision none = ok 1
next_revision (some alarm) = context (checked_add alarm.revision 1) "alarm revision overflow"

-- `MemoryAlarmStore::update`: the alarms that it leaves, if it does not fail.
unfoldable pub update : Alarms → ActorKey → Option ℕ → Result Alarms
update alarms actor timestamp_ms = do
  revision ← next_revision (get actor alarms)
  ok (
      insert actor
        (record { revision = revision; timestamp_ms = timestamp_ms; queued_at_ms = none }) alarms)

abbrev pub is_none_or_le : ℕ → Option ℕ → Bool
is_none_or_le bound none = true
is_none_or_le bound (some n) = leb n bound

-- The closure of `filter_map` in `claim_due`: when the alarm is due, if it can be claimed.
unfoldable pub due_at : ℕ → ℕ → MemoryAlarm → Option ℕ
due_at now_ms expired_before_ms alarm = elim alarm.timestamp_ms [
  | none ↦ none
  | some due_ms ↦
      if leb due_ms now_ms && is_none_or_le expired_before_ms alarm.queued_at_ms
      then some due_ms
      else none
]

abbrev pub add_due : ActorKey → Option ℕ → List (ℕ × ActorKey) → List (ℕ × ActorKey)
add_due actor none due = due
add_due actor (some due_ms) due = (due_ms, actor) ∷ due

unfoldable pub all_due : ℕ → ℕ → Alarms → List (ℕ × ActorKey)
all_due now_ms expired_before_ms [] = []
all_due now_ms expired_before_ms ((actor, alarm) ∷ alarms) =
    add_due actor (due_at now_ms expired_before_ms alarm) (all_due now_ms expired_before_ms alarms)

-- `sort_by_key`, a stable sort: an entry goes before those behind it that have the same key.
unfoldable pub insert_due : ℕ × ActorKey → List (ℕ × ActorKey) → List (ℕ × ActorKey)
insert_due entry [] = entry ∷ []
insert_due entry (first ∷ due) =
    let rest = insert_due entry due in
    if leb entry.0 first.0 then entry ∷ first ∷ due else first ∷ rest

unfoldable pub sort_due : List (ℕ × ActorKey) → List (ℕ × ActorKey)
sort_due [] = []
sort_due (entry ∷ due) = insert_due entry (sort_due due)

abbrev pub mark_queued : ℕ → MemoryAlarm → MemoryAlarm
mark_queued now_ms alarm = record alarm { queued_at_ms = some now_ms }

-- The closure of the last `map`; `get_mut(..).expect(..)` panics on an alarm that is not there.
unfoldable pub claim_one : ℕ → ActorKey → Alarms → Result (ClaimedAlarm × Alarms)
claim_one now_ms actor alarms = do
  alarm ← context (get actor alarms) "selected alarm disappeared"
  ok (
    record { actor = actor; revision = alarm.revision },
    insert actor (mark_queued now_ms alarm) alarms,
  )

unfoldable pub claim_each : ℕ → List (ℕ × ActorKey) → Alarms → Result (List ClaimedAlarm × Alarms)
claim_each now_ms [] alarms = ok ([], alarms)
claim_each now_ms ((due_ms, actor) ∷ due) alarms = do
  (claimed, marked) ← claim_one now_ms actor alarms
  (rest, alarms') ← claim_each now_ms due marked
  ok (claimed ∷ rest, alarms')

-- `MemoryAlarmStore::claim_due`
unfoldable pub claim_due_at : ℕ → ℕ → ℕ → Alarms → Result (List ClaimedAlarm × Alarms)
claim_due_at now_ms expired_before_ms limit alarms =
    claim_each now_ms (take limit (sort_due (all_due now_ms expired_before_ms alarms))) alarms

-- `MemoryAlarmStore::finish`
unfoldable pub finish : ClaimedAlarm → Alarms → Alarms
finish claimed alarms = elim (get claimed.actor alarms) [
  | none ↦ alarms
  | some current ↦
      if current.revision == claimed.revision
      then insert claimed.actor (record current { timestamp_ms = none; queued_at_ms = none }) alarms
      else alarms
]

-- The clock, a u64 that has to fit an i64.
abbrev pub i64_of : ℕ → Option ℕ
i64_of ms = if ltb ms (2 ^ 63) then some (ms + 2 ^ 63) else none

-- `claim_due`, the function.
unfoldable pub claim_due : ℕ → ℕ → Alarms → Result (List ClaimedAlarm × Alarms)
claim_due clock_ms limit alarms = do
  now_ms ← context (i64_of clock_ms) "alarm clock overflow"
  claim_due_at now_ms (now_ms - queued_timeout_ms) limit alarms

-- `claim`, which claims nothing when it fails, or when no slot is free.
abbrev pub or_nothing : Alarms → Result (List ClaimedAlarm × Alarms) → List ClaimedAlarm × Alarms
or_nothing alarms (ok claimed) = claimed
or_nothing alarms (err e) = ([], alarms)
or_nothing alarms out_of_fuel = ([], alarms)

unfoldable pub claim : ℕ → ℕ → Alarms → List ClaimedAlarm × Alarms
claim clock_ms limit alarms =
    if limit == 0 then ([], alarms) else or_nothing alarms (claim_due clock_ms limit alarms)
