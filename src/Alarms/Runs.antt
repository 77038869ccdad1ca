-- ===== src/Alarms/Runs.antt =====
-- Any updates, claims and ends of deliveries of a store of alarms: src/control_plane/alarms.rs.
pub mod Steps
use mathlib.Core.List.{Memᴰ}
use durable_actors.Prelude.{
  ℕ, suc, ◌+◌, ◌^◌, ◌<◌, ◌≤◌, ◌≡◌, ◌⊎◌, Bool, true, false, List, [], ◌∷◌, Option, none, some,
  if◌then◌else◌, All, Result, ok,
}
use durable_actors.Prelude.Maps.{get, Unique}
use durable_actors.Ownership.Types.{ActorKey, same_actor, actor_eq}
use durable_actors.Alarms.{
  ClaimedAlarm, MemoryAlarm, Alarms, queued_timeout_ms, update, claim_due, finish,
}

-- Each update, with the time that it sets; each claim, with the time at which it was made. The newest
-- is first.
abbrev pub Sets : Type 0
Sets = List (ActorKey × Option ℕ)

abbrev pub ClaimLog : Type 0
ClaimLog = List (ClaimedAlarm × ℕ)

abbrev pub stamp : ℕ → List ClaimedAlarm → ClaimLog → ClaimLog
stamp now [] log = log
stamp now (c ∷ claimed) log = stamp now claimed ((c, now) ∷ log)

-- The clock's time as an i64, see Alarms.
abbrev pub at_clock : ℕ → ℕ
at_clock ms = ms + 2 ^ 63

-- Only an alarm that was claimed is finished.
pub data Runs : Sets → ClaimLog → Alarms → Type 0 where
  starts : Runs [] [] []
  updates :
      {sets : Sets} {log : ClaimLog} {alarms alarms' : Alarms} (actor : ActorKey)
      (timestamp_ms : Option ℕ)
      → update alarms actor timestamp_ms ≡ ok alarms'
      → Runs sets log alarms
      → Runs ((actor, timestamp_ms) ∷ sets) log alarms'
  claims :
      {sets : Sets} {log : ClaimLog} {alarms alarms' : Alarms} {claimed : List ClaimedAlarm}
      (clock_ms limit : ℕ)
      → claim_due clock_ms limit alarms ≡ ok (claimed, alarms')
      → Runs sets log alarms
      → Runs sets (stamp (at_clock clock_ms) claimed log) alarms'
  finishes :
      {sets : Sets} {log : ClaimLog} {alarms : Alarms} (claimed : ClaimedAlarm) (at : ℕ)
      → Memᴰ (claimed, at) log
      → Runs sets log alarms
      → Runs sets log (finish claimed alarms)

-- How often an actor's alarm was set, and to what the last time.
abbrev pub count_sets : ActorKey → Sets → ℕ
count_sets actor [] = 0
count_sets actor ((k, t) ∷ sets) =
    if same_actor k actor then suc (count_sets actor sets) else count_sets actor sets

abbrev pub last_set : ActorKey → Sets → Option (Option ℕ)
last_set actor [] = none
last_set actor ((k, t) ∷ sets) = if same_actor k actor then some t else last_set actor sets

-- An earlier claim, of another actor, of an older revision, or of this alarm. In the last case the
-- alarm was due, and it has been finished or is still queued since that claim or a later one.
pub data Earlier (actor : ActorKey) (sets : Sets) (alarm : MemoryAlarm) (c : ClaimedAlarm × ℕ)
    : Type 0 where
  other : same_actor c.0.actor actor ≡ false → Earlier actor sets alarm c
  older : c.0.revision < alarm.revision → Earlier actor sets alarm c
  ended :
      (t : ℕ)
      → c.0.revision ≡ alarm.revision
      → last_set actor sets ≡ some (some t)
      → t ≤ c.1
      → alarm.timestamp_ms ≡ none
      → Earlier actor sets alarm c
  queued :
      (t q : ℕ)
      → c.0.revision ≡ alarm.revision
      → last_set actor sets ≡ some (some t)
      → t ≤ c.1
      → alarm.queued_at_ms ≡ some q
      → c.1 ≤ q
      → Earlier actor sets alarm c

-- The alarm is as it was set, or it was claimed when it was due and finished.
pub data Stands (actor : ActorKey) (sets : Sets) (log : ClaimLog) (alarm : MemoryAlarm)
    : Type 0 where
  is_set : last_set actor sets ≡ some alarm.timestamp_ms → Stands actor sets log alarm
  delivered :
      (t at : ℕ)
      → last_set actor sets ≡ some (some t)
      → t ≤ at
      → Memᴰ (record { actor = actor; revision = alarm.revision }, at) log
      → alarm.timestamp_ms ≡ none
      → Stands actor sets log alarm

abbrev pub Fits : ActorKey → Sets → ClaimLog → Option MemoryAlarm → Type 0
Fits actor sets log none =
    (count_sets actor sets ≡ 0)
    × (last_set actor sets ≡ none)
    × All (λ c. same_actor c.0.actor actor ≡ false) log
Fits actor sets log (some alarm) =
    (alarm.revision ≡ count_sets actor sets)
    × Stands actor sets log alarm
    × All (Earlier actor sets alarm) log

abbrev pub ApartFrom : ClaimedAlarm → ℕ → ClaimedAlarm × ℕ → Type 0
ApartFrom claimed now c =
    (same_actor c.0.actor claimed.actor ≡ false)
    ⊎ (c.0.revision < claimed.revision)
    ⊎ (c.1 + queued_timeout_ms ≤ now)

-- Claims of one revision of an alarm are apart by the timeout.
abbrev pub Apart : ClaimLog → Type 0
Apart [] = Unit {0}
Apart ((claimed, now) ∷ log) = All (ApartFrom claimed now) log × Apart log

pub record Good (sets : Sets) (log : ClaimLog) (alarms : Alarms) : Type 0 where
  pub unique : Unique alarms
  pub fits : (actor : ActorKey) → Fits actor sets log (get actor alarms)
  pub apart : Apart log
