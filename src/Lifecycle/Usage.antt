-- ===== src/Lifecycle/Usage.antt =====
-- src/actor_lifecycle.rs and src/actor_lifecycle/reconciliation.rs: what the store keeps of the reports, and
-- the updates that it publishes about the sessions that are billed. The memory stores are modelled, as
-- association lists; their limits of size and age are left out.
pub mod Laws
use text.Mathlib.Text.{◌==◌ as str_eq}
use Prim.Native.String.{◌++◌ as append}
use durable_actors.Prelude.{
  ℕ, zero, suc, ◌+◌, ◌-◌, ◌*◌, ◌^◌, String, Bool, true, false, not, ◌&&◌, ◌||◌, List, [], ◌∷◌,
  Option, none, some, ltb, leb, ◌==◌, if◌then◌else◌, Result, ok, err, out_of_fuel, ◌>>=◌, ◌>>◌,
  ensure,
}
use durable_actors.Ownership.Types.{ActorKey, same_actor}
use durable_actors.Lifecycle.{
  LifecycleKind, started, heartbeat, draining, stopped, is_stopped, LifecycleReport, LifecycleEvent,
  stale_after_ms,
}

pub record UsageUpdate : Type 0 where
  pub usage_id : String
  pub revision : ℕ
  pub ended_at_ms : Option ℕ
  pub estimated : Bool
  pub event : LifecycleEvent

-- What the key of a session is the JSON text of.
pub record SessionKey : Type 0 where
  pub actor : ActorKey
  pub host_id : String
  pub session_id : String
  pub owner_epoch : ℕ

abbrev pub session_key : LifecycleEvent → SessionKey
session_key event = record {
  actor = event.actor;
  host_id = event.host_id;
  session_id = event.session_id;
  owner_epoch = event.report.owner_epoch;
}

abbrev pub same_session_key : SessionKey → SessionKey → Bool
same_session_key a b =
    same_actor a.actor b.actor
    && str_eq a.host_id b.host_id
    && str_eq a.session_id b.session_id
    && a.owner_epoch == b.owner_epoch

abbrev pub update_of : LifecycleEvent → UsageUpdate
update_of event = record {
  usage_id = append event.host_id (append ":" event.session_id);
  revision = event.report.sequence * 2;
  ended_at_ms = if is_stopped event.report.kind then some event.report.occurred_at_ms else none;
  estimated = false;
  event = event;
}

abbrev pub as_stopped : LifecycleEvent → ℕ → LifecycleEvent
as_stopped event now = record event {
  event_id = append event.event_id ":estimated";
  received_at_ms = now;
  report = record event.report { kind = stopped; resident = none };
}

abbrev pub estimated_stop : LifecycleEvent → ℕ → UsageUpdate
estimated_stop event now =
    let update = update_of (as_stopped event now) in
    record update { revision = update.revision + 1; estimated = true }

pub record UsageSession : Type 0 where
  pub event : LifecycleEvent
  pub estimated : Bool

abbrev pub UsageSessions : Type 0
UsageSessions = List (SessionKey × UsageSession)

abbrev pub find_session : SessionKey → UsageSessions → Option UsageSession
find_session key [] = none
find_session key ((k, s) ∷ sessions) =
    if same_session_key k key then some s else find_session key sessions

abbrev pub insert_session : SessionKey → UsageSession → UsageSessions → UsageSessions
insert_session key new [] = (key, new) ∷ []
insert_session key new ((k, s) ∷ sessions) =
    let rest = insert_session key new sessions in
    if same_session_key k key then (k, new) ∷ sessions else (k, s) ∷ rest

abbrev pub is_settled : Option UsageSession → LifecycleEvent → Bool
is_settled none event = false
is_settled (some previous) event =
    leb event.report.sequence previous.event.report.sequence
    || is_stopped previous.event.report.kind

abbrev pub was_estimated : Option UsageSession → Bool
was_estimated none = false
was_estimated (some previous) = previous.estimated

abbrev pub observe_after :
    Option UsageSession → UsageSessions → LifecycleEvent → Bool × UsageSessions
observe_after previous sessions event = if is_settled previous event then (false, sessions) else (
  was_estimated previous,
  insert_session (session_key event) (record { event = event; estimated = false }) sessions,
)

-- `observe`: whether the report corrects an estimated stop.
unfoldable pub observe : UsageSessions → LifecycleEvent → Bool × UsageSessions
observe sessions event = observe_after (find_session (session_key event) sessions) sessions event

abbrev pub batch_size : ℕ
batch_size = 128

abbrev pub is_due : ℕ → UsageSession → Bool
is_due now s =
    not s.estimated
    && not (is_stopped s.event.report.kind)
    && leb stale_after_ms (now - s.event.received_at_ms)

-- The loop of `expire`, with room for so many events.
unfoldable pub expire_from : ℕ → ℕ → UsageSessions → List LifecycleEvent × UsageSessions
expire_from room now [] = ([], [])
expire_from zero now (entry ∷ sessions) = ([], entry ∷ sessions)
expire_from (suc room) now ((key, s) ∷ sessions) =
    let taken = expire_from room now sessions in
    let passed = expire_from (suc room) now sessions in
    if is_due now s
    then (s.event ∷ taken.0, (key, record s { estimated = true }) ∷ taken.1)
    else (passed.0, (key, s) ∷ passed.1)

unfoldable pub expire : ℕ → UsageSessions → List LifecycleEvent × UsageSessions
expire now sessions = expire_from batch_size now sessions

abbrev pub is_boundary : LifecycleKind → Bool
is_boundary started = true
is_boundary stopped = true
is_boundary heartbeat = false
is_boundary draining = false

-- `record_usage`, with what it publishes.
unfoldable pub record_usage : UsageSessions → LifecycleEvent → List UsageUpdate × UsageSessions
record_usage sessions event =
    let (corrects, observed) = observe sessions event in
    (if is_boundary event.report.kind || corrects then update_of event ∷ [] else [], observed)

abbrev pub estimated_stops : ℕ → List LifecycleEvent → List UsageUpdate
estimated_stops now [] = []
estimated_stops now (e ∷ events) = estimated_stop e now ∷ estimated_stops now events

-- `reconcile`, with what it publishes.
unfoldable pub reconcile : ℕ → UsageSessions → List UsageUpdate × UsageSessions
reconcile now sessions =
    let (expired, marked) = expire now sessions in (estimated_stops now expired, marked)

-- The checks of the store's `record`.
unfoldable pub check_event : LifecycleEvent → Result (Unit {0})
check_event event = do
  ensure (ltb 0 event.report.sequence && ltb event.report.sequence (2 ^ 52))
      "invalid lifecycle sequence"
  ensure (ltb 0 event.report.owner_epoch) "invalid ownership epoch"
  ensure (leb event.report.started_at_ms event.report.occurred_at_ms) "invalid lifecycle time range"

abbrev pub not_newer : LifecycleEvent → LifecycleEvent → Bool
not_newer previous event =
    ltb event.report.owner_epoch previous.report.owner_epoch
    || (event.report.owner_epoch == previous.report.owner_epoch
        && leb event.report.sequence previous.report.sequence)

-- The latest event of an actor, after one more: the memory store's `record`.
unfoldable pub keep_latest : Option LifecycleEvent → LifecycleEvent → Option LifecycleEvent
keep_latest none event = some event
keep_latest (some previous) event = if not_newer previous event then some previous else some event

unfoldable pub keep_all : Option LifecycleEvent → List LifecycleEvent → Option LifecycleEvent
keep_all latest [] = latest
keep_all latest (e ∷ events) = keep_all (keep_latest latest e) events
