-- ===== src/Lifecycle/Residency.antt =====
-- src/actor_lifecycle/residency.rs: the periods in which actors were live or dormant, out of the reports.
-- The periods are kept newest first while they are collected, since only the last one is changed.
pub mod Periods
pub mod Events
pub mod Groups
pub mod History
use Prim.Native.String.{compare}
use Prim.Native.Nat.{Ordering}
use mathlib.Core.List.{reverse}
use text.Mathlib.Text.{◌==◌ as str_eq}
use durable_actors.Prelude.{
  ℕ, ◌+◌, String, Bool, true, false, ◌&&◌, ◌||◌, List, [], ◌∷◌, ◌++◌, Option, none, some, ltb, leb,
  ◌==◌, if◌then◌else◌, length, take, min, max,
}
use durable_actors.Prelude.Words.{saturating_add}
use durable_actors.Lifecycle.{
  LifecycleKind, stopped, is_stopped, LifecycleEvent, ActorResidency, live, dormant, unknown,
  stale_after_ms, of_resident,
}

abbrev pub event_limit : ℕ
event_limit = 10_000

pub record ResidencyPeriod : Type 0 where
  pub actor_id : String
  pub status : ActorResidency
  pub from_ms : ℕ
  pub to_ms : ℕ

pub record ResidencyHistory : Type 0 where
  pub periods : List ResidencyPeriod
  pub truncated : Bool

abbrev pub same_status : ActorResidency → ActorResidency → Bool
same_status live live = true
same_status dormant dormant = true
same_status unknown unknown = true
same_status a b = false

-- The last period goes on, or a new one begins.
abbrev pub extend : List ResidencyPeriod → ResidencyPeriod → List ResidencyPeriod
extend [] new = new ∷ []
extend (p ∷ periods) new =
    if str_eq p.actor_id new.actor_id && same_status p.status new.status && p.to_ms == new.from_ms
    then record p { to_ms = new.to_ms } ∷ periods
    else new ∷ p ∷ periods

unfoldable pub push : List ResidencyPeriod → ResidencyPeriod → List ResidencyPeriod
push periods new = if leb new.to_ms new.from_ms then periods else extend periods new

-- The order of `(owner_epoch, sequence)`.
abbrev pub before : LifecycleEvent → LifecycleEvent → Bool
before a b =
    ltb a.report.owner_epoch b.report.owner_epoch
    || (a.report.owner_epoch == b.report.owner_epoch && ltb a.report.sequence b.report.sequence)

abbrev pub same_key : LifecycleEvent → LifecycleEvent → Bool
same_key a b =
    a.report.owner_epoch == b.report.owner_epoch && a.report.sequence == b.report.sequence

-- A stable sort: an event goes behind those of its own key.
abbrev pub insert_sorted : LifecycleEvent → List LifecycleEvent → List LifecycleEvent
insert_sorted event [] = event ∷ []
insert_sorted event (e ∷ events) =
    let rest = insert_sorted event events in if before event e then event ∷ e ∷ events else e ∷ rest

abbrev pub sort_onto : List LifecycleEvent → List LifecycleEvent → List LifecycleEvent
sort_onto sorted [] = sorted
sort_onto sorted (e ∷ events) = sort_onto (insert_sorted e sorted) events

-- `dedup_by_key`: of events in a row with one key, the first stays.
abbrev pub dedup_after : LifecycleEvent → List LifecycleEvent → List LifecycleEvent
dedup_after kept [] = []
dedup_after kept (e ∷ events) =
    let dropped = dedup_after kept events in
    let rest = dedup_after e events in if same_key kept e then dropped else e ∷ rest

abbrev pub dedup : List LifecycleEvent → List LifecycleEvent
dedup [] = []
dedup (e ∷ events) = e ∷ dedup_after e events

-- `retain`: an event that is older than one before it is dropped.
abbrev pub retain_ordered : ℕ → List LifecycleEvent → List LifecycleEvent
retain_ordered latest [] = []
retain_ordered latest (e ∷ events) =
    let rest = retain_ordered (max latest e.report.occurred_at_ms) events in
    if leb latest e.report.occurred_at_ms then e ∷ rest else rest

unfoldable pub ordered : List LifecycleEvent → List LifecycleEvent
ordered events = retain_ordered 0 (dedup (sort_onto [] events))

abbrev pub status_of : LifecycleEvent → ActorResidency
status_of event =
    if is_stopped event.report.kind then dormant else of_resident event.report.resident

abbrev pub known_until : LifecycleEvent → ℕ → ℕ
known_until event end =
    if is_stopped event.report.kind
    then end
    else min (saturating_add event.report.occurred_at_ms stale_after_ms) end

-- One event, up to the next one or the end of the window.
unfoldable pub push_event :
    String → ℕ → ℕ → LifecycleEvent → List ResidencyPeriod → List ResidencyPeriod
push_event id from end event periods =
    let start = max event.report.occurred_at_ms from in
    let until = known_until event end in
    push
      (push periods
        (record { actor_id = id; status = status_of event; from_ms = start; to_ms = until }))
      (record { actor_id = id; status = unknown; from_ms = max start until; to_ms = end })

unfoldable pub push_events :
    String → ℕ → ℕ → List LifecycleEvent → List ResidencyPeriod → List ResidencyPeriod
push_events id from to [] periods = periods
push_events id from to (e ∷ []) periods = push_event id from to e periods
push_events id from to (e ∷ f ∷ events) periods =
    push_events id from to (f ∷ events)
      (push_event id from (min f.report.occurred_at_ms to) e periods)

-- The map from actor IDs to events, in the order of the IDs.
abbrev pub Instances : Type 0
Instances = List (String × List LifecycleEvent)

abbrev pub has_id : String → Instances → Bool
has_id id [] = false
has_id id ((key, events) ∷ instances) = str_eq key id || has_id id instances

abbrev pub add_to : String → LifecycleEvent → Instances → Instances
add_to id event [] = []
add_to id event ((key, events) ∷ instances) =
    (key, if str_eq key id then events ++ event ∷ [] else events) ∷ add_to id event instances

abbrev pub add_new : String → LifecycleEvent → Instances → Instances
add_new id event [] = (id, event ∷ []) ∷ []
add_new id event ((key, events) ∷ instances) =
    let rest = add_new id event instances in
    elim (compare id key) [
      | Ordering.lt ↦ (id, event ∷ []) ∷ (key, events) ∷ instances
      | _ ↦ (key, events) ∷ rest
    ]

unfoldable pub group_onto : Instances → List LifecycleEvent → Instances
group_onto instances [] = instances
group_onto instances (e ∷ events) =
    let id = e.actor.actor_id in
    group_onto (if has_id id instances then add_to id e instances else add_new id e instances)
      events

unfoldable pub push_instances : ℕ → ℕ → Instances → List ResidencyPeriod → List ResidencyPeriod
push_instances from to [] periods = periods
push_instances from to ((id, events) ∷ instances) periods =
    push_instances from to instances (push_events id from to (ordered events) periods)

unfoldable pub history : List LifecycleEvent → ℕ → ℕ → ResidencyHistory
history events from to =
    let instances = group_onto [] (take event_limit events) in
    record {
      periods = reverse (push_instances from to instances []);
      truncated = ltb event_limit (length events);
    }
