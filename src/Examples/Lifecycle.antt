-- ===== src/Examples/Lifecycle.antt =====
-- Reports of one actor: src/actor_lifecycle.rs. It starts, and stops four seconds later; the reports
-- come in the wrong order.
use mathlib.Core.List.{reverse, Memᴰ}
use durable_actors.Prelude.{
  ℕ, ◌<◌, ◌≡◌, refl, String, Bool, true, false, List, [], ◌∷◌, Option, none, some, arith, take, All,
}
use durable_actors.Lifecycle.{
  LifecycleKind, started, heartbeat, stopped, is_stopped, LifecycleEvent, live,
}
use durable_actors.Lifecycle.Residency.{
  history, ordered, event_limit, push, push_event, push_events, push_instances, group_onto,
}
use durable_actors.Lifecycle.Usage.{
  UsageSession, UsageSessions, expire, expire_from, observe, find_session, session_key,
  estimated_stop, update_of, keep_all,
}
use durable_actors.Lifecycle.Usage.Laws.{
  Expired, expire-Expired, observe_corrects, UpTo, keep_all_latest,
}
use durable_actors.Lifecycle.Residency.Periods.{lookup}
use durable_actors.Lifecycle.Residency.Events.{status_at}
use durable_actors.Lifecycle.Residency.Groups.{of_actor}
use durable_actors.Lifecycle.Residency.History.{history-status_at}

abbrev event : String → LifecycleKind → ℕ → ℕ → Option Bool → LifecycleEvent
event id kind sequence time resident = record {
  event_id = id;
  actor = record { project_id = "p"; actor_name = "counter"; actor_id = "1" };
  host_id = "a";
  session_id = "s";
  region = "eu";
  received_at_ms = time;
  report = record {
    kind = kind;
    owner_epoch = 1;
    sequence = sequence;
    started_at_ms = 1_000;
    occurred_at_ms = time;
    resident = resident;
  };
}

abbrev events : List LifecycleEvent
events = event "b" stopped 2 5_000 none ∷ event "a" started 1 1_000 (some true) ∷ []

history-status_at_example :
    lookup (reverse (history events 0 9_000).periods) "1" 3_000
    ≡ status_at none (ordered (of_actor "1" (take event_limit events))) 3_000
history-status_at_example =
    history-status_at events 0 9_000 "1" 3_000 (omega arith) (omega arith) (omega arith)

live_at_three_seconds : lookup (reverse (history events 0 9_000).periods) "1" 3_000 ≡ some live
unfolding history ordered push push_event push_events push_instances group_onto
live_at_three_seconds = refl

abbrev first_report : LifecycleEvent
first_report = event "a" started 1 1_000 (some true)

abbrev second_report : LifecycleEvent
second_report = event "c" heartbeat 2 50_000 (some true)

-- The host falls silent; at 40 s its session is given out as stopped.
abbrev silent : UsageSessions
silent = (session_key first_report, record { event = first_report; estimated = false }) ∷ []

abbrev given_out : UsageSessions
given_out = (session_key first_report, record { event = first_report; estimated = true }) ∷ []

expire-Expired_example : Expired 128 40_000 silent (expire 40_000 silent).0 (expire 40_000 silent).1
expire-Expired_example = expire-Expired 40_000 silent

expire-silent : expire 40_000 silent ≡ (first_report ∷ [], given_out)
unfolding expire expire_from
expire-silent = refl

corrected : (observe given_out second_report).0 ≡ true
unfolding observe
corrected = refl

observe_corrects_example :
    (previous : UsageSession) × (find_session (session_key second_report) given_out ≡ some previous)
    × (previous.estimated ≡ true)
    × (is_stopped previous.event.report.kind ≡ false)
    × ((now : ℕ)
        → (estimated_stop previous.event now).revision < (update_of second_report).revision)
observe_corrects_example = observe_corrects given_out second_report corrected

keep_all_latest_example :
    All (UpTo (keep_all none events)) events
    × ((kept : LifecycleEvent) → keep_all none events ≡ some kept → Memᴰ kept events)
keep_all_latest_example = keep_all_latest events
