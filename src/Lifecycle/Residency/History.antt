-- ===== src/Lifecycle/Residency/History.antt =====
-- The whole history of src/actor_lifecycle/residency.rs, read at any time.
use mathlib.Core.List.{reverse, reverse-reverse}
use text.Mathlib.Text.{◌==◌ as str_eq}
use durable_actors.Prelude.{
  ℕ, ◌≤◌, ◌<◌, ◌≡◌, refl, ap, ◌∙◌, String, List, [], ◌∷◌, none, arith, take, max, Bool-cases, inl,
  inr,
}
use durable_actors.Prelude.Words.{u64_mod}
use durable_actors.Ownership.Types.{str_eq→eq}
use durable_actors.Lifecycle.{LifecycleEvent}
use durable_actors.Lifecycle.Residency.{
  ResidencyPeriod, Instances, group_onto, push_events, push_instances, history, ordered,
  event_limit,
}
use durable_actors.Lifecycle.Residency.Periods.{lookup, Ended, weaken-Ended}
use durable_actors.Lifecycle.Residency.Events.{
  StartsBy, ordered-InOrder, status_at, push_events-lookup, push_events-Ended,
}
use durable_actors.Lifecycle.Residency.Groups.{
  Fresh, Distinct, events_of, of_actor, str_eq_sym, events_of-Fresh, group_onto-events_of,
  group_onto-Distinct,
}

-- None of these actors has a period yet.
abbrev Unstarted : Instances → List ResidencyPeriod → Type 0
Unstarted [] periods = Unit {0}
Unstarted ((id, events) ∷ instances) periods = Ended id 0 periods × Unstarted instances periods

StartsBy-Ended :
    (id : String) (from : ℕ) (events : List LifecycleEvent) (periods : List ResidencyPeriod)
    → Ended id 0 periods
    → StartsBy id from events periods
StartsBy-Ended id from [] periods ended = tt
StartsBy-Ended id from (e ∷ events) periods ended =
    weaken-Ended id 0 (max e.report.occurred_at_ms from) periods (omega arith) ended

Unstarted-push_events :
    (id : String) (from to : ℕ) (events : List LifecycleEvent) (instances : Instances)
    (periods : List ResidencyPeriod)
    → Fresh id instances
    → Unstarted instances periods
    → Unstarted instances (push_events id from to events periods)
Unstarted-push_events id from to events [] periods fresh unstarted = tt
Unstarted-push_events id from to events ((key, es) ∷ instances) periods fresh unstarted = (
  push_events-Ended id from to events periods key 0 (str_eq_sym key id fresh.0) unstarted.0,
  Unstarted-push_events id from to events instances periods fresh.1 unstarted.1,
)

push_instances-lookup :
    (from to : ℕ) (instances : Instances) (periods : List ResidencyPeriod) (other : String) (t : ℕ)
    → to < u64_mod
    → from ≤ t
    → t < to
    → Distinct instances
    → Unstarted instances periods
    → lookup (push_instances from to instances periods) other t
      ≡ status_at (lookup periods other t) (ordered (events_of other instances)) t
unfolding push_instances ordered
push_instances-lookup from to [] periods other t fits after before distinct unstarted = refl
push_instances-lookup from to ((id, events) ∷ instances) periods other t fits after before distinct
      unstarted =
    let pushed = push_events id from to (ordered events) periods in
    let here =
      push_events-lookup id from to (ordered events) periods other t 0 fits after before
        (ordered-InOrder events) (StartsBy-Ended id from (ordered events) periods unstarted.0) in
    push_instances-lookup from to instances pushed other t fits after before distinct.1
      (Unstarted-push_events id from to (ordered events) instances periods distinct.0 unstarted.1)
    ∙ ap (λ found. status_at found (ordered (events_of other instances)) t) here
    ∙ elim (Bool-cases (str_eq id other)) [
      | inl same ↦
          let fresh : Fresh other instances = rw (str_eq→eq id other same) at distinct.0 in
          let absent = events_of-Fresh other instances fresh in rw (same, absent) refl
      | inr differ ↦ rw differ refl
    ]

-- The history of a window, read at a time in it: the last period that covers the time has the status that
-- the actor's own events give, in the order of epoch and sequence and without those that are out of
-- time; and no period covers it where there is no such event. That is the last event's by then, for 35 s
-- unless it is a stop. Of the events, the first 10 000 count.
pub history-status_at :
    (events : List LifecycleEvent) (from to : ℕ) (id : String) (t : ℕ)
    → to < u64_mod
    → from ≤ t
    → t < to
    → lookup (reverse (history events from to).periods) id t
      ≡ status_at none (ordered (of_actor id (take event_limit events))) t
unfolding history
history-status_at events from to id t fits after before =
    let instances = group_onto [] (take event_limit events) in
    ap (λ periods. lookup periods id t) (reverse-reverse (push_instances from to instances []))
    ∙ push_instances-lookup from to instances [] id t fits after before
        (group_onto-Distinct [] (take event_limit events) tt) (nothing instances)
    ∙ ap (λ es. status_at none (ordered es) t)
        (group_onto-events_of id [] (take event_limit events))
  where
    nothing : (instances : Instances) → Unstarted instances []
    nothing [] = tt
    nothing ((key, es) ∷ instances) = (tt, nothing instances)
