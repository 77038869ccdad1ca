-- ===== src/Lifecycle/Residency/Events.antt =====
-- The events of one actor in order, and the periods that src/actor_lifecycle/residency.rs makes of them.
use text.Mathlib.Text.{◌==◌ as str_eq}
use durable_actors.Prelude.{
  ℕ, ◌≤◌, ◌<◌, ◌≡◌, refl, ap, ◌∙◌, String, Bool, true, false, ◌&&◌, List, [], ◌∷◌, Option, some,
  arith, ltb, leb, if◌then◌else◌, min, max,
}
use durable_actors.Prelude.Words.{u64_mod}
use durable_actors.Lifecycle.{LifecycleEvent, ActorResidency}
use durable_actors.Lifecycle.Residency.{
  ResidencyPeriod, push_event, push_events, retain_ordered, ordered, dedup, sort_onto,
}
use durable_actors.Lifecycle.Residency.Periods.{
  lookup, Ended, weaken-Ended, status_then, push_event-lookup, push_event-Ended,
}

abbrev pub InOrder : ℕ → List LifecycleEvent → Type 0
InOrder latest [] = Unit {0}
InOrder latest (e ∷ events) =
    (latest ≤ e.report.occurred_at_ms) × InOrder e.report.occurred_at_ms events

InOrder-earlier :
    (a b : ℕ) (events : List LifecycleEvent) → a ≤ b → InOrder b events → InOrder a events
InOrder-earlier a b [] le order = tt
InOrder-earlier a b (e ∷ events) le order = (omega (arith, le, order.0), order.1)

retain_ordered-InOrder :
    (latest : ℕ) (events : List LifecycleEvent) → InOrder latest (retain_ordered latest events)
retain_ordered-InOrder latest [] = tt
retain_ordered-InOrder latest (e ∷ events) =
    go (leb latest e.report.occurred_at_ms) refl
      (retain_ordered-InOrder (max latest e.report.occurred_at_ms) events)
  where
    go :
        (later : Bool)
        → leb latest e.report.occurred_at_ms ≡ later
        → InOrder
            (max latest e.report.occurred_at_ms)
            (retain_ordered (max latest e.report.occurred_at_ms) events)
        → InOrder latest (
            if later
            then e ∷ retain_ordered (max latest e.report.occurred_at_ms) events
            else retain_ordered (max latest e.report.occurred_at_ms) events)
    go true h order = (
      ground (arith, h),
      InOrder-earlier _ (max latest e.report.occurred_at_ms) _ (ground (arith, h)) order,
    )
    go false h order =
        InOrder-earlier latest (max latest e.report.occurred_at_ms) _ (omega arith) order

pub ordered-InOrder : (events : List LifecycleEvent) → InOrder 0 (ordered events)
unfolding ordered
ordered-InOrder events = retain_ordered-InOrder 0 (dedup (sort_onto [] events))

-- The status at a time, after all events that occurred by then, in order; `found` if there is none.
abbrev pub status_at : Option ActorResidency → List LifecycleEvent → ℕ → Option ActorResidency
status_at found [] t = found
status_at found (e ∷ events) t =
    let later = status_at (some (status_then e t)) events t in
    if leb e.report.occurred_at_ms t then later else found

-- The two ways to read two events in a row.
two_events :
    (same : Bool) (from to a b t : ℕ) (x tail : Option ActorResidency) (y : Option ActorResidency)
    → from ≤ t
    → t < to
    → a ≤ b
    → (let first = if same && (leb (max a from) t && ltb t (min b to)) then x else tail in
        if same then if leb b t then y else first else first)
      ≡ (if same then if leb a t then if leb b t then y else x else tail else tail)
two_events false from to a b t x tail y after before order = refl
two_events true from to a b t x tail y after before order = ground arith

one_event :
    (same : Bool) (from to a t : ℕ) (x tail : Option ActorResidency)
    → from ≤ t
    → t < to
    → (if same && (leb (max a from) t && ltb t to) then x else tail)
      ≡ (if same then if leb a t then x else tail else tail)
one_event false from to a t x tail after before = refl
one_event true from to a t x tail after before = ground arith

abbrev pub StartsBy : String → ℕ → List LifecycleEvent → List ResidencyPeriod → Type 0
StartsBy id from [] periods = Unit {0}
StartsBy id from (e ∷ events) periods = Ended id (max e.report.occurred_at_ms from) periods

pub push_events-lookup :
    (id : String) (from to : ℕ) (events : List LifecycleEvent) (periods : List ResidencyPeriod)
    (other : String) (t latest : ℕ)
    → to < u64_mod
    → from ≤ t
    → t < to
    → InOrder latest events
    → StartsBy id from events periods
    → lookup (push_events id from to events periods) other t ≡ (
        if str_eq id other
        then status_at (lookup periods other t) events t
        else lookup periods other t)
unfolding push_events
push_events-lookup id from to [] periods other t latest fits after before order starts =
    ground arith
push_events-lookup id from to (e ∷ []) periods other t latest fits after before order starts =
    push_event-lookup id from to e periods other t fits starts
    ∙ one_event (str_eq id other) from to e.report.occurred_at_ms t _ (lookup periods other t) after
        before
push_events-lookup id from to (e ∷ f ∷ events) periods other t latest fits after before order
      starts =
    let end = min f.report.occurred_at_ms to in
    let starts' =
      push_event-Ended id from end e periods id (max f.report.occurred_at_ms from)
        (λ h. omega arith)
        (weaken-Ended id (max e.report.occurred_at_ms from) (max f.report.occurred_at_ms from)
          periods (omega (arith, order.1.0)) starts) in
    push_events-lookup id from to (f ∷ events) (push_event id from end e periods) other t
      e.report.occurred_at_ms fits after before order.1 starts'
    ∙ ap (λ first. if str_eq id other then status_at first (f ∷ events) t else first)
        (push_event-lookup id from end e periods other t (omega (arith, fits)) starts)
    ∙ two_events (str_eq id other) from to e.report.occurred_at_ms f.report.occurred_at_ms t
        (some (status_then e t)) (lookup periods other t)
        (status_at (some (status_then f t)) events t) after before order.1.0

-- The periods of one actor do not touch the others.
pub push_events-Ended :
    (id : String) (from to : ℕ) (events : List LifecycleEvent) (periods : List ResidencyPeriod)
    (other : String) (bound : ℕ)
    → str_eq id other ≡ false
    → Ended other bound periods
    → Ended other bound (push_events id from to events periods)
unfolding push_events
push_events-Ended id from to [] periods other bound differ ended = ended
push_events-Ended id from to (e ∷ []) periods other bound differ ended =
    push_event-Ended id from to e periods other bound (λ h. cc) ended
push_events-Ended id from to (e ∷ f ∷ events) periods other bound differ ended =
    push_events-Ended id from to (f ∷ events)
      (push_event id from (min f.report.occurred_at_ms to) e periods) other bound differ
      (push_event-Ended id from (min f.report.occurred_at_ms to) e periods other bound (λ h. cc)
        ended)
