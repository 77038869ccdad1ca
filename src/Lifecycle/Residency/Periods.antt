-- ===== src/Lifecycle/Residency/Periods.antt =====
-- What one event adds to the periods of src/actor_lifecycle/residency.rs.
use text.Mathlib.Text.{◌==◌ as str_eq}
use durable_actors.Prelude.{
  ℕ, ◌+◌, ◌≤◌, ◌<◌, ◌≡◌, refl, sym, ap, ◌∙◌, String, Bool, true, false, ◌&&◌, List, [], ◌∷◌, Option,
  none, some, arith, ltb, leb, ◌==◌, if◌then◌else◌, All, min, max, Bool-cases, ==_iff, &&-both, inl,
  inr,
}
use durable_actors.Prelude.Words.{u64_mod, saturating_add}
use durable_actors.Ownership.Types.{str_eq→eq}
use durable_actors.Lifecycle.{
  LifecycleEvent, ActorResidency, live, dormant, unknown, stale_after_ms, is_stopped, of_resident,
}
use durable_actors.Lifecycle.Residency.{
  ResidencyPeriod, same_status, extend, push, status_of, known_until, push_event,
}

abbrev pub covers : ResidencyPeriod → String → ℕ → Bool
covers p id t = str_eq p.actor_id id && (leb p.from_ms t && ltb t p.to_ms)

-- The status of an actor at a time, by the first period of the list that covers it.
abbrev pub lookup : List ResidencyPeriod → String → ℕ → Option ActorResidency
lookup [] id t = none
lookup (p ∷ periods) id t = if covers p id t then some p.status else lookup periods id t

-- No period is empty, and those of the actor end by `bound`.
abbrev pub EndsBy : String → ℕ → ResidencyPeriod → Type 0
EndsBy id bound p = (p.from_ms < p.to_ms) × (str_eq p.actor_id id ≡ true → p.to_ms ≤ bound)

abbrev pub Ended : String → ℕ → List ResidencyPeriod → Type 0
Ended id bound = All (EndsBy id bound)

same_status-eq : (a b : ActorResidency) → same_status a b ≡ true → a ≡ b
same_status-eq live live h = refl
same_status-eq live dormant h = cc
same_status-eq live unknown h = cc
same_status-eq dormant live h = cc
same_status-eq dormant dormant h = refl
same_status-eq dormant unknown h = cc
same_status-eq unknown live h = cc
same_status-eq unknown dormant h = cc
same_status-eq unknown unknown h = refl

-- Two spans that meet cover what their union covers.
join_spans :
    (same : Bool) (a b c t : ℕ) {A : Type 0} (x y : A)
    → a < b
    → b < c
    → (if same && (leb a t && ltb t c) then x else y)
      ≡ (if same && (leb b t && ltb t c) then x else if same && (leb a t && ltb t b) then x else y)
join_spans true a b c t x y ab bc = ground arith
join_spans false a b c t x y ab bc = refl

extend-lookup :
    (periods : List ResidencyPeriod) (new : ResidencyPeriod) (id : String) (t : ℕ)
    → new.from_ms < new.to_ms
    → Ended new.actor_id new.from_ms periods
    → lookup (extend periods new) id t
      ≡ (if covers new id t then some new.status else lookup periods id t)
extend-lookup [] new id t some_time ended = refl
extend-lookup (p ∷ periods) new id t some_time ended =
    go (str_eq p.actor_id new.actor_id && same_status p.status new.status && p.to_ms == new.from_ms)
      refl
  where
    go :
        (joins : Bool)
        → (str_eq p.actor_id new.actor_id
            && same_status p.status new.status
            && p.to_ms == new.from_ms)
          ≡ joins
        → lookup
            (if joins then record p { to_ms = new.to_ms } ∷ periods else new ∷ p ∷ periods)
            id
            t
          ≡ (if covers new id t then some new.status else lookup (p ∷ periods) id t)
    go false e = refl
    go true e =
        let (e', meets) = &&-both _ _ e in
        let (same_id, same) = &&-both _ _ e' in
        let meet : p.to_ms ≡ new.from_ms = (==_iff p.to_ms new.from_ms).0 meets in
        rw
          (
            sym (str_eq→eq p.actor_id new.actor_id same_id),
            sym (same_status-eq p.status new.status same),
            sym meet,
          )
          (join_spans (str_eq p.actor_id id) p.from_ms p.to_ms new.to_ms t (some p.status)
            (lookup periods id t) ended.0.0 (omega (arith, meet, some_time)))

-- An empty span covers nothing.
empty-covers :
    (same : Bool) (from to t : ℕ) → leb to from ≡ true → (same && (leb from t && ltb t to)) ≡ false
empty-covers true from to t h = ground arith
empty-covers false from to t h = refl

pub push-lookup :
    (periods : List ResidencyPeriod) (new : ResidencyPeriod) (id : String) (t : ℕ)
    → Ended new.actor_id new.from_ms periods
    → lookup (push periods new) id t
      ≡ (if covers new id t then some new.status else lookup periods id t)
unfolding push
push-lookup periods new id t ended = elim (Bool-cases (leb new.to_ms new.from_ms)) [
  | inl e ↦ rw (e, empty-covers (str_eq new.actor_id id) new.from_ms new.to_ms t e) refl
  | inr e ↦ rw e (extend-lookup periods new id t (ground (arith, e)) ended)
]

pub weaken-Ended :
    (id : String) (bound bound' : ℕ) (periods : List ResidencyPeriod)
    → bound ≤ bound'
    → Ended id bound periods
    → Ended id bound' periods
weaken-Ended id bound bound' [] later ended = tt
weaken-Ended id bound bound' (p ∷ periods) later ended = (
  (ended.0.0, λ h. omega (arith, later, ended.0.1 h)),
  weaken-Ended id bound bound' periods later ended.1,
)

-- Of another actor, a new period changes no bound.
extend-Ended :
    (periods : List ResidencyPeriod) (new : ResidencyPeriod) (id : String) (bound : ℕ)
    → new.from_ms < new.to_ms
    → (str_eq new.actor_id id ≡ true → new.to_ms ≤ bound)
    → Ended id bound periods
    → Ended id bound (extend periods new)
extend-Ended [] new id bound some_time ends ended = ((some_time, ends), tt)
extend-Ended (p ∷ periods) new id bound some_time ends ended =
    go (str_eq p.actor_id new.actor_id && same_status p.status new.status && p.to_ms == new.from_ms)
      refl
  where
    go :
        (joins : Bool)
        → (str_eq p.actor_id new.actor_id
            && same_status p.status new.status
            && p.to_ms == new.from_ms)
          ≡ joins
        → Ended id bound
            (if joins then record p { to_ms = new.to_ms } ∷ periods else new ∷ p ∷ periods)
    go false e = ((some_time, ends), ended)
    go true e =
        let (e', meets) = &&-both _ _ e in
        let (same_id, same) = &&-both _ _ e' in
        let meet = (==_iff p.to_ms new.from_ms).0 meets in
        let own : new.actor_id ≡ p.actor_id = sym (str_eq→eq p.actor_id new.actor_id same_id) in
        ((omega (arith, meet, ended.0.0, some_time), λ h. ends (rw own h)), ended.1)

pub push-Ended :
    (periods : List ResidencyPeriod) (new : ResidencyPeriod) (id : String) (bound : ℕ)
    → (str_eq new.actor_id id ≡ true → new.to_ms ≤ bound)
    → Ended id bound periods
    → Ended id bound (push periods new)
unfolding push
push-Ended periods new id bound ends ended = go (leb new.to_ms new.from_ms) refl
  where
    go :
        (empty : Bool)
        → leb new.to_ms new.from_ms ≡ empty
        → Ended id bound (if empty then periods else extend periods new)
    go true e = ended
    go false e = extend-Ended periods new id bound (ground (arith, e)) ends ended

-- The status at a time from an event on, if no other follows it: what is known for 35 s, unless it is
-- a stop.
abbrev pub status_then : LifecycleEvent → ℕ → ActorResidency
status_then event t =
    if is_stopped event.report.kind
    then dormant
    else if ltb t (event.report.occurred_at_ms + stale_after_ms)
    then of_resident event.report.resident
    else unknown

-- The two spans of an event, as one.
event_spans :
    (same is_stop : Bool) (known : ActorResidency) (start occurred end t : ℕ)
    (tail : Option ActorResidency)
    → occurred ≤ start
    → end < u64_mod
    → (let until = if is_stop then end else min (saturating_add occurred stale_after_ms) end in
        if same && (leb (max start until) t && ltb t end)
        then some unknown
        else if same && (leb start t && ltb t until)
        then some (if is_stop then dormant else known)
        else tail)
      ≡ (if same && (leb start t && ltb t end)
          then some (
              if is_stop
              then dormant
              else if ltb t (occurred + stale_after_ms)
              then known
              else unknown)
          else tail)
event_spans false is_stop known start occurred end t tail after fits = refl
event_spans true true known start occurred end t tail after fits = ground arith
event_spans true false known start occurred end t tail after fits = ground arith

pub push_event-lookup :
    (id : String) (from end : ℕ) (event : LifecycleEvent) (periods : List ResidencyPeriod)
    (other : String) (t : ℕ)
    → end < u64_mod
    → Ended id (max event.report.occurred_at_ms from) periods
    → lookup (push_event id from end event periods) other t ≡ (
        if str_eq id other && (leb (max event.report.occurred_at_ms from) t && ltb t end)
        then some (status_then event t)
        else lookup periods other t)
unfolding push_event
push_event-lookup id from end event periods other t fits ended =
    let start = max event.report.occurred_at_ms from in
    let until = known_until event end in
    let known : ResidencyPeriod = record {
      actor_id = id;
      status = status_of event;
      from_ms = start;
      to_ms = until;
    } in
    let rest : ResidencyPeriod = record {
      actor_id = id;
      status = unknown;
      from_ms = max start until;
      to_ms = end;
    } in
    let first = push-lookup periods known other t ended in
    let ended' =
      push-Ended periods known id (max start until) (λ h. omega arith)
        (weaken-Ended id start (max start until) periods (omega arith) ended) in
    push-lookup (push periods known) rest other t ended'
    ∙ ap (λ earlier. if covers rest other t then some unknown else earlier) first
    ∙ event_spans (str_eq id other) (is_stopped event.report.kind)
        (of_resident event.report.resident) start event.report.occurred_at_ms end t
        (lookup periods other t) (omega arith) fits

pub push_event-Ended :
    (id : String) (from end : ℕ) (event : LifecycleEvent) (periods : List ResidencyPeriod)
    (other : String) (bound : ℕ)
    → (str_eq id other ≡ true → end ≤ bound)
    → Ended other bound periods
    → Ended other bound (push_event id from end event periods)
unfolding push_event
push_event-Ended id from end event periods other bound ends ended =
    push-Ended (push periods _) _ other bound ends
      (push-Ended periods _ other bound (λ h. ground (arith, ends h)) ended)
