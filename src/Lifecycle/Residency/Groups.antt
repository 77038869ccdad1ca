-- ===== src/Lifecycle/Residency/Groups.antt =====
-- The groups of src/actor_lifecycle/residency.rs: each actor's events in the order of the whole list.
use text.Mathlib.Text.{◌==◌ as str_eq}
use text.Mathlib.TextEquality.{eq_iff}
use Prim.Native.String.{compare}
use Prim.Native.Nat.{Ordering}
use durable_actors.Prelude.{
  ◌≡◌, refl, sym, ap, ◌∙◌, String, true, false, List, [], ◌∷◌, ◌++◌, arith, if◌then◌else◌,
  append_assoc, append-nil, Bool-cases, inl, inr,
}
use durable_actors.Ownership.Types.{str_eq→eq}
use durable_actors.Lifecycle.{LifecycleEvent}
use durable_actors.Lifecycle.Residency.{Instances, has_id, add_to, add_new, group_onto}

-- No instance has the ID; each instance has an ID of its own.
abbrev pub Fresh : String → Instances → Type 0
Fresh id [] = Unit {0}
Fresh id ((key, events) ∷ instances) = (str_eq key id ≡ false) × Fresh id instances

abbrev pub Distinct : Instances → Type 0
Distinct [] = Unit {0}
Distinct ((key, events) ∷ instances) = Fresh key instances × Distinct instances

abbrev pub events_of : String → Instances → List LifecycleEvent
events_of id [] = []
events_of id ((key, events) ∷ instances) = if str_eq key id then events else events_of id instances

-- The events of one actor.
abbrev pub of_actor : String → List LifecycleEvent → List LifecycleEvent
of_actor id [] = []
of_actor id (e ∷ events) =
    let rest = of_actor id events in if str_eq e.actor.actor_id id then e ∷ rest else rest

str_eq_refl : (a : String) → str_eq a a ≡ true
str_eq_refl a = (eq_iff a a).1 refl

pub str_eq_sym : (a b : String) → str_eq a b ≡ false → str_eq b a ≡ false
str_eq_sym a b h = elim (Bool-cases (str_eq b a)) [
  | inl e ↦ let same : b ≡ a = str_eq→eq b a e in absurd (differ a b h same)
  | inr e ↦ e
]
  where
    differ : (a b : String) → str_eq a b ≡ false → b ≡ a → ⊥
    differ a b h same = let h' : str_eq a a ≡ false = rw same at h in let t = str_eq_refl a in cc

Fresh-has_id :
    (id : String) (instances : Instances) → has_id id instances ≡ false → Fresh id instances
Fresh-has_id id [] h = tt
Fresh-has_id id ((key, events) ∷ instances) h =
    (ground arith, Fresh-has_id id instances (ground arith))

pub events_of-Fresh :
    (id : String) (instances : Instances) → Fresh id instances → events_of id instances ≡ []
events_of-Fresh id [] fresh = refl
events_of-Fresh id ((key, events) ∷ instances) fresh =
    rw fresh.0 (events_of-Fresh id instances fresh.1)

add_to-Fresh :
    (other id : String) (e : LifecycleEvent) (instances : Instances)
    → Fresh other instances
    → Fresh other (add_to id e instances)
add_to-Fresh other id e [] fresh = tt
add_to-Fresh other id e ((key, events) ∷ instances) fresh =
    (fresh.0, add_to-Fresh other id e instances fresh.1)

add_to-Distinct :
    (id : String) (e : LifecycleEvent) (instances : Instances)
    → Distinct instances
    → Distinct (add_to id e instances)
add_to-Distinct id e [] distinct = tt
add_to-Distinct id e ((key, events) ∷ instances) distinct =
    (add_to-Fresh key id e instances distinct.0, add_to-Distinct id e instances distinct.1)

add_new-Fresh :
    (other id : String) (e : LifecycleEvent) (instances : Instances)
    → str_eq id other ≡ false
    → Fresh other instances
    → Fresh other (add_new id e instances)
add_new-Fresh other id e [] differ fresh = (differ, tt)
add_new-Fresh other id e ((key, events) ∷ instances) differ fresh =
    go (compare id key) (add_new-Fresh other id e instances differ fresh.1)
  where
    go :
        (order : Ordering)
        → Fresh other (add_new id e instances)
        → Fresh other (elim order [
          | Ordering.lt ↦ (id, e ∷ []) ∷ (key, events) ∷ instances
          | _ ↦ (key, events) ∷ add_new id e instances
        ])
    go Ordering.lt rest = (differ, (fresh.0, fresh.1))
    go Ordering.eq rest = (fresh.0, rest)
    go Ordering.gt rest = (fresh.0, rest)

add_new-Distinct :
    (id : String) (e : LifecycleEvent) (instances : Instances)
    → Fresh id instances
    → Distinct instances
    → Distinct (add_new id e instances)
add_new-Distinct id e [] fresh distinct = (tt, tt)
add_new-Distinct id e ((key, events) ∷ instances) fresh distinct =
    go (compare id key) (add_new-Distinct id e instances fresh.1 distinct.1)
      (add_new-Fresh key id e instances (str_eq_sym key id fresh.0) distinct.0)
  where
    go :
        (order : Ordering)
        → Distinct (add_new id e instances)
        → Fresh key (add_new id e instances)
        → Distinct (elim order [
          | Ordering.lt ↦ (id, e ∷ []) ∷ (key, events) ∷ instances
          | _ ↦ (key, events) ∷ add_new id e instances
        ])
    go Ordering.lt rest other = (fresh, distinct)
    go Ordering.eq rest other = (other, rest)
    go Ordering.gt rest other = (other, rest)

add_to-own :
    (id : String) (e : LifecycleEvent) (instances : Instances)
    → has_id id instances ≡ true
    → events_of id (add_to id e instances) ≡ events_of id instances ++ e ∷ []
add_to-own id e [] h = cc
add_to-own id e ((key, events) ∷ instances) h = elim (Bool-cases (str_eq key id)) [
  | inl found ↦ rw found refl
  | inr other ↦ rw other (add_to-own id e instances (rw other at h))
]

add_to-other :
    (other id : String) (e : LifecycleEvent) (instances : Instances)
    → str_eq id other ≡ false
    → events_of other (add_to id e instances) ≡ events_of other instances
add_to-other other id e [] differ = refl
add_to-other other id e ((key, events) ∷ instances) differ = elim (Bool-cases (str_eq key other)) [
  | inl found ↦
      let same : key ≡ other = str_eq→eq key other found in
      let not_it : str_eq key id ≡ false = rw same (str_eq_sym id other differ) in
      rw (found, not_it) refl
  | inr differs ↦ rw differs (add_to-other other id e instances differ)
]

add_new-own :
    (id : String) (e : LifecycleEvent) (instances : Instances)
    → Fresh id instances
    → events_of id (add_new id e instances) ≡ e ∷ []
add_new-own id e [] fresh = rw (str_eq_refl id) refl
add_new-own id e ((key, events) ∷ instances) fresh =
    go (compare id key) (add_new-own id e instances fresh.1)
  where
    go :
        (order : Ordering)
        → events_of id (add_new id e instances) ≡ e ∷ []
        → events_of id (elim order [
          | Ordering.lt ↦ (id, e ∷ []) ∷ (key, events) ∷ instances
          | _ ↦ (key, events) ∷ add_new id e instances
        ])
          ≡ e ∷ []
    go Ordering.lt rest = rw (str_eq_refl id) refl
    go Ordering.eq rest = rw fresh.0 rest
    go Ordering.gt rest = rw fresh.0 rest

add_new-other :
    (other id : String) (e : LifecycleEvent) (instances : Instances)
    → str_eq id other ≡ false
    → events_of other (add_new id e instances) ≡ events_of other instances
add_new-other other id e [] differ = rw differ refl
add_new-other other id e ((key, events) ∷ instances) differ =
    go (compare id key) (add_new-other other id e instances differ)
  where
    go :
        (order : Ordering)
        → events_of other (add_new id e instances) ≡ events_of other instances
        → events_of other (elim order [
          | Ordering.lt ↦ (id, e ∷ []) ∷ (key, events) ∷ instances
          | _ ↦ (key, events) ∷ add_new id e instances
        ])
          ≡ events_of other ((key, events) ∷ instances)
    go Ordering.lt rest = rw differ refl
    go Ordering.eq rest = ap (λ es. if str_eq key other then events else es) rest
    go Ordering.gt rest = ap (λ es. if str_eq key other then events else es) rest

abbrev add : LifecycleEvent → Instances → Instances
add e instances =
    if has_id e.actor.actor_id instances
    then add_to e.actor.actor_id e instances
    else add_new e.actor.actor_id e instances

add-events_of :
    (other : String) (e : LifecycleEvent) (instances : Instances)
    → events_of other (add e instances) ≡ events_of other instances ++ of_actor other (e ∷ [])
add-events_of other e instances =
    let id : String = e.actor.actor_id in
    elim (Bool-cases (has_id id instances)) [
      | inl has ↦ elim (Bool-cases (str_eq id other)) [
        | inl same ↦
            let is : id ≡ other = str_eq→eq id other same in
            rw (has, same, ← is) (add_to-own id e instances has)
        | inr differ ↦
            rw (has, differ)
              (add_to-other other id e instances differ
                ∙ sym (append-nil (events_of other instances)))
      ]
      | inr new ↦ elim (Bool-cases (str_eq id other)) [
        | inl same ↦
            let is : id ≡ other = str_eq→eq id other same in
            let fresh = Fresh-has_id id instances new in
            rw (new, same, ← is, events_of-Fresh id instances fresh)
              (add_new-own id e instances fresh)
        | inr differ ↦
            rw (new, differ)
              (add_new-other other id e instances differ
                ∙ sym (append-nil (events_of other instances)))
      ]
    ]

add-Distinct :
    (e : LifecycleEvent) (instances : Instances) → Distinct instances → Distinct (add e instances)
add-Distinct e instances distinct =
    let id : String = e.actor.actor_id in
    elim (Bool-cases (has_id id instances)) [
      | inl has ↦ rw has (add_to-Distinct id e instances distinct)
      | inr new ↦ rw new (add_new-Distinct id e instances (Fresh-has_id id instances new) distinct)
    ]

of_actor-cons :
    (other : String) (e : LifecycleEvent) (events : List LifecycleEvent)
    → of_actor other (e ∷ events) ≡ of_actor other (e ∷ []) ++ of_actor other events
of_actor-cons other e events = elim (Bool-cases (str_eq e.actor.actor_id other)) [
  | inl same ↦ rw same refl
  | inr differ ↦ rw differ refl
]

pub group_onto-events_of :
    (other : String) (instances : Instances) (events : List LifecycleEvent)
    → events_of other (group_onto instances events)
      ≡ events_of other instances ++ of_actor other events
unfolding group_onto
group_onto-events_of other instances [] = sym (append-nil (events_of other instances))
group_onto-events_of other instances (e ∷ events) =
    group_onto-events_of other (add e instances) events
    ∙ ap (λ es. es ++ of_actor other events) (add-events_of other e instances)
    ∙ append_assoc (events_of other instances) (of_actor other (e ∷ [])) (of_actor other events)
    ∙ ap (λ es. events_of other instances ++ es) (sym (of_actor-cons other e events))

pub group_onto-Distinct :
    (instances : Instances) (events : List LifecycleEvent)
    → Distinct instances
    → Distinct (group_onto instances events)
unfolding group_onto
group_onto-Distinct instances [] distinct = distinct
group_onto-Distinct instances (e ∷ events) distinct =
    group_onto-Distinct (add e instances) events (add-Distinct e instances distinct)
