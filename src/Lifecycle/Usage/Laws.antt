-- ===== src/Lifecycle/Usage/Laws.antt =====
-- The updates of src/actor_lifecycle.rs: estimates, their corrections, and the latest report.
use mathlib.Core.List.{Memᴰ}
use durable_actors.Prelude.{
  ℕ, zero, suc, ◌+◌, ◌≤◌, ◌<◌, ◌≡◌, refl, sym, ap, ◌∙◌, Bool, true, false, not, ◌||◌, ltb, leb,
  List, [], ◌∷◌, Option, none, some, arith, if◌then◌else◌, take, drop, All, Bool-cases, inl, inr,
  ◌⊎◌,
}
use durable_actors.Lifecycle.{LifecycleEvent, is_stopped}
use durable_actors.Lifecycle.Usage.{
  UsageSession, UsageSessions, SessionKey, session_key, update_of, estimated_stop, find_session,
  observe_after, observe, batch_size, is_due, expire_from, expire, not_newer, keep_latest, keep_all,
}

-- A session of which no stop is known or estimated, and nothing was heard for 35 s.
abbrev pub has_fallen_silent : ℕ → UsageSession → Bool
has_fallen_silent now s =
    if s.estimated || is_stopped s.event.report.kind
    then false
    else leb (s.event.received_at_ms + 35_000) now

abbrev pub silent_events : ℕ → UsageSessions → List LifecycleEvent
silent_events now [] = []
silent_events now ((key, s) ∷ sessions) =
    let rest = silent_events now sessions in
    if has_fallen_silent now s then s.event ∷ rest else rest

-- The sessions without the marks of their estimates.
abbrev pub unmarked : UsageSessions → List (SessionKey × LifecycleEvent)
unmarked [] = []
unmarked ((key, s) ∷ sessions) = (key, s.event) ∷ unmarked sessions

abbrev pub differs : Bool → Bool → Bool
differs a b = if a then not b else b

-- The events of the sessions whose marks differ.
abbrev pub marked_anew : UsageSessions → UsageSessions → List LifecycleEvent
marked_anew [] after = []
marked_anew (entry ∷ before) [] = []
marked_anew ((key, s) ∷ before) ((key', s') ∷ after) =
    let rest = marked_anew before after in
    if differs s.estimated s'.estimated then s.event ∷ rest else rest

is_due-silent : (now : ℕ) (s : UsageSession) → is_due now s ≡ has_fallen_silent now s
is_due-silent now s = ground arith

differs_not : (b : Bool) → differs b b ≡ false
differs_not true = refl
differs_not false = refl

marked_anew_same : (sessions : UsageSessions) → marked_anew sessions sessions ≡ []
marked_anew_same [] = refl
marked_anew_same ((key, s) ∷ sessions) = rw (differs_not s.estimated) (marked_anew_same sessions)

not_estimated : (now : ℕ) (s : UsageSession) → has_fallen_silent now s ≡ true → s.estimated ≡ false
not_estimated now s h = ground arith

-- What a round with room for so many events gives out and leaves.
pub record Expired (room now : ℕ) (before : UsageSessions) (given : List LifecycleEvent)
    (after : UsageSessions) : Type 0 where
  pub gives : given ≡ take room (silent_events now before)
  pub leaves : silent_events now after ≡ drop room (silent_events now before)
  pub keeps : unmarked after ≡ unmarked before
  pub marks : marked_anew before after ≡ given

expire_from-Expired :
    (room now : ℕ) (sessions : UsageSessions)
    → Expired room now sessions (expire_from room now sessions).0 (expire_from room now sessions).1
unfolding expire_from
expire_from-Expired zero now [] = record { gives = refl; leaves = refl; keeps = refl; marks = refl }
expire_from-Expired (suc room) now [] = record {
  gives = refl;
  leaves = refl;
  keeps = refl;
  marks = refl;
}
expire_from-Expired zero now (entry ∷ sessions) = record {
  gives = refl;
  leaves = refl;
  keeps = refl;
  marks = marked_anew_same (entry ∷ sessions);
}
expire_from-Expired (suc room) now ((key, s) ∷ sessions) =
    let taken = expire_from-Expired room now sessions in
    let passed = expire_from-Expired (suc room) now sessions in
    elim (Bool-cases (has_fallen_silent now s)) [
      | inl silent ↦ rw (is_due-silent now s) (
          rw silent (record {
            gives = rw silent (ap (λ events. s.event ∷ events) taken.gives);
            leaves = rw silent taken.leaves;
            keeps = ap (λ rest. (key, s.event) ∷ rest) taken.keeps;
            marks = rw (not_estimated now s silent) (ap (λ events. s.event ∷ events) taken.marks);
          }))
      | inr not_silent ↦ rw (is_due-silent now s) (
          rw not_silent (record {
            gives = rw not_silent passed.gives;
            leaves = rw not_silent passed.leaves;
            keeps = ap (λ rest. (key, s.event) ∷ rest) passed.keeps;
            marks = rw (differs_not s.estimated) passed.marks;
          }))
    ]

-- `expire` gives out the events of the sessions of which no stop is known or estimated and nothing was
-- heard for 35 s, the first 128 of them; it keeps every session with its event, in the order in which
-- they are; the sessions whose marks it changes are those whose events it gives out; and what is to be
-- given out after it at the same time are the rest.
pub expire-Expired :
    (now : ℕ) (sessions : UsageSessions)
    → Expired 128 now sessions (expire now sessions).0 (expire now sessions).1
unfolding expire
expire-Expired now sessions = expire_from-Expired batch_size now sessions

-- A report that corrects an estimated stop is of a session that had not stopped, and its update has a
-- higher revision than the estimate that it corrects.
pub observe_corrects :
    (sessions : UsageSessions) (event : LifecycleEvent)
    → (observe sessions event).0 ≡ true
    → (previous : UsageSession) × (find_session (session_key event) sessions ≡ some previous)
      × (previous.estimated ≡ true)
      × (is_stopped previous.event.report.kind ≡ false)
      × ((now : ℕ) → (estimated_stop previous.event now).revision < (update_of event).revision)
unfolding observe
observe_corrects sessions event h = go (find_session (session_key event) sessions) refl h
  where
    go :
        (found : Option UsageSession)
        → find_session (session_key event) sessions ≡ found
        → (observe_after found sessions event).0 ≡ true
        → (previous : UsageSession) × (find_session (session_key event) sessions ≡ some previous)
          × (previous.estimated ≡ true)
          × (is_stopped previous.event.report.kind ≡ false)
          × ((now : ℕ) → (estimated_stop previous.event now).revision < (update_of event).revision)
    go none e h = cc
    go (some previous) e h = (previous, e, ground arith, ground arith, λ now. ground arith)

-- A report is at most as new as another: it has a lower epoch, or the same epoch and no higher sequence.
abbrev pub UpTo : Option LifecycleEvent → LifecycleEvent → Type 0
UpTo none event = ⊥
UpTo (some latest) event =
    (event.report.owner_epoch < latest.report.owner_epoch)
    ⊎ ((event.report.owner_epoch ≡ latest.report.owner_epoch)
        × (event.report.sequence ≤ latest.report.sequence))

-- The same by the code's test.
abbrev Covers : Option LifecycleEvent → LifecycleEvent → Type 0
Covers none event = ⊥
Covers (some latest) event = not_newer latest event ≡ true

not_newer-UpTo :
    (latest event : LifecycleEvent) → not_newer latest event ≡ true → UpTo (some latest) event
not_newer-UpTo latest event h =
    elim (Bool-cases (ltb event.report.owner_epoch latest.report.owner_epoch)) [
      | inl older ↦ inl (ground (arith, older))
      | inr same ↦ inr (ground (arith, h, same), ground (arith, h, same))
    ]

Covers-UpTo :
    (latest : Option LifecycleEvent) (events : List LifecycleEvent)
    → All (Covers latest) events
    → All (UpTo latest) events
Covers-UpTo latest [] all = tt
Covers-UpTo none (e ∷ events) (covers, all) = absurd covers
Covers-UpTo (some latest) (e ∷ events) (covers, all) =
    (not_newer-UpTo latest e covers, Covers-UpTo (some latest) events all)

not_newer_refl : (a : LifecycleEvent) → not_newer a a ≡ true
not_newer_refl a = ground arith

not_newer_trans :
    (a b c : LifecycleEvent) → not_newer b a ≡ true → not_newer c b ≡ true → not_newer c a ≡ true
not_newer_trans a b c h h' = ground arith

not_newer_total : (a b : LifecycleEvent) → not_newer a b ≡ false → not_newer b a ≡ true
not_newer_total a b h = ground arith

keep_latest-Covers :
    (latest : Option LifecycleEvent) (event : LifecycleEvent)
    → Covers (keep_latest latest event) event
      × ((e : LifecycleEvent) → Covers latest e → Covers (keep_latest latest event) e)
unfolding keep_latest
keep_latest-Covers none event = (not_newer_refl event, λ e h. absurd h)
keep_latest-Covers (some previous) event = elim (Bool-cases (not_newer previous event)) [
  | inl older ↦ rw older (older, λ e h. h)
  | inr newer ↦ rw newer (
    not_newer_refl event,
    λ e h. not_newer_trans e previous event h (not_newer_total previous event newer),
  )
]

keep_all-Covers :
    (latest : Option LifecycleEvent) (events : List LifecycleEvent)
    → All (Covers (keep_all latest events)) events
      × ((e : LifecycleEvent) → Covers latest e → Covers (keep_all latest events) e)
unfolding keep_all
keep_all-Covers latest [] = (tt, λ e h. h)
keep_all-Covers latest (e ∷ events) =
    let (all, keeps) = keep_all-Covers (keep_latest latest e) events in
    let (own, older) = keep_latest-Covers latest e in
    ((keeps e own, all), λ f h. keeps f (older f h))

keep_latest-cases :
    (latest : Option LifecycleEvent) (event : LifecycleEvent)
    → (keep_latest latest event ≡ latest) ⊎ (keep_latest latest event ≡ some event)
unfolding keep_latest
keep_latest-cases none event = inr refl
keep_latest-cases (some previous) event = ground arith

keep_all-Memᴰ :
    (latest : Option LifecycleEvent) (events : List LifecycleEvent) (kept : LifecycleEvent)
    → keep_all latest events ≡ some kept
    → (latest ≡ some kept) ⊎ Memᴰ kept events
unfolding keep_all
keep_all-Memᴰ latest [] kept h = inl h
keep_all-Memᴰ latest (e ∷ events) kept h =
    elim (keep_all-Memᴰ (keep_latest latest e) events kept h) [
      | inr later ↦ inr (Memᴰ.tail later)
      | inl now ↦ elim (keep_latest-cases latest e) [
        | inl old ↦ inl (sym old ∙ now)
        | inr new ↦
            let is : some e ≡ some kept = sym new ∙ now in
            let same : kept ≡ e = cc in inr (Memᴰ.head same)
      ]
    ]

-- Whatever order an actor's reports are recorded in, the one that is kept in the end is one of them, and
-- each of them has a lower epoch, or the same epoch and no higher sequence.
pub keep_all_latest :
    (events : List LifecycleEvent)
    → All (UpTo (keep_all none events)) events
      × ((kept : LifecycleEvent) → keep_all none events ≡ some kept → Memᴰ kept events)
keep_all_latest events = (
  Covers-UpTo (keep_all none events) events (keep_all-Covers none events).0,
  λ kept h. elim (keep_all-Memᴰ none events kept h) [ inl e ↦ cc | inr m ↦ m ],
)
