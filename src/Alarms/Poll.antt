-- ===== src/Alarms/Poll.antt =====
-- Which alarms a round of the loop in src/control_plane/alarms.rs claims.
use mathlib.Core.List.{Memᴰ}
use durable_actors.Prelude.{
  ℕ, zero, suc, ◌+◌, ◌-◌, ◌^◌, ◌<◌, ◌≤◌, ◌≡◌, ◌⊎◌, refl, ◌∙◌, inl, inr, false, ◌==◌, List, [], ◌∷◌,
  Option, some, length, length-take, lt→ltb, take, arith, All, Option-cases,
}
use durable_actors.Prelude.Maps.{get, Unique}
use durable_actors.Ownership.Types.{ActorKey, actor_eq}
use durable_actors.Alarms.{
  ClaimedAlarm, MemoryAlarm, Alarms, queued_timeout_ms, due_at, all_due, sort_due, claim_due_at,
  claim_due, claim,
}
use durable_actors.Alarms.Due.{all_due-Claimable, sort_due-Claimable, take-Claimable}
use durable_actors.Alarms.Matched.{
  Hit, Matched, all_due_member, claim_each-Matched, Matched-length, Matched-All, Matched-member,
}
use durable_actors.Alarms.Order.{sort_due-Sorted, sort_due-member, taken_or_full}
use durable_actors.Alarms.Runs.{Sets, ClaimLog, Runs, at_clock}
use durable_actors.Alarms.Safety.{Runs-Good}
use durable_actors.Alarms.Delivery.{take_slots, poll}

-- The alarm is set for `t`, which is not later than now, and was not queued within the queue timeout.
pub record IsDue (now : ℕ) (alarm : MemoryAlarm) (t : ℕ) : Type 0 where
  pub set : alarm.timestamp_ms ≡ some t
  pub reached : t ≤ now
  pub not_queued : (q : ℕ) → alarm.queued_at_ms ≡ some q → q + queued_timeout_ms ≤ now

module _ (now : ℕ) (late : queued_timeout_ms ≤ now) where
  due_at-IsDue :
      (alarm : MemoryAlarm) (t : ℕ)
      → due_at now (now - queued_timeout_ms) alarm ≡ some t
      → IsDue now alarm t
  unfolding due_at
  due_at-IsDue alarm t h = elim (Option-cases alarm.timestamp_ms) [
    | inl e ↦ absurd (ground (arith, h, e))
    | inr (t', e) ↦ record {
      set = ground (arith, h, e);
      reached = ground (arith, h, e);
      not_queued = λ q queued. ground (arith, h, e, queued, late);
    }
  ]

  IsDue-due_at :
      (alarm : MemoryAlarm) (t : ℕ)
      → IsDue now alarm t
      → due_at now (now - queued_timeout_ms) alarm ≡ some t
  unfolding due_at
  IsDue-due_at alarm t d = elim (Option-cases alarm.queued_at_ms) [
    | inl e ↦ ground (arith, d.set, d.reached, e)
    | inr (q, e) ↦ ground (arith, d.set, d.reached, e, d.not_queued q e)
  ]

All-unit : (due : List (ℕ × ActorKey)) → All (λ c. Unit {0}) due
All-unit [] = tt
All-unit (c ∷ due) = (tt, All-unit due)

All-refl :
    (alarms : Alarms) (due : List (ℕ × ActorKey)) → All (λ c. get c.1 alarms ≡ get c.1 alarms) due
All-refl alarms [] = tt
All-refl alarms (c ∷ due) = (refl, All-refl alarms due)

take_slots_fit :
    (free : ℕ) (claimed : List ClaimedAlarm)
    → length claimed ≤ free
    → take_slots free claimed ≡ some (free - length claimed)
unfolding take_slots
take_slots_fit free [] h = ground arith
take_slots_fit zero (c ∷ claimed) h = absurd (omega arith)
take_slots_fit (suc free) (c ∷ claimed) h = ground (arith, take_slots_fit free claimed)

module _ (now : ℕ) where
  -- The claim is one of a stored alarm, at its revision, that is set for `t`.
  pub record IsOf (alarms : Alarms) (claimed : ClaimedAlarm) (t : ℕ) : Type 0 where
    pub alarm : MemoryAlarm
    pub found : get claimed.actor alarms ≡ some alarm
    pub its_revision : claimed.revision ≡ alarm.revision
    pub is_due : IsDue now alarm t

  -- Every claim is one of an alarm that is due; each has a slot; and an alarm that is due and is not
  -- claimed finds all the slots taken by others that are due no later.
  pub record Polled (free : ℕ) (alarms : Alarms) (slots : Option ℕ) (claimed : List ClaimedAlarm)
      : Type 0 where
    pub each_is_due : All (λ c. (t : ℕ) × IsOf alarms c t) claimed
    pub fit : length claimed ≤ free
    pub slots_left : slots ≡ some (free - length claimed)
    pub none_missed :
        (actor : ActorKey) (alarm : MemoryAlarm) (t : ℕ)
        → get actor alarms ≡ some alarm
        → IsDue now alarm t
        → Memᴰ (record { actor = actor; revision = alarm.revision }) claimed
          ⊎ ((length claimed ≡ free) × All (λ c. (u : ℕ) × IsOf alarms c u × (u ≤ t)) claimed)

  module _ (late : queued_timeout_ms ≤ now) where
    Hit-IsOf :
        (alarms : Alarms) (c : ℕ × ActorKey) (d : ClaimedAlarm)
        → Hit now (now - queued_timeout_ms) alarms c d
        → IsOf alarms d c.0
    Hit-IsOf alarms c d hit = record {
      alarm = hit.alarm;
      found = rw (hit.actor) hit.found;
      its_revision = hit.revision;
      is_due = due_at-IsDue now late hit.alarm c.0 hit.is_due;
    }

    Matched-Polled :
        (free : ℕ) (alarms : Alarms) (claimed : List ClaimedAlarm)
        → Matched now
            (now - queued_timeout_ms)
            alarms
            (take free (sort_due (all_due now (now - queued_timeout_ms) alarms)))
            claimed
        → Polled free alarms (take_slots free claimed) claimed
    Matched-Polled free alarms claimed h =
        let expired = now - queued_timeout_ms in
        let due = all_due now expired alarms in
        let first = take free (sort_due due) in
        let size = Matched-length now expired alarms first claimed h in
        let fit : length claimed ≤ free = omega (arith, size, length-take free (sort_due due)) in
        record {
          each_is_due =
              Matched-All now expired (λ c. Unit {0}) (λ d. (t : ℕ) × IsOf alarms d t) alarms first
                claimed (λ c d hit u. (c.0, Hit-IsOf alarms c d hit)) h (All-unit first);
          fit = fit;
          slots_left = take_slots_fit free claimed fit;
          none_missed = λ actor alarm t found is_due.
              let m =
                all_due_member now expired actor alarm t alarms found
                  (IsDue-due_at now late alarm t is_due) in
              elim (taken_or_full free (t, actor) (sort_due due) (sort_due-Sorted due)
                (sort_due-member (t, actor) due m)) [
                  | inl taken ↦
                      inl (
                        Matched-member now expired actor alarm t alarms first claimed found h taken)
                  | inr (full, all) ↦ inr (
                    size ∙ full,
                    Matched-All now expired (λ c. c.0 ≤ t)
                        (λ d. (u : ℕ) × IsOf alarms d u × (u ≤ t)) alarms first claimed
                        (λ c d hit le. (c.0, Hit-IsOf alarms c d hit, le)) h all,
                  )
                ];
        }

claim-Matched :
    (clock_ms limit : ℕ) (alarms : Alarms)
    → Unique alarms
    → clock_ms < 2 ^ 63
    → Matched
        (at_clock clock_ms)
        (at_clock clock_ms - queued_timeout_ms)
        alarms
        (take limit
          (sort_due (all_due (at_clock clock_ms) (at_clock clock_ms - queued_timeout_ms) alarms)))
        (claim clock_ms limit alarms).0
unfolding claim claim_due claim_due_at
claim-Matched clock_ms zero alarms u fits = tt
claim-Matched clock_ms (suc limit) alarms u fits =
    let now = at_clock clock_ms in
    let expired = now - queued_timeout_ms in
    let due = sort_due (all_due now expired alarms) in
    let claimable = take-Claimable now expired alarms (suc limit) due (
      sort_due-Claimable now expired alarms (all_due now expired alarms)
        (all_due-Claimable now expired alarms u)) in
    let (claimed, alarms', run, matched) =
      claim_each-Matched now expired (take (suc limit) due) alarms alarms claimable
        (All-refl alarms (take (suc limit) due)) in
    let positive : (suc limit == 0) ≡ false = ground arith in
    rw (positive, lt→ltb clock_ms (2 ^ 63) fits, run) matched

-- A poll, after any updates, claims and ends of deliveries, while the clock fits an i64: each alarm that
-- it claims was stored with the claim's revision, its time has come, and it was not queued within the
-- queue timeout; each claim gets one of the free slots, so these never run out; and every such alarm is
-- claimed, unless alarms that are due no later take all the slots.
pub poll-Polled :
    {sets : Sets} {log : ClaimLog} {alarms : Alarms} (clock_ms free : ℕ)
    → Runs sets log alarms
    → clock_ms < 2 ^ 63
    → Polled
        (at_clock clock_ms)
        free
        alarms
        (poll clock_ms free alarms).0
        (poll clock_ms free alarms).1
unfolding poll
poll-Polled {alarms = alarms} clock_ms free r fits =
    Matched-Polled (at_clock clock_ms) (omega arith) free alarms (claim clock_ms free alarms).0
      (claim-Matched clock_ms free alarms (Runs-Good r).unique fits)
