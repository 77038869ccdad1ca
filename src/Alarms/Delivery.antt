-- ===== src/Alarms/Delivery.antt =====
-- src/control_plane/alarms.rs: the delivery of a claimed alarm, and the loop that starts deliveries. An
-- attempt's outcome and duration, and the delays between attempts, are the environment's.
use mathlib.Core.List.{Memᴰ}
use durable_actors.Prelude.{
  ℕ, zero, suc, ◌+◌, ◌-◌, ◌*◌, ◌^◌, ◌<◌, ◌≤◌, ◌≡◌, Bool, true, false, List, [], ◌∷◌, ◌++◌, Option,
  none, some, ltb, if◌then◌else◌, arith,
}
use durable_actors.Alarms.{
  ClaimedAlarm, Alarms, max_attempts, min_retry_delay_ms, attempt_timeout_ms, queued_timeout_ms,
  finish, claim,
}
use durable_actors.Alarms.Runs.{Sets, ClaimLog, Runs}
use durable_actors.Alarms.Safety.{claim_due_apart}

pub data DeliveryOutcome : Type 0 where
  delivered access_disabled failed : DeliveryOutcome

pub record Attempt : Type 0 where
  pub outcome : DeliveryOutcome
  pub duration_ms : ℕ

-- The attempt that the client makes, cut off by `timeout`.
abbrev pub attempt_once : Attempt → Attempt
attempt_once a =
    if ltb a.duration_ms attempt_timeout_ms
    then a
    else record { outcome = failed; duration_ms = attempt_timeout_ms }

-- `retry(..).when(..)`: one more attempt_once after a delay, unless the actor's access is disabled.
abbrev pub is_retried : DeliveryOutcome → Bool
is_retried delivered = false
is_retried access_disabled = false
is_retried failed = true

abbrev pub after : ℕ → Attempt → Attempt
after waited a = record a { duration_ms = waited + a.duration_ms }

module _ (attempts : ℕ → Attempt) (delay : ℕ → ℕ) where
  -- The attempts from the `n`th on, with so many retries left.
  unfoldable pub retry_from : ℕ → ℕ → Attempt
  retry_from zero n = attempt_once (attempts n)
  retry_from (suc retries) n =
      let tried = attempt_once (attempts n) in
      let rest = after (tried.duration_ms + delay n) (retry_from retries (suc n)) in
      if is_retried tried.outcome then rest else tried

  unfoldable pub attempt_with_retries : Attempt
  attempt_with_retries = retry_from (max_attempts - 1) 0

  attempt_time : (a : Attempt) → (attempt_once a).duration_ms ≤ attempt_timeout_ms
  attempt_time a = ground arith

  retry_from_time :
      (retries n bound : ℕ)
      → ((k : ℕ) → k < n + retries → delay k ≤ bound)
      → (retry_from retries n).duration_ms ≤ suc retries * attempt_timeout_ms + retries * bound
  unfolding retry_from
  retry_from_time zero n bound d = ground (arith, attempt_time (attempts n))
  retry_from_time (suc retries) n bound d = grind (
    arith,
    attempt_time (attempts n),
    d n (omega arith),
    retry_from_time retries (suc n) bound (λ k h. d k (omega arith)),
  )

  below_two :
      (f : ℕ → ℕ)
      → ((k : ℕ) → f k ≤ 2 * (min_retry_delay_ms * 2 ^ k))
      → (k : ℕ) → k < 2
      → f k ≤ 4000
  below_two f d zero h = omega (arith, d 0)
  below_two f d (suc zero) h = omega (arith, d 1)
  below_two f d (suc (suc k)) h = absurd (omega arith)

  attempt_with_retries_time :
      ((k : ℕ) → delay k ≤ 2 * (min_retry_delay_ms * 2 ^ k))
      → attempt_with_retries.duration_ms < queued_timeout_ms
  unfolding attempt_with_retries
  attempt_with_retries_time d = omega (arith, retry_from_time 2 0 4000 (below_two delay d))

  -- A delivery has ended before the same revision of the alarm is claimed again: its attempts and the
  -- delays between them take less than the queue timeout, by which such claims are apart. This needs
  -- that the delay after the attempt `k`, with its jitter, is at most twice its exponential base.
  pub delivery_before_next_claim :
      {sets : Sets} {log : ClaimLog} {alarms : Alarms} (claimed : ClaimedAlarm) (later at : ℕ)
      (newer older : ClaimLog)
      → ((k : ℕ) → delay k ≤ 2 * (min_retry_delay_ms * 2 ^ k))
      → Runs sets log alarms
      → log ≡ newer ++ ((claimed, later) ∷ older)
      → Memᴰ (claimed, at) older
      → at + attempt_with_retries.duration_ms < later
  delivery_before_next_claim claimed later at newer older d r e m =
      omega (arith, attempt_with_retries_time d, claim_due_apart claimed later at newer older r e m)

-- `deliver`, whose outcome is that of its attempts.
unfoldable pub deliver : DeliveryOutcome → ClaimedAlarm → Alarms → Alarms
deliver delivered claimed alarms = finish claimed alarms
deliver access_disabled claimed alarms = alarms
deliver failed claimed alarms = finish claimed alarms

-- A slot for each claimed alarm; `none` is the panic of `expect("alarm claims stay within free slots")`.
unfoldable pub take_slots : ℕ → List ClaimedAlarm → Option ℕ
take_slots free [] = some free
take_slots zero (c ∷ claimed) = none
take_slots (suc free) (c ∷ claimed) = take_slots free claimed

-- One round of `run`: the alarms that it delivers, and the slots that are still free.
unfoldable pub poll : ℕ → ℕ → Alarms → Option ℕ × List ClaimedAlarm × Alarms
poll clock_ms free alarms =
    let (claimed, alarms') = claim clock_ms free alarms in
    (take_slots free claimed, claimed, alarms')
