-- ===== src/Examples/Alarms.antt =====
-- An alarm that is claimed twice, since its first delivery never ended, and then set anew:
-- src/control_plane/alarms.rs.
use mathlib.Core.List.{Memᴰ}
use durable_actors.Prelude.{
  ℕ, ◌+◌, ◌*◌, ◌^◌, ◌<◌, ◌≤◌, ◌≡◌, ◌⊎◌, refl, [], ◌∷◌, Option, none, some, arith,
}
use durable_actors.Ownership.Types.{ActorKey, actor_eq}
use durable_actors.Alarms.{
  ClaimedAlarm, Alarms, get_alarm, update, due_at, all_due, insert_due, sort_due, claim_one,
  claim_each, claim_due_at, claim_due, finish,
}
use durable_actors.Alarms.Runs.{Sets, ClaimLog, at_clock, Runs, starts, updates, claims, finishes}
use durable_actors.Alarms.Safety.{get_alarm_or_claimed}
use durable_actors.Alarms.Delivery.{
  Attempt, failed, attempt_with_retries, delivery_before_next_claim, poll,
}
use durable_actors.Alarms.Poll.{Polled, poll-Polled}

abbrev room : ActorKey
room = record { project_id = "p"; actor_name = "room"; actor_id = "1" }

abbrev first_claim : ClaimedAlarm
first_claim = record { actor = room; revision = 1 }

abbrev second_claim : ClaimedAlarm
second_claim = record { actor = room; revision = 2 }

abbrev log_of_two : ClaimLog
log_of_two = (first_claim, at_clock 400000) ∷ (first_claim, at_clock 20) ∷ []

abbrev sets_once : Sets
sets_once = (room, some (at_clock 10)) ∷ []

abbrev with_alarm : ℕ → Option ℕ → Option ℕ → Alarms
with_alarm revision timestamp_ms queued_at_ms =
    (room, record { revision = revision; timestamp_ms = timestamp_ms; queued_at_ms = queued_at_ms })
    ∷ []

set_once : Runs sets_once [] (with_alarm 1 (some (at_clock 10)) none)
unfolding update
set_once = updates room (some (at_clock 10)) refl starts

claimed_once :
    Runs sets_once
      ((first_claim, at_clock 20) ∷ [])
      (with_alarm 1 (some (at_clock 10)) (some (at_clock 20)))
unfolding due_at all_due insert_due sort_due claim_one claim_each claim_due_at claim_due
claimed_once = claims 20 100 refl set_once

claimed_twice :
    Runs sets_once
      ((first_claim, at_clock 400000) ∷ (first_claim, at_clock 20) ∷ [])
      (with_alarm 1 (some (at_clock 10)) (some (at_clock 400000)))
unfolding due_at all_due insert_due sort_due claim_one claim_each claim_due_at claim_due
claimed_twice = claims 400000 100 refl claimed_once

set_twice :
    Runs
      ((room, some (at_clock 500000)) ∷ sets_once)
      ((first_claim, at_clock 400000) ∷ (first_claim, at_clock 20) ∷ [])
      (finish first_claim (with_alarm 2 (some (at_clock 500000)) none))
unfolding update
set_twice =
    finishes first_claim (at_clock 20) (Memᴰ.tail (Memᴰ.head refl))
      (updates room (some (at_clock 500000)) refl claimed_twice)

get_alarm_or_claimed_example :
    (get_alarm (finish first_claim (with_alarm 2 (some (at_clock 500000)) none)) room
      ≡ some (at_clock 500000))
    ⊎ ((at : ℕ) × (at_clock 500000 ≤ at)
        × Memᴰ {A = ClaimedAlarm × ℕ} (second_claim, at) log_of_two)
get_alarm_or_claimed_example = get_alarm_or_claimed room (at_clock 500000) set_twice refl

abbrev always_fails : ℕ → Attempt
always_fails n = record { outcome = failed; duration_ms = 90000 }

abbrev no_jitter : ℕ → ℕ
no_jitter k = 1000 * 2 ^ k

no_jitter_fits : (k : ℕ) → no_jitter k ≤ 2 * (1000 * 2 ^ k)
no_jitter_fits k = omega arith

delivery_before_next_claim_example :
    at_clock 20 + (attempt_with_retries always_fails no_jitter).duration_ms < at_clock 400000
delivery_before_next_claim_example =
    delivery_before_next_claim always_fails no_jitter first_claim (at_clock 400000) (at_clock 20) []
      ((first_claim, at_clock 20) ∷ []) no_jitter_fits claimed_twice refl (Memᴰ.head refl)

poll-Polled_example :
    Polled
      (at_clock 20)
      100
      (with_alarm 1 (some (at_clock 10)) none)
      (poll 20 100 (with_alarm 1 (some (at_clock 10)) none)).0
      (poll 20 100 (with_alarm 1 (some (at_clock 10)) none)).1
poll-Polled_example = poll-Polled 20 100 set_once (omega arith)
