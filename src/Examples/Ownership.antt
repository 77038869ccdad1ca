-- ===== src/Examples/Ownership.antt =====
-- Two hosts and one actor: src/bucket/runtime/activation.rs and src/bucket/file.rs. The host `a` claims
-- it at 1 s, for 30 s; at 40 s the host `b` takes it over.
use mathlib.Core.List.{Memᴰ}
use durable_actors.Prelude.{
  ℕ, ◌+◌, ◌≤◌, ◌≡◌, refl, String, true, false, [], ◌∷◌, Option, none, some, arith, Result, ok,
}
use durable_actors.Ownership.Types.{
  ActorKey, HostLeaseRequest, validate_duration, local, rapid_settings, same_backend, Ownership,
}
use durable_actors.Ownership.Bucket.{
  Cell, compare_and_swap, unchanged, swapped, swap_is_atomic, replace, retried, replace-swapped,
}
use durable_actors.Ownership.Loading.{LoadedSnapshot, load_latest, advance}
use durable_actors.Ownership.Activation.{
  recover_record, recover_stream, Activation, Env, Stored, new_lease, validate_activation,
  activation_record, claim_sealed, claim_unsealed, attempt, usable_hint, finish_activation,
  register_unhinted, register_hinted, register_activation,
}
use durable_actors.Ownership.Claims.{Claimed, register_activation-Claimed}
use durable_actors.Ownership.Protocol.{World, put, unowned, Run, begin, next, Anyone, waits, claims}
use durable_actors.Ownership.Protocol.Exclusion.{
  EpochsGrow, epoch_has_one_session, others_are_excluded,
}
use durable_actors.Ownership.Protocol.Takeover.{IsRequest, Takes, SucceedsOver, lease_runs_out}

abbrev object : Cell
object = some (record { generation = 3; bytes = 1 ∷ [] })

abbrev no_failure : Option String
no_failure = none

swap_is_atomic_example : (compare_and_swap object (some 2) (9 ∷ [])).1 ≡ object
unfolding compare_and_swap
swap_is_atomic_example =
    swap_is_atomic object (compare_and_swap object (some 2) (9 ∷ [])).1 (5 ∷ [])
      (swapped (some 2) (9 ∷ []) unchanged) refl

replace-swapped_example :
    ((replace retried (λ d. d) no_failure object (some 3) (5 ∷ [])).0 ≡ ok true
      → (compare_and_swap object (some 3) (5 ∷ [])).0 ≡ ok true)
    × (no_failure ≡ none
        → ((d : Cell) → d ≡ d)
        → (compare_and_swap object (some 3) (5 ∷ [])).0 ≡ ok true
        → (replace retried (λ d. d) no_failure object (some 3) (5 ∷ [])).0 ≡ ok true)
replace-swapped_example =
    replace-swapped retried (λ d. d) no_failure object (some 3) (5 ∷ []) refl (λ d held. held)

abbrev key : ActorKey
key = record { project_id = "p"; actor_name = "counter"; actor_id = "1" }

abbrev request_of : String → String → HostLeaseRequest
request_of host session = record {
  id = host;
  session_id = session;
  route = "r";
  duration_ms = 30_000;
}

abbrev by_host : String → String → Activation
by_host host session = record {
  persistence = local;
  actor = key;
  request = request_of host session;
  region = "eu";
  new_actor = false;
}

-- The bucket takes every swap, and nothing is stored yet.
abbrev at : ℕ → Stored → Env
at now stored = record {
  load = ok stored;
  validated_at = λ hinted. now;
  leased_at = λ hinted. now;
  mutation = λ hinted. "m";
  recovered = λ hinted actor epoch. ok none;
  position = λ object. none;
  read = λ hinted snapshot. ok [];
  decoded = λ hinted snapshot. ok tt;
  replace = λ hinted owner expected. ok true;
  start = λ owner. ok tt;
}

abbrev owned_by : String → String → ℕ → ℕ → Ownership
owned_by host session epoch expires = record {
  persistence = local;
  sealed = false;
  lease = record { id = host; session_id = session; route = "r"; expires_at_ms = expires };
  mutation = "m";
  actor = key;
  epoch = epoch;
  region = "eu";
  base = none;
}

abbrev pub by_a : Ownership
by_a = owned_by "a" "s" 1 31_000

abbrev by_b : Ownership
by_b = owned_by "b" "t" 2 70_000

register-a :
    (register_activation (at 1_000 none) (by_host "a" "s") (ok tt) 1_000 none).result
    ≡ ok (by_a, ok none)
unfolding register_activation register_hinted register_unhinted attempt claim_sealed
    validate_activation activation_record new_lease validate_duration usable_hint finish_activation
register-a = refl

abbrev nothing_recovered : Result (Option LoadedSnapshot)
nothing_recovered = ok none

register_activation-Claimed_example :
    Claimed (at 1_000 none) (by_host "a" "s") 1_000 none by_a (ok none)
    × ((snapshot : Option LoadedSnapshot) × (nothing_recovered ≡ ok snapshot))
    × ((at 1_000 none).start by_a ≡ ok tt)
register_activation-Claimed_example =
    register_activation-Claimed (at 1_000 none) (by_host "a" "s") (ok tt) 1_000 none by_a (ok none)
      register-a

attempt-a : attempt (at 1_000 none) (by_host "a" "s") false none ≡ ok (some (by_a, ok none))
unfolding attempt claim_sealed validate_activation activation_record new_lease validate_duration
attempt-a = refl

attempt-b :
    attempt (at 40_000 none) (by_host "b" "t") false (some (1, by_a)) ≡ ok (some (by_b, ok none))
unfolding attempt claim_unsealed validate_activation activation_record new_lease validate_duration
    same_backend rapid_settings recover_stream load_latest advance
attempt-b = refl

abbrev before : World
before = record (unowned 0) { now = 1_000 }

abbrev while_a : World
while_a = record (put before by_a) { now = 40_000 }

abbrev owned_a : World
owned_a = put before by_a

waits-before : Run Anyone (unowned 0) before
waits-before = next begin tt (waits 1_000 (omega arith))

claims-a : Run Anyone (unowned 0) owned_a
claims-a = next waits-before tt (
    claims (at 1_000 none) (by_host "a" "s") false none by_a (ok none)
      (record { was_read = Memᴰ.head refl; matches = refl }) (omega arith) (omega arith) attempt-a)

claims-b : Run Anyone owned_a (put while_a by_b)
claims-b = next (next begin tt (waits 40_000 (omega arith))) tt (
    claims (at 40_000 none) (by_host "b" "t") false (some (1, by_a)) by_b (ok none)
      (record { was_read = Memᴰ.head refl; matches = refl }) (omega arith) (omega arith) attempt-b)

epoch_has_one_session_example : EpochsGrow owned_a.stored (put while_a by_b).stored
epoch_has_one_session_example =
    epoch_has_one_session owned_a (put while_a by_b) (0, claims-a) claims-b

abbrev soon : World
soon = record owned_a { now = 20_000 }

-- While the time is 20 s, the record of `a` is unchanged.
others_are_excluded_example : soon.stored ≡ some (1, by_a)
others_are_excluded_example =
    others_are_excluded owned_a 1 by_a soon (0, claims-a) refl
      (next begin (λ e. cc) (waits 20_000 (omega arith))) (omega arith)

recovers : recover_record (at 61_000 none) false by_a ≡ ok none
unfolding recover_stream load_latest advance
recovers = refl

b_may_claim : Takes (by_host "b" "t") by_a
unfolding same_backend rapid_settings
b_may_claim = record { backend = refl; actor = refl; region = refl; other_session = refl }

asks : IsRequest (request_of "b" "t") 61_000
asks = record {
  host = refl;
  session = refl;
  positive = omega arith;
  allowed = omega arith;
  fits = omega arith;
}

lease_runs_out_example :
    (31_000 ≤ 1_000 + 60_000) × SucceedsOver (at 61_000 none) (by_host "b" "t") false 1 by_a
lease_runs_out_example =
    lease_runs_out owned_a 1 by_a (at 61_000 none) (by_host "b" "t") false none (0, claims-a) refl
      (omega arith) b_may_claim asks (omega arith) recovers (λ put_record. refl)
