-- ===== src/Examples/Admission.antt =====
-- An organization with room for one actor: src/control_plane/organization_limits/memory.rs.
use text.Mathlib.Text.{◌==◌ as str_eq}
use durable_actors.Prelude.{
  ℕ, ◌+◌, ◌-◌, ◌*◌, ◌≡◌, refl, String, false, [], none, leb, min, max, arith, Option, some,
  if◌then◌else◌,
}
use durable_actors.Prelude.Maps.{get, string_eq}
use durable_actors.Lifecycle.{LifecycleReport, stopped}
use durable_actors.Admission.{
  Usage, reserve_usage, reserve_new, OrganizationLimits, Activation, activation_eq, Floats,
  admitted, already_stopped, over_quota, Organizations, usage_or_default, prune, reserve_new,
  reserve_usage, reserve, is_ignored, observe_usage, observe_report,
}
use durable_actors.Admission.Refusals.{done, then_reserve, stopped_is_refused}
use durable_actors.Admission.Limits.{positive, from_lookup, AreLimits, from_lookup-AreLimits}
use durable_actors.Admission.Pruning.{Pruned}
use durable_actors.Admission.Quota.{Reserved, reserve-Reserved}

-- Tokens are counted in thousandths.
abbrev thousandths : Floats
thousandths = record {
  Float = ℕ;
  from = λ n. n * 1000;
  add = λ m n. m + n;
  sub = λ m n. m - n;
  mul = λ m n. m;
  div = λ m n. m;
  minimum = min;
  maximum = max;
  ceil = λ n. n;
  at_least = λ m n. leb n m;
  to_u64 = λ n. n;
}

abbrev one_actor : OrganizationLimits
one_actor = record { max_active_actors = 1; starts_per_second = 1; start_burst = 5 }

abbrev activation_of : String → Activation
activation_of session = record {
  organization = "acme";
  actor = record { project_id = "p"; actor_name = "room"; actor_id = "1" };
  host = "host-1";
  session = session;
}

abbrev stop : LifecycleReport
stop = record {
  kind = stopped;
  owner_epoch = 1;
  sequence = 3;
  started_at_ms = 0;
  occurred_at_ms = 2000;
  resident = none;
}

abbrev started_one : Organizations thousandths
started_one = (reserve thousandths 60000 1000 one_actor (activation_of "s1") []).1

first_is_admitted : (reserve thousandths 60000 1000 one_actor (activation_of "s1") []).0 ≡ admitted
unfolding reserve reserve_usage reserve_new prune
first_is_admitted = refl

second_is_over_quota :
    (reserve thousandths 60000 1500 one_actor (activation_of "s2") started_one).0 ≡ over_quota 1
unfolding reserve reserve_usage reserve_new prune
second_is_over_quota = refl

stopped_is_refused_example :
    ((reserve thousandths 60000 4000 one_actor
        (activation_of "s1")
        (reserve thousandths 60000 3000 one_actor
          (activation_of "s2")
          (observe_report thousandths 60000 2000 (activation_of "s1") stop started_one)).1).0
      ≡ already_stopped)
    × (get
          (activation_of "s1")
          (usage_or_default thousandths (
            get "acme"
              (reserve thousandths 60000 3000 one_actor (activation_of "s2") (
                observe_report thousandths 60000 2000
                  (activation_of "s1")
                  stop
                  started_one)).1)).active
        ≡ none)
unfolding reserve reserve_usage reserve_new prune is_ignored observe_usage observe_report
stopped_is_refused_example =
    stopped_is_refused thousandths (activation_of "s1") 60000 2000 4000 one_actor stop started_one
      (reserve thousandths 60000 3000 one_actor (activation_of "s2")
        (observe_report thousandths 60000 2000 (activation_of "s1") stop started_one)).1
      refl refl (omega arith)
      (then_reserve 60000 3000 one_actor (activation_of "s2") (omega arith) done)

reserve-Reserved_example :
    ((before : Usage thousandths) × Pruned thousandths 1500
        (usage_or_default thousandths (get "acme" started_one))
        before
      × Reserved thousandths 60000 1500 one_actor
          (activation_of "s2")
          before
          (usage_or_default thousandths (
            get "acme"
              (reserve thousandths 60000 1500 one_actor (activation_of "s2") started_one).1))
          (reserve thousandths 60000 1500 one_actor (activation_of "s2") started_one).0)
    × ((other : String)
        → string_eq.beq "acme" other ≡ false
        → get other (reserve thousandths 60000 1500 one_actor (activation_of "s2") started_one).1
          ≡ get other started_one)
unfolding reserve reserve_usage prune reserve_new
reserve-Reserved_example =
    reserve-Reserved thousandths 60000 1500 one_actor (activation_of "s2") started_one (refl, tt)
      (refl, tt)

-- An environment that turns limits on and allows one start each second.
abbrev environment : String → Option String
environment name =
    if str_eq name "DURABLE_ACTORS_ORGANIZATION_LIMITS_ENABLED"
    then some "true"
    else if str_eq name "DURABLE_ACTORS_ORGANIZATION_ACTOR_STARTS_PER_SECOND"
    then some "1"
    else none

from_lookup-AreLimits_example :
    AreLimits (some (record { max_active_actors = 500; starts_per_second = 1; start_burst = 100 }))
unfolding from_lookup positive
from_lookup-AreLimits_example = from_lookup-AreLimits environment false refl
