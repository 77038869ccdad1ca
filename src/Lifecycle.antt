-- ===== src/Lifecycle.antt =====
-- src/actor_lifecycle.rs: the reports that hosts send about actors, and what is made of them. Waiting
-- operations, resource limits and the time of the last activity are left out of a report.
pub mod Residency
pub mod Usage
use text.Mathlib.Text.{◌==◌ as str_eq}
use durable_actors.Prelude.{
  ℕ, ◌+◌, ◌-◌, ◌*◌, ◌^◌, String, Bool, true, false, ◌&&◌, ◌||◌, Option, none, some, ltb, leb, ◌==◌,
  if◌then◌else◌, Result, ok, ◌>>=◌, ◌>>◌, ensure,
}
use durable_actors.Ownership.Types.{ActorKey}

pub data LifecycleKind : Type 0 where
  started heartbeat draining stopped : LifecycleKind

abbrev pub is_stopped : LifecycleKind → Bool
is_stopped stopped = true
is_stopped kind = false

pub record LifecycleReport : Type 0 where
  pub kind : LifecycleKind
  pub owner_epoch : ℕ
  pub sequence : ℕ
  pub started_at_ms : ℕ
  pub occurred_at_ms : ℕ
  pub resident : Option Bool

pub record LifecycleEvent : Type 0 where
  pub event_id : String
  pub actor : ActorKey
  pub host_id : String
  pub session_id : String
  pub region : String
  pub received_at_ms : ℕ
  pub report : LifecycleReport

pub data ActorResidency : Type 0 where
  live dormant unknown : ActorResidency

abbrev pub stale_after_ms : ℕ
stale_after_ms = 35_000

abbrev pub of_resident : Option Bool → ActorResidency
of_resident (some true) = live
of_resident (some false) = dormant
of_resident none = unknown

unfoldable pub residency : LifecycleEvent → ℕ → ActorResidency
residency event now =
    if is_stopped event.report.kind
    then dormant
    else if ltb stale_after_ms (now - event.received_at_ms)
    then unknown
    else of_resident event.report.resident
