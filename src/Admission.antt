-- ===== src/Admission.antt =====
-- src/control_plane/organization_limits/memory.rs: how many actors of an organization may start and run.
-- The arithmetic of f64 is an argument.
pub mod Stopped
pub mod Refusals
pub mod Pruning
pub mod Quota
pub mod Limits
use text.Mathlib.Text.{◌==◌ as str_eq}
use text.Mathlib.TextEquality.{eq_iff}
use durable_actors.Prelude.{
  ℕ, ◌-◌, ◌≡◌, ◌↔◌, refl, String, Bool, true, false, not, ◌&&◌, ◌||◌, List, [], ◌∷◌, Option, none,
  some, ltb, leb, ◌==◌, if◌then◌else◌, length, max, arith,
}
use durable_actors.Prelude.Words.{saturating_add}
use durable_actors.Prelude.Maps.{Eq, get, insert, remove, retain, string_eq}
use durable_actors.Ownership.Types.{ActorKey, same_actor, same_actor_iff}
use durable_actors.Lifecycle.{LifecycleReport, is_stopped, stale_after_ms}

abbrev pub launch_lease_ms : ℕ
launch_lease_ms = 180000

-- `REPORT_LEASE_MS`
abbrev pub report_lease_ms : ℕ
report_lease_ms = stale_after_ms

pub record OrganizationLimits : Type 0 where
  pub max_active_actors : ℕ
  pub starts_per_second : ℕ
  pub start_burst : ℕ

pub record Activation : Type 0 where
  pub organization : String
  pub actor : ActorKey
  pub host : String
  pub session : String

abbrev pub same_activation : Activation → Activation → Bool
same_activation a b =
    str_eq a.organization b.organization
    && same_actor a.actor b.actor
    && str_eq a.host b.host
    && str_eq a.session b.session

same_activation-eq : (a b : Activation) → same_activation a b ≡ true → a ≡ b
same_activation-eq a b h =
    let organization : a.organization ≡ b.organization =
      ground (arith, eq_iff a.organization b.organization) in
    let actor : a.actor ≡ b.actor = ground (arith, same_actor_iff a.actor b.actor) in
    let host : a.host ≡ b.host = ground (arith, eq_iff a.host b.host) in
    let session : a.session ≡ b.session = ground (arith, eq_iff a.session b.session) in
    λ i. record {
      organization = organization i;
      actor = actor i;
      host = host i;
      session = session i;
    }

same_activation_refl : (a : Activation) → same_activation a a ≡ true
same_activation_refl a = ground (
  arith,
  eq_iff a.organization a.organization,
  same_actor_iff a.actor a.actor,
  eq_iff a.host a.host,
  eq_iff a.session a.session,
)

pub same_activation_iff : (a b : Activation) → (same_activation a b ≡ true) ↔ (a ≡ b)
same_activation_iff a b = (same_activation-eq a b, λ e. rw e (same_activation_refl b))

instance abbrev pub activation_eq : Eq Activation
activation_eq = record { beq = same_activation; beq_iff = same_activation_iff }

-- The operations on f64 that `consume` uses.
pub record Floats : Type 1 where
  pub Float : Type 0
  pub from : ℕ → Float
  pub add : Float → Float → Float
  pub sub : Float → Float → Float
  pub mul : Float → Float → Float
  pub div : Float → Float → Float
  pub minimum : Float → Float → Float
  pub maximum : Float → Float → Float
  pub ceil : Float → Float
  pub at_least : Float → Float → Bool
  pub to_u64 : Float → ℕ

pub record AdmissionSession : Type 0 where
  pub epoch : ℕ
  pub sequence : ℕ
  pub stopped : Bool
  pub forget_at : ℕ

abbrev pub new_session : AdmissionSession
new_session = record { epoch = 0; sequence = 0; stopped = false; forget_at = 0 }

-- What `reserve` answers.
pub data Admission : Type 0 where
  admitted already_stopped : Admission
  over_quota over_rate : ℕ → Admission

abbrev pub later_than : ℕ → ℕ → Bool
later_than now expires_at = ltb now expires_at

abbrev pub is_remembered : ℕ → AdmissionSession → Bool
is_remembered now state = ltb now state.forget_at

abbrev pub session_or_default : Option AdmissionSession → AdmissionSession
session_or_default none = new_session
session_or_default (some state) = state

-- A report that is late, or of another epoch, or of a session that has stopped.
unfoldable pub is_ignored : AdmissionSession → LifecycleReport → Bool
is_ignored state report =
    state.stopped
    || (ltb 0 state.epoch && not (state.epoch == report.owner_epoch))
    || leb report.sequence state.sequence

abbrev pub reported : ℕ → ℕ → LifecycleReport → AdmissionSession
reported retention now report = record {
  epoch = report.owner_epoch;
  sequence = report.sequence;
  stopped = is_stopped report.kind;
  forget_at = saturating_add now retention;
}

module _ (f : Floats) where
  pub record Usage : Type 0 where
    pub active : List (Activation × ℕ)
    pub sessions : List (Activation × AdmissionSession)
    pub tokens : Option f.Float
    pub refilled_at : ℕ

  abbrev pub new_usage : Usage
  new_usage = record { active = []; sessions = []; tokens = none; refilled_at = 0 }

  abbrev pub Organizations : Type 0
  Organizations = List (String × Usage)

  abbrev pub usage_or_default : Option Usage → Usage
  usage_or_default none = new_usage
  usage_or_default (some usage) = usage

  -- `Usage::prune`
  unfoldable pub prune : ℕ → Usage → Usage
  prune now usage = record usage {
    active = retain (later_than now) usage.active;
    sessions = retain (is_remembered now) usage.sessions;
  }

  abbrev pub or_burst : Option f.Float → f.Float → f.Float
  or_burst none burst = burst
  or_burst (some tokens) burst = tokens

  -- `Usage::consume`: the tokens that are there, and what it leaves or the seconds to wait.
  abbrev pub refilled : OrganizationLimits → ℕ → Usage → f.Float
  refilled limits now usage =
      let rate = f.from limits.starts_per_second in
      let burst = f.from limits.start_burst in
      f.minimum
        (f.add (or_burst usage.tokens burst)
          (f.div (f.mul (f.from (now - usage.refilled_at)) rate) (f.from 1000)))
        burst

  abbrev pub retry_after : OrganizationLimits → f.Float → ℕ
  retry_after limits tokens = f.to_u64 (
      f.maximum (f.ceil (f.div (f.sub (f.from 1) tokens) (f.from limits.starts_per_second)))
        (f.from 1))

  abbrev pub spend : ℕ → f.Float → Usage → Usage
  spend now tokens usage = record usage {
    tokens = some (f.sub tokens (f.from 1));
    refilled_at = max usage.refilled_at now;
  }

  -- `reserve`, in the usage of the activation's organization, once it is pruned.
  unfoldable pub reserve_new : ℕ → ℕ → OrganizationLimits → Activation → Usage → Admission × Usage
  reserve_new retention now limits a usage =
      let tokens = refilled limits now usage in
      if ltb (length usage.active) limits.max_active_actors
      then (if f.at_least tokens (f.from 1)
          then (
            admitted,
            record (spend now tokens usage) {
              active = insert a (saturating_add now launch_lease_ms) usage.active;
              sessions =
                  insert a (record new_session { forget_at = saturating_add now retention })
                    usage.sessions;
            },
          )
          else (over_rate (retry_after limits tokens), usage))
      else (over_quota limits.max_active_actors, usage)

  unfoldable pub reserve_usage : ℕ → ℕ → OrganizationLimits → Activation → Usage → Admission × Usage
  reserve_usage retention now limits a usage = elim (get a usage.sessions) [
    | some state ↦ (if state.stopped then already_stopped else admitted, usage)
    | none ↦ reserve_new retention now limits a usage
  ]

  abbrev pub put_usage : String → Admission × Usage → Organizations → Admission × Organizations
  put_usage organization (reply, usage) organizations =
      (reply, insert organization usage organizations)

  -- `MemoryReservations::reserve`
  unfoldable pub reserve :
      ℕ → ℕ → OrganizationLimits → Activation → Organizations → Admission × Organizations
  reserve retention now limits a organizations =
      put_usage a.organization
        (reserve_usage retention now limits a
          (prune now (usage_or_default (get a.organization organizations))))
        organizations

  abbrev pub forget_activation : Activation → Usage → Usage
  forget_activation a usage = record usage {
    active = remove a usage.active;
    sessions = remove a usage.sessions;
  }

  -- `MemoryReservations::release`
  unfoldable pub release : Activation → Organizations → Organizations
  release a organizations = elim (get a.organization organizations) [
    | none ↦ organizations
    | some usage ↦ insert a.organization (forget_activation a usage) organizations
  ]

  -- `observe`, in the usage of the activation's organization, once it is pruned.
  unfoldable pub observe_usage : ℕ → ℕ → Activation → LifecycleReport → Usage → Usage
  observe_usage retention now a report usage =
      let state = session_or_default (get a usage.sessions) in
      if is_ignored state report
      then record usage { sessions = insert a state usage.sessions }
      else record usage {
        sessions = insert a (reported retention now report) usage.sessions;
        active =
            if is_stopped report.kind
            then remove a usage.active
            else insert a (saturating_add now report_lease_ms) usage.active;
      }

  -- `MemoryReservations::observe`
  unfoldable pub observe_report :
      ℕ → ℕ → Activation → LifecycleReport → Organizations → Organizations
  observe_report retention now a report organizations =
      insert a.organization
        (observe_usage retention now a report
          (prune now (usage_or_default (get a.organization organizations))))
        organizations
