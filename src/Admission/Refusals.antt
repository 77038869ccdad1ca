-- ===== src/Admission/Refusals.antt =====
-- What other activations may do after a session has stopped: src/control_plane/organization_limits/memory.rs.
use mathlib.Core.Path.{subst}
use durable_actors.Prelude.{
  ℕ, ◌<◌, ◌≡◌, refl, inl, inr, String, true, false, none, arith, Bool-cases, Option-cases,
}
use durable_actors.Prelude.Words.{saturating_add}
use durable_actors.Prelude.Maps.{
  get, insert, string_eq, beq-eq, get-insert_same, get-insert_other, get-insert,
}
use durable_actors.Lifecycle.{LifecycleReport, is_stopped}
use durable_actors.Admission.{
  OrganizationLimits, Activation, same_activation, activation_eq, Floats, already_stopped, Usage,
  Organizations, usage_or_default, prune, reserve_usage, reserve, forget_activation, release,
  session_or_default, is_ignored, observe_usage, observe_report,
}
use durable_actors.Admission.Stopped.{
  StoppedIn, prune-StoppedIn, reserve_usage-StoppedIn, observe_usage-StoppedIn, forget-StoppedIn,
  observe_stop-StoppedIn,
}

module _ (f : Floats) (a : Activation) (until : ℕ) where
  -- The same of the map of organizations.
  pub KnownStopped : Organizations f → Type 0
  KnownStopped organizations =
      StoppedIn f a until (usage_or_default f (get a.organization organizations))

  write-KnownStopped :
      (organization : String) (usage : Usage f) (organizations : Organizations f)
      → (organization ≡ a.organization → StoppedIn f a until usage)
      → KnownStopped organizations
      → KnownStopped (insert organization usage organizations)
  unfolding KnownStopped
  write-KnownStopped organization usage organizations own s =
      elim (Bool-cases (string_eq.beq organization a.organization)) [
        | inl same ↦
            rw (get-insert a.organization organization usage organizations)
              (rw same (own (beq-eq organization a.organization same)))
        | inr other ↦ rw (get-insert_other a.organization organization usage organizations other) s
      ]

  get-KnownStopped :
      (organization : String) (organizations : Organizations f)
      → organization ≡ a.organization
      → KnownStopped organizations
      → StoppedIn f a until (usage_or_default f (get organization organizations))
  unfolding KnownStopped
  get-KnownStopped organization organizations e s = rw e s

  reserve-KnownStopped :
      (retention now : ℕ) (limits : OrganizationLimits) (b : Activation)
      (organizations : Organizations f)
      → now < until
      → KnownStopped organizations
      → KnownStopped (reserve f retention now limits b organizations).1
  unfolding reserve
  reserve-KnownStopped retention now limits b organizations early s =
      write-KnownStopped b.organization _ organizations
        (λ e. reserve_usage-StoppedIn f a until retention now limits b _ (
          prune-StoppedIn f a until now _ early
            (get-KnownStopped b.organization organizations e s)))
        s

  observe-KnownStopped :
      (retention now : ℕ) (b : Activation) (report : LifecycleReport)
      (organizations : Organizations f)
      → now < until
      → KnownStopped organizations
      → KnownStopped (observe_report f retention now b report organizations)
  unfolding observe_report
  observe-KnownStopped retention now b report organizations early s =
      write-KnownStopped b.organization _ organizations
        (λ e. observe_usage-StoppedIn f a until retention now b report _ (
          prune-StoppedIn f a until now _ early
            (get-KnownStopped b.organization organizations e s)))
        s

  release-KnownStopped :
      (b : Activation) (organizations : Organizations f)
      → same_activation b a ≡ false
      → KnownStopped organizations
      → KnownStopped (release f b organizations)
  unfolding release
  release-KnownStopped b organizations other s =
      elim (Option-cases (get b.organization organizations)) [
        | inl none_of ↦ rw (none_of, release) s
        | inr (usage, e) ↦
            rw (e, release)
              (write-KnownStopped b.organization (forget_activation f b usage) organizations
                (λ own. forget-StoppedIn f a until b usage other (
                  subst (λ o. StoppedIn f a until (usage_or_default f o)) e
                    (get-KnownStopped b.organization organizations own s)))
                s)
      ]

  -- What other calls do to the organizations, each at its time.
  pub data Calls : Organizations f → Organizations f → Type 0 where
    done : {organizations : Organizations f} → Calls organizations organizations
    then_reserve :
        (retention now : ℕ) (limits : OrganizationLimits) (b : Activation) {o o' : Organizations f}
        → now < until
        → Calls o o'
        → Calls o (reserve f retention now limits b o').1
    then_observe :
        (retention now : ℕ) (b : Activation) (report : LifecycleReport) {o o' : Organizations f}
        → now < until
        → Calls o o'
        → Calls o (observe_report f retention now b report o')
    then_release :
        (b : Activation) {o o' : Organizations f}
        → same_activation b a ≡ false
        → Calls o o'
        → Calls o (release f b o')

  Calls-KnownStopped : {o o' : Organizations f} → KnownStopped o → Calls o o' → KnownStopped o'
  Calls-KnownStopped s done = s
  Calls-KnownStopped s (then_reserve retention now limits b {o' = o'} early calls) =
      reserve-KnownStopped retention now limits b o' early (Calls-KnownStopped s calls)
  Calls-KnownStopped s (then_observe retention now b report {o' = o'} early calls) =
      observe-KnownStopped retention now b report o' early (Calls-KnownStopped s calls)
  Calls-KnownStopped s (then_release b {o' = o'} other calls) =
      release-KnownStopped b o' other (Calls-KnownStopped s calls)

  reserve_stopped :
      (retention now : ℕ) (limits : OrganizationLimits) (organizations : Organizations f)
      → now < until
      → KnownStopped organizations
      → (reserve f retention now limits a organizations).0 ≡ already_stopped
  unfolding reserve reserve_usage
  reserve_stopped retention now limits organizations early s =
      let kept =
        prune-StoppedIn f a until now (usage_or_default f (get a.organization organizations)) early
          (get-KnownStopped a.organization organizations refl s) in
      rw (kept.found, reserve_usage) (rw kept.is_stopped refl)

-- Once a report that a session has stopped is taken, then until the retention of that report has
-- passed, whatever is reserved and observed of any session and released of others, a reservation of
-- that session is answered with already_stopped, and the session holds no slot.
pub stopped_is_refused :
    (f : Floats) (a : Activation) (retention stopped_at now : ℕ) (limits : OrganizationLimits)
    (report : LifecycleReport) (organizations later : Organizations f)
    → is_ignored
        (session_or_default (
          get a
            (prune f stopped_at (usage_or_default f (get a.organization organizations))).sessions))
        report
      ≡ false
    → is_stopped report.kind ≡ true
    → now < saturating_add stopped_at retention
    → Calls f a
        (saturating_add stopped_at retention)
        (observe_report f retention stopped_at a report organizations)
        later
    → ((reserve f retention now limits a later).0 ≡ already_stopped)
      × (get a (usage_or_default f (get a.organization later)).active ≡ none)
unfolding observe_report KnownStopped
stopped_is_refused f a retention stopped_at now limits report organizations later new stop early
      calls =
    let until = saturating_add stopped_at retention in
    let first : KnownStopped f a until
        (observe_report f retention stopped_at a report organizations) =
      rw
        (get-insert_same a.organization
          (observe_usage f retention stopped_at a report
            (prune f stopped_at (usage_or_default f (get a.organization organizations))))
          organizations)
        (observe_stop-StoppedIn f a until retention stopped_at report _ new stop (omega arith)) in
    let known = Calls-KnownStopped f a until first calls in
    (reserve_stopped f a until retention now limits later early known, known.inactive)
