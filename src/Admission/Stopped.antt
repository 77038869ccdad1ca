-- ===== src/Admission/Stopped.antt =====
-- That a session which has stopped is never admitted again: src/control_plane/organization_limits/memory.rs.
use mathlib.Core.Path.{subst}
use durable_actors.Prelude.{
  ℕ, ◌<◌, ◌≤◌, ◌≡◌, refl, sym, ◌∙◌, inl, inr, true, false, none, some, ltb, lt→ltb, length, arith,
  Bool-cases, Option-cases,
}
use durable_actors.Prelude.Words.{saturating_add}
use durable_actors.Prelude.Maps.{
  get, insert, string_eq, beq-eq, beq_refl, get-insert_same, get-insert_other, get-remove,
  get-retain_fresh, get-retain_kept,
}
use durable_actors.Lifecycle.{LifecycleReport, is_stopped}
use durable_actors.Admission.{
  launch_lease_ms, report_lease_ms, OrganizationLimits, Activation, same_activation, activation_eq,
  Floats, AdmissionSession, Usage, later_than, is_remembered, prune, refilled, reserve_new,
  reserve_usage, forget_activation, session_or_default, is_ignored, reported, observe_usage,
}

module _ (f : Floats) (a : Activation) (until : ℕ) where
  -- The session is known to have stopped until this time, and has no slot.
  pub record StoppedIn (usage : Usage f) : Type 0 where
    pub state : AdmissionSession
    pub found : get a usage.sessions ≡ some state
    pub is_stopped : state.stopped ≡ true
    pub is_kept : until ≤ state.forget_at
    pub inactive : get a usage.active ≡ none

  pub prune-StoppedIn :
      (now : ℕ) (usage : Usage f) → now < until → StoppedIn usage → StoppedIn (prune f now usage)
  unfolding prune
  prune-StoppedIn now usage early s = record {
    state = s.state;
    found =
        get-retain_kept (is_remembered now) a s.state usage.sessions s.found
          (lt→ltb now s.state.forget_at (omega (arith, s.is_kept)));
    is_stopped = s.is_stopped;
    is_kept = s.is_kept;
    inactive = get-retain_fresh (later_than now) a usage.active s.inactive;
  }

  -- A change of another activation.
  write_other-StoppedIn :
      (b : Activation) (state : AdmissionSession) (usage usage' : Usage f)
      → same_activation b a ≡ false
      → usage'.sessions ≡ insert b state usage.sessions
      → get a usage'.active ≡ get a usage.active
      → StoppedIn usage
      → StoppedIn usage'
  write_other-StoppedIn b state usage usage' other sessions active s = record {
    state = s.state;
    found = rw sessions (get-insert_other a b state usage.sessions other ∙ s.found);
    is_stopped = s.is_stopped;
    is_kept = s.is_kept;
    inactive = active ∙ s.inactive;
  }

  reserve_new-StoppedIn :
      (retention now : ℕ) (limits : OrganizationLimits) (b : Activation) (usage : Usage f)
      → same_activation b a ≡ false
      → StoppedIn usage
      → StoppedIn (reserve_new f retention now limits b usage).1
  unfolding reserve_new
  reserve_new-StoppedIn retention now limits b usage other s =
      elim (Bool-cases (ltb (length usage.active) limits.max_active_actors)) [
        | inl free ↦ elim (Bool-cases (f.at_least (refilled f limits now usage) (f.from 1))) [
          | inl enough ↦
              rw (free, enough)
                (write_other-StoppedIn b _ usage _ other refl
                  (get-insert_other a b (saturating_add now launch_lease_ms) usage.active other) s)
          | inr few ↦ rw (free, few) s
        ]
        | inr full ↦ rw full s
      ]

  pub reserve_usage-StoppedIn :
      (retention now : ℕ) (limits : OrganizationLimits) (b : Activation) (usage : Usage f)
      → StoppedIn usage
      → StoppedIn (reserve_usage f retention now limits b usage).1
  unfolding reserve_usage
  reserve_usage-StoppedIn retention now limits b usage s =
      elim (Option-cases (get b usage.sessions)) [
        | inr (state, e) ↦ rw (e, reserve_usage) s
        | inl e ↦ elim (Bool-cases (same_activation b a)) [
          | inl same ↦
              let missing : get a usage.sessions ≡ none = rw (sym (beq-eq b a same)) e in
              absurd (ground (arith, s.found))
          | inr other ↦
              rw (e, reserve_usage) (reserve_new-StoppedIn retention now limits b usage other s)
        ]
      ]

  observe_own-StoppedIn :
      (retention now : ℕ) (report : LifecycleReport) (usage : Usage f)
      → StoppedIn usage
      → StoppedIn (observe_usage f retention now a report usage)
  unfolding observe_usage is_ignored
  observe_own-StoppedIn retention now report usage s =
      rw (s.found, observe_usage)
        (rw s.is_stopped (record {
          state = record s.state { stopped = true };
          found = get-insert_same a (record s.state { stopped = true }) usage.sessions;
          is_stopped = refl;
          is_kept = s.is_kept;
          inactive = s.inactive;
        }))

  pub observe_usage-StoppedIn :
      (retention now : ℕ) (b : Activation) (report : LifecycleReport) (usage : Usage f)
      → StoppedIn usage
      → StoppedIn (observe_usage f retention now b report usage)
  unfolding observe_usage
  observe_usage-StoppedIn retention now b report usage s = elim (Bool-cases (same_activation b a)) [
    | inl same ↦
        subst (λ c. StoppedIn (observe_usage f retention now c report usage))
          (sym (beq-eq b a same)) (observe_own-StoppedIn retention now report usage s)
    | inr other ↦
        elim (Bool-cases (is_ignored (session_or_default (get b usage.sessions)) report)) [
          | inl ignored ↦ rw ignored (write_other-StoppedIn b _ usage _ other refl refl s)
          | inr new ↦ elim (Bool-cases (is_stopped report.kind)) [
            | inl stop ↦
                rw (new, stop)
                  (write_other-StoppedIn b _ usage _ other refl
                    (get-remove a b usage.active ∙ rw other refl) s)
            | inr run ↦
                rw (new, run)
                  (write_other-StoppedIn b _ usage _ other refl
                    (get-insert_other a b (saturating_add now report_lease_ms) usage.active other)
                    s)
          ]
        ]
  ]

  pub forget-StoppedIn :
      (b : Activation) (usage : Usage f)
      → same_activation b a ≡ false
      → StoppedIn usage
      → StoppedIn (forget_activation f b usage)
  forget-StoppedIn b usage other s = record {
    state = s.state;
    found = get-remove a b usage.sessions ∙ rw other s.found;
    is_stopped = s.is_stopped;
    is_kept = s.is_kept;
    inactive = get-remove a b usage.active ∙ rw other s.inactive;
  }

  -- The report that stops the session.
  pub observe_stop-StoppedIn :
      (retention now : ℕ) (report : LifecycleReport) (usage : Usage f)
      → is_ignored (session_or_default (get a usage.sessions)) report ≡ false
      → is_stopped report.kind ≡ true
      → until ≤ saturating_add now retention
      → StoppedIn (observe_usage f retention now a report usage)
  unfolding observe_usage
  observe_stop-StoppedIn retention now report usage new stop kept =
      rw (new, stop)
        (record {
          state = record (reported retention now report) { stopped = true };
          found =
              get-insert_same a (record (reported retention now report) { stopped = true })
                usage.sessions;
          is_stopped = refl;
          is_kept = kept;
          inactive = get-remove a a usage.active ∙ rw (beq_refl a) refl;
        })
