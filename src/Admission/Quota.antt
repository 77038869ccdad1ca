-- ===== src/Admission/Quota.antt =====
-- The limits that a reservation keeps: src/control_plane/organization_limits/memory.rs.
use durable_actors.Prelude.{
  ℕ, ◌≤◌, ◌≡◌, refl, inl, inr, String, max, true, false, none, some, ltb, length, arith, Bool-cases,
  Option-cases,
}
use durable_actors.Prelude.Words.{saturating_add}
use durable_actors.Prelude.Maps.{
  get, string_eq, Unique, get-insert_same, get-insert_other, length-insert_le,
}
use durable_actors.Admission.{
  new_session, same_activation, launch_lease_ms, OrganizationLimits, Activation, activation_eq,
  Floats, AdmissionSession, Admission, admitted, already_stopped, over_quota, over_rate, Usage,
  Organizations, usage_or_default, prune, refilled, retry_after, reserve_new, reserve_usage,
  reserve,
}
use durable_actors.Admission.Pruning.{Pruned, prune-Pruned}

-- A reply to a reservation, with what it says of the usage before it and does to it.
pub data Reserved (f : Floats) (retention now : ℕ) (limits : OrganizationLimits) (a : Activation)
    (before after : Usage f) : Admission → Type 0 where
  known :
      (state : AdmissionSession)
      → get a before.sessions ≡ some state
      → state.stopped ≡ false
      → after ≡ before
      → Reserved f retention now limits a before after admitted
  started :
      get a before.sessions ≡ none
      → f.at_least (refilled f limits now before) (f.from 1) ≡ true
      → length after.active ≤ limits.max_active_actors
      → get a after.active ≡ some (saturating_add now launch_lease_ms)
      → get a after.sessions
        ≡ some (record {
          epoch = 0;
          sequence = 0;
          stopped = false;
          forget_at = saturating_add now retention;
        })
      → ((b : Activation)
          → same_activation a b ≡ false
          → (get b after.active ≡ get b before.active)
            × (get b after.sessions ≡ get b before.sessions))
      → after.tokens ≡ some (f.sub (refilled f limits now before) (f.from 1))
      → after.refilled_at ≡ max before.refilled_at now
      → Reserved f retention now limits a before after admitted
  stopped :
      (state : AdmissionSession)
      → get a before.sessions ≡ some state
      → state.stopped ≡ true
      → after ≡ before
      → Reserved f retention now limits a before after already_stopped
  full :
      get a before.sessions ≡ none
      → limits.max_active_actors ≤ length before.active
      → after ≡ before
      → Reserved f retention now limits a before after (over_quota limits.max_active_actors)
  too_fast :
      get a before.sessions ≡ none
      → f.at_least (refilled f limits now before) (f.from 1) ≡ false
      → after ≡ before
      → Reserved f retention now limits a before after
          (over_rate (retry_after f limits (refilled f limits now before)))

module _ (f : Floats) (retention now : ℕ) (limits : OrganizationLimits) (a : Activation) where
  reserve_new-Reserved :
      (usage : Usage f)
      → get a usage.sessions ≡ none
      → Reserved f retention now limits a usage
          (reserve_new f retention now limits a usage).1
          (reserve_new f retention now limits a usage).0
  unfolding reserve_new
  reserve_new-Reserved usage unknown =
      elim (Bool-cases (ltb (length usage.active) limits.max_active_actors)) [
        | inl free ↦ elim (Bool-cases (f.at_least (refilled f limits now usage) (f.from 1))) [
          | inl enough ↦
              rw (free, enough)
                (started unknown enough
                  (ground
                    (arith, length-insert_le a (saturating_add now launch_lease_ms) usage.active))
                  (get-insert_same a (saturating_add now launch_lease_ms) usage.active)
                  (get-insert_same a
                    (record new_session { forget_at = saturating_add now retention })
                    usage.sessions)
                  (λ b differs. (
                    get-insert_other b a _ usage.active differs,
                    get-insert_other b a _ usage.sessions differs,
                  ))
                  refl refl)
          | inr few ↦ rw (free, few) (too_fast unknown few refl)
        ]
        | inr taken ↦ rw taken (full unknown (ground arith) refl)
      ]

  reserve_usage-Reserved :
      (usage : Usage f)
      → Reserved f retention now limits a usage
          (reserve_usage f retention now limits a usage).1
          (reserve_usage f retention now limits a usage).0
  unfolding reserve_usage
  reserve_usage-Reserved usage = elim (Option-cases (get a usage.sessions)) [
    | inl unknown ↦ rw (unknown, reserve_usage) (reserve_new-Reserved usage unknown)
    | inr (state, e) ↦ elim (Bool-cases state.stopped) [
      | inl is_stopped ↦ rw (e, reserve_usage) (rw is_stopped (stopped state e is_stopped refl))
      | inr runs ↦ rw (e, reserve_usage) (rw runs (known state e runs refl))
    ]
  ]

-- The maps of the organization's usage have one entry for each activation. Then each reply to a
-- reservation is the one that this usage asks for without the leases that have expired and the sessions
-- that are to be forgotten, and with all others: a session that is known is admitted again without a
-- token, unless it has stopped; a new one is admitted when there is a token and a free slot, and then
-- the slots in use do not exceed the limit, its lease is set, its session remembered for the retention,
-- the token spent and the time of the refill kept, and no other slot or session changes; a
-- reservation that is refused changes nothing else. No other organization is touched.
pub reserve-Reserved :
    (f : Floats) (retention now : ℕ) (limits : OrganizationLimits) (a : Activation)
    (organizations : Organizations f)
    → Unique (usage_or_default f (get a.organization organizations)).active
    → Unique (usage_or_default f (get a.organization organizations)).sessions
    → ((before : Usage f) × Pruned f now
          (usage_or_default f (get a.organization organizations))
          before
        × Reserved f retention now limits a before
            (usage_or_default f
              (get a.organization (reserve f retention now limits a organizations).1))
            (reserve f retention now limits a organizations).0)
      × ((other : String)
          → string_eq.beq a.organization other ≡ false
          → get other (reserve f retention now limits a organizations).1 ≡ get other organizations)
unfolding reserve
reserve-Reserved f retention now limits a organizations slots sessions =
    let stored = usage_or_default f (get a.organization organizations) in
    let before = prune f now stored in
    let after = (reserve_usage f retention now limits a before).1 in
    (
      (
        before,
        prune-Pruned f now stored slots sessions,
        rw (get-insert_same a.organization after organizations)
            (reserve_usage-Reserved f retention now limits a before),
      ),
      λ other differs. get-insert_other other a.organization after organizations differs,
    )
