-- ===== src/Ownership/Protocol/Takeover.antt =====
-- How an actor is taken over when its owner is gone: src/bucket/runtime/activation.rs.
use text.Mathlib.Text.{◌==◌ as str_eq}
use durable_actors.Prelude.{
  ℕ, ◌+◌, ◌≤◌, ◌<◌, ◌≡◌, refl, inl, inr, Bool, true, false, Option, some, arith, Result, ok,
  Bool-cases,
}
use durable_actors.Prelude.Words.{u64_mod, checked_add_fits}
use durable_actors.Ownership.Types.{
  same_actor, same_backend, same_session, HostLeaseRequest, HostLease, validate_duration,
  max_host_lease_duration_ms, Ownership,
}
use durable_actors.Ownership.Loading.{LoadedSnapshot, reference_of}
use durable_actors.Ownership.Activation.{
  Activation, Env, attempt, new_lease, validate_activation, activation_record, claim_sealed,
  claim_unsealed, recover_record, recover_stream,
}
use durable_actors.Ownership.Protocol.{World, Reachable}
use durable_actors.Ownership.Protocol.Exclusion.{Reachable-Inv}

-- A request that names its host and its session, for a time that is allowed and does not overflow.
pub record IsRequest (request : HostLeaseRequest) (now : ℕ) : Type 0 where
  pub host : str_eq request.id "" ≡ false
  pub session : str_eq request.session_id "" ≡ false
  pub positive : 0 < request.duration_ms
  pub allowed : request.duration_ms ≤ max_host_lease_duration_ms
  pub fits : now + request.duration_ms < u64_mod

-- Another session, for the actor of the record in its region and on its backend.
pub record Takes (a : Activation) (owner : Ownership) : Type 0 where
  pub backend : same_backend owner.persistence a.persistence ≡ true
  pub actor : same_actor owner.actor a.actor ≡ true
  pub region : str_eq owner.region a.region ≡ true
  pub other_session : same_session owner.lease a.request.id a.request.session_id ≡ false

new_lease_granted :
    (request : HostLeaseRequest) (now : ℕ)
    → IsRequest request now
    → (lease : HostLease) × (new_lease request now ≡ ok lease)
unfolding new_lease validate_duration
new_lease_granted request now r = (
  record {
    id = request.id;
    session_id = request.session_id;
    route = request.route;
    expires_at_ms = now + request.duration_ms;
  },
  ground (
    arith,
    r.host,
    r.session,
    r.positive,
    r.allowed,
    checked_add_fits now request.duration_ms r.fits,
  ),
)

activation_allowed :
    (a : Activation) (owner : Ownership) (now : ℕ)
    → Takes a owner
    → owner.lease.expires_at_ms ≤ now
    → validate_activation a (some owner) now ≡ ok tt
unfolding validate_activation
activation_allowed a owner now t expired =
    ground (arith, t.backend, t.actor, t.region, t.other_session, expired)

activation_made :
    (a : Activation) (owner : Ownership) (now : ℕ)
    → IsRequest a.request now
    → owner.epoch + 1 < u64_mod
    → (claimed : Ownership) × (activation_record a (some owner) now ≡ ok claimed)
      × (claimed.epoch ≡ owner.epoch + 1)
unfolding activation_record
activation_made a owner now r fits =
    let (lease, granted) = new_lease_granted a.request now r in
    (
      record {
        persistence = a.persistence;
        sealed = false;
        lease = lease;
        mutation = "";
        actor = a.actor;
        epoch = owner.epoch + 1;
        region = a.region;
        base = owner.base;
      },
      rw (checked_add_fits owner.epoch 1 fits, granted) refl,
      refl,
    )

-- The attempt puts a record that follows the owner's.
abbrev pub SucceedsOver : Env → Activation → Bool → ℕ → Ownership → Type 0
SucceedsOver env a hinted g owner =
    (claimed : Ownership) × (recovery : Result (Option LoadedSnapshot)) × (attempt env a hinted
        (some (g, owner))
      ≡ ok (some (claimed, recovery)))
    × (claimed.epoch ≡ owner.epoch + 1)

recover_unsealed :
    (env : Env) (hinted : Bool) (owner : Ownership) (found : Result (Option LoadedSnapshot))
    → owner.sealed ≡ false
    → recover_record env hinted owner ≡ found
    → recover_stream env hinted owner ≡ found
recover_unsealed env hinted owner found unsealed recovered = simp unsealed at recovered

claimed_over :
    (env : Env) (a : Activation) (hinted : Bool) (g : ℕ) (owner : Ownership)
    (snapshot : Option LoadedSnapshot) (claimed : Ownership)
    → validate_activation a (some owner) (env.validated_at hinted) ≡ ok tt
    → activation_record a (some owner) (env.leased_at hinted) ≡ ok claimed
    → claimed.epoch ≡ owner.epoch + 1
    → recover_record env hinted owner ≡ ok snapshot
    → ((put_record : Ownership) → env.replace hinted put_record (some g) ≡ ok true)
    → SucceedsOver env a hinted g owner
unfolding attempt claim_sealed claim_unsealed
claimed_over env a hinted g owner snapshot claimed valid made epoch recovered swaps =
    elim (Bool-cases owner.sealed) [
      | inl sealed ↦
          let stamped' : Ownership = record claimed { mutation = env.mutation hinted } in
          (
            stamped',
            recover_record env hinted owner,
            rw (valid, made, sealed, swaps stamped') refl,
            epoch,
          )
      | inr unsealed ↦
          let stamped' : Ownership = record claimed {
            mutation = env.mutation hinted;
            base = reference_of snapshot;
          } in
          (
            stamped',
            ok snapshot,
            rw (valid, made)
                (simp
                  (
                    unsealed,
                    recover_unsealed env hinted owner (ok snapshot) unsealed recovered,
                    swaps stamped',
                  )
                  refl),
            epoch,
          )
    ]

-- No lease outlives the time by more than 60 s; so an owner that stops renewing can be replaced after
-- that: an attempt that is made over the stored record at least 60 s later succeeds, with the next
-- epoch, when it is another session's, for the same actor, region and backend, with a valid request, the
-- epoch does not overflow, the state of the record can be recovered, and the bucket takes the swap.
pub lease_runs_out :
    (w : World) (g : ℕ) (owner : Ownership) (env : Env) (a : Activation) (hinted : Bool)
    (snapshot : Option LoadedSnapshot)
    → Reachable w
    → w.stored ≡ some (g, owner)
    → w.now + 60_000 ≤ env.validated_at hinted
    → Takes a owner
    → IsRequest a.request (env.leased_at hinted)
    → owner.epoch + 1 < u64_mod
    → recover_record env hinted owner ≡ ok snapshot
    → ((put_record : Ownership) → env.replace hinted put_record (some g) ≡ ok true)
    → (owner.lease.expires_at_ms ≤ w.now + 60_000) × SucceedsOver env a hinted g owner
lease_runs_out w g owner env a hinted snapshot reach e later takes request fits recovered swaps =
    let bound : owner.lease.expires_at_ms ≤ w.now + 60_000 =
      rw e at (Reachable-Inv w reach).lease in
    let valid =
      activation_allowed a owner (env.validated_at hinted) takes (omega (arith, bound, later)) in
    let (claimed, made, epoch) = activation_made a owner (env.leased_at hinted) request fits in
    (bound, claimed_over env a hinted g owner snapshot claimed valid made epoch recovered swaps)
