-- ===== src/Ownership/Lawful.antt =====
-- What `register_activation` puts into the bucket.
use text.Mathlib.Text.{◌==◌ as str_eq}
use durable_actors.Prelude.{
  ℕ, ◌+◌, ◌≤◌, ◌<◌, ◌≡◌, refl, sym, ◌∙◌, ◌⊎◌, inl, inr, Bool, true, false, Option, none, some,
  arith, Result, ok, >>=-eq-ok, Bool-cases,
}
use durable_actors.Ownership.Types.{
  same_actor, HostLease, HostLeaseRequest, validate_duration, max_host_lease_duration_ms,
  same_backend, Ownership, same_session,
}
use durable_actors.Ownership.Loading.{LoadedSnapshot, reference_of, load_latest}
use durable_actors.Ownership.Activation.{
  recover_record, recover_sealed, recover_stream, Activation, Env, Stored, stored_record,
  stored_generation, new_lease, validate_activation, activation_record, attempt, claim_sealed,
  claim_unsealed, base_of, is_sealed, stamped, recover_activation,
}

-- The record may follow what was stored when `now` was read: it is the first, or the lease of the one
-- before it had run out and was another session's, for the same actor, region and backend.
abbrev pub Succeeds : Activation → Option Ownership → ℕ → Ownership → Type 0
Succeeds a none now owner = owner.epoch ≡ 1
Succeeds a (some previous) now owner =
    (owner.epoch ≡ previous.epoch + 1)
    × (previous.lease.expires_at_ms ≤ now)
    × (same_session previous.lease a.request.id a.request.session_id ≡ false)
    × (same_actor previous.actor a.actor ≡ true)
    × (str_eq previous.region a.region ≡ true)
    × (same_backend previous.persistence a.persistence ≡ true)

-- The lease that a request is given.
pub record IsLeaseOf (request : HostLeaseRequest) (now : ℕ) (lease : HostLease) : Type 0 where
  pub host : lease.id ≡ request.id
  pub session : lease.session_id ≡ request.session_id
  pub route : lease.route ≡ request.route
  pub expiry : lease.expires_at_ms ≡ now + request.duration_ms
  pub positive : 0 < request.duration_ms
  pub bounded : request.duration_ms ≤ max_host_lease_duration_ms

pub new_lease-IsLeaseOf :
    (request : HostLeaseRequest) (now : ℕ) (lease : HostLease)
    → new_lease request now ≡ ok lease
    → IsLeaseOf request now lease
unfolding new_lease validate_duration
new_lease-IsLeaseOf request now lease h = ground arith

validate_activation-ok :
    (a : Activation) (previous : Option Ownership) (now leased_at : ℕ) (owner : Ownership)
    → validate_activation a previous now ≡ ok tt
    → activation_record a previous leased_at ≡ ok owner
    → Succeeds a previous now owner
unfolding validate_activation activation_record
validate_activation-ok a none now leased_at owner v h = ground arith
validate_activation-ok a (some previous) now leased_at owner v h = ground arith

-- The state comes from nothing where there was no record; from the record's base where it was sealed; and
-- else from the base and the snapshot that was found in the stream of the record's actor and epoch.
abbrev pub Recovers : Env → Bool → Option Ownership → Result (Option LoadedSnapshot) → Type 0
Recovers env hinted none recovery = recovery ≡ ok none
Recovers env hinted (some previous) recovery =
    ((previous.sealed ≡ true)
      × ((snapshot : Option LoadedSnapshot)
          → recovery ≡ ok snapshot
          → load_latest env.position (env.read hinted) previous.base none ≡ ok snapshot))
    ⊎ ((previous.sealed ≡ false)
        × (((found : Option LoadedSnapshot) × (env.recovered hinted previous.actor previous.epoch
              ≡ ok found)
            × (recovery ≡ load_latest env.position (env.read hinted) previous.base found))))

-- A record that was put into the bucket over what had been read there.
pub record IsLawful (env : Env) (a : Activation) (hinted : Bool) (current : Stored)
    (owner : Ownership) (recovery : Result (Option LoadedSnapshot)) : Type 0 where
  pub replaced : env.replace hinted owner (stored_generation current) ≡ ok true
  pub follows : Succeeds a (stored_record current) (env.validated_at hinted) owner
  pub lease : IsLeaseOf a.request (env.leased_at hinted) owner.lease
  pub open_stream : owner.sealed ≡ false
  pub actor : owner.actor ≡ a.actor
  pub region : owner.region ≡ a.region
  pub recovered : Recovers env hinted (stored_record current) recovery
  pub base :
      ((is_sealed (stored_record current) ≡ true) × (owner.base ≡ base_of (stored_record current)))
      ⊎ ((snapshot : Option LoadedSnapshot) × (recovery ≡ ok snapshot)
          × (owner.base ≡ reference_of snapshot))

recover-sealed :
    (env : Env) (hinted : Bool) (previous : Ownership)
    → previous.sealed ≡ true
    → (snapshot : Option LoadedSnapshot) → recover_record env hinted previous ≡ ok snapshot
    → load_latest env.position (env.read hinted) previous.base none ≡ ok snapshot
unfolding recover_sealed
recover-sealed env hinted previous sealed snapshot h =
    let h' : recover_sealed env hinted previous ≡ ok snapshot = rw (sealed, recover_record) at h in
    let (found, loaded, rest) =
      >>=-eq-ok (load_latest env.position (env.read hinted) previous.base none) _ h' in
    let (_, _, same) = >>=-eq-ok (env.decoded hinted found) _ rest in loaded ∙ same

recover-stream :
    (env : Env) (hinted : Bool) (previous : Ownership)
    → previous.sealed ≡ false
    → recover_record env hinted previous ≡ recover_stream env hinted previous
recover-stream env hinted previous unsealed = rw (unsealed, recover_record) refl

sealed-Recovers :
    (env : Env) (hinted : Bool) (previous : Option Ownership)
    (recovery : Result (Option LoadedSnapshot))
    → is_sealed previous ≡ true
    → recovery ≡ recover_activation env hinted previous
    → Recovers env hinted previous recovery
sealed-Recovers env hinted none recovery sealed h = h
sealed-Recovers env hinted (some previous) recovery sealed h =
    inl (sealed, λ snapshot e. recover-sealed env hinted previous sealed snapshot (sym h ∙ e))

stream-Recovers :
    (env : Env) (hinted : Bool) (previous : Option Ownership)
    (recovery : Result (Option LoadedSnapshot)) (snapshot : Option LoadedSnapshot)
    → recover_activation env hinted previous ≡ ok snapshot
    → recovery ≡ ok snapshot
    → Recovers env hinted previous recovery
unfolding recover_stream
stream-Recovers env hinted none recovery snapshot h e = e ∙ sym h
stream-Recovers env hinted (some previous) recovery snapshot h e =
    elim (Bool-cases previous.sealed) [
      | inl sealed ↦
          inl (sealed, λ s e'. recover-sealed env hinted previous sealed s (h ∙ sym e ∙ e'))
      | inr unsealed ↦
          let (found, streamed, loaded) =
            >>=-eq-ok (env.recovered hinted previous.actor previous.epoch) _
              (sym (recover-stream env hinted previous unsealed) ∙ h) in
          inr (unsealed, (found, streamed, e ∙ sym loaded))
    ]

activation_record-fields :
    (a : Activation) (previous : Option Ownership) (now : ℕ) (owner : Ownership)
    → activation_record a previous now ≡ ok owner
    → (new_lease a.request now ≡ ok owner.lease)
      × (owner.sealed ≡ false)
      × (owner.actor ≡ a.actor)
      × (owner.region ≡ a.region)
      × (owner.base ≡ base_of previous)
unfolding activation_record
activation_record-fields a previous now owner h = ground arith

claim_sealed-eq :
    (env : Env) (hinted : Bool) (current : Stored) (owner claimed : Ownership)
    (recovery : Result (Option LoadedSnapshot))
    → claim_sealed env hinted current owner ≡ ok (some (claimed, recovery))
    → (claimed ≡ stamped env hinted owner)
      × (env.replace hinted (stamped env hinted owner) (stored_generation current) ≡ ok true)
      × (recovery ≡ recover_activation env hinted (stored_record current))
unfolding claim_sealed
claim_sealed-eq env hinted current owner claimed recovery h = ground arith

claim_unsealed-eq :
    (env : Env) (hinted : Bool) (current : Stored) (owner claimed : Ownership)
    (recovery : Result (Option LoadedSnapshot))
    → claim_unsealed env hinted current owner ≡ ok (some (claimed, recovery))
    → (snapshot : Option LoadedSnapshot) × (recover_activation env hinted (stored_record current)
        ≡ ok snapshot)
      × (claimed ≡ stamped env hinted (record owner { base = reference_of snapshot }))
      × (env.replace hinted
            (stamped env hinted (record owner { base = reference_of snapshot }))
            (stored_generation current)
          ≡ ok true)
      × (recovery ≡ ok snapshot)
unfolding claim_unsealed
claim_unsealed-eq env hinted current owner claimed recovery h =
    let (snapshot, found, h') =
      >>=-eq-ok (recover_activation env hinted (stored_record current)) _ h in
    (snapshot, found, ground arith, ground arith, ground arith)

module _ (env : Env) (a : Activation) (hinted : Bool) (current : Stored) (owner : Ownership)
    (valid : validate_activation a (stored_record current) (env.validated_at hinted) ≡ ok tt)
    (made : activation_record a (stored_record current) (env.leased_at hinted) ≡ ok owner) where
  succeeds : Succeeds a (stored_record current) (env.validated_at hinted) owner
  succeeds =
      validate_activation-ok a (stored_record current) _ (env.leased_at hinted) owner valid made

  -- A change of the base and the mutation alone.
  Succeeds-same :
      (claimed : Ownership)
      → claimed.epoch ≡ owner.epoch
      → Succeeds a (stored_record current) (env.validated_at hinted) claimed
  Succeeds-same claimed e = go (stored_record current) succeeds
    where
      go :
          (previous : Option Ownership)
          → Succeeds a previous (env.validated_at hinted) owner
          → Succeeds a previous (env.validated_at hinted) claimed
      go none s = e ∙ s
      go (some previous) s = (e ∙ s.0, s.1, s.2, s.3, s.4, s.5)

  lease_of : IsLeaseOf a.request (env.leased_at hinted) owner.lease
  lease_of =
      new_lease-IsLeaseOf a.request _ owner.lease
        (activation_record-fields a (stored_record current) _ owner made).0

  claim_sealed-IsLawful :
      (claimed : Ownership) (recovery : Result (Option LoadedSnapshot))
      → is_sealed (stored_record current) ≡ true
      → claim_sealed env hinted current owner ≡ ok (some (claimed, recovery))
      → IsLawful env a hinted current claimed recovery
  claim_sealed-IsLawful claimed recovery sealed h =
      let (e, replaced, recovered) = claim_sealed-eq env hinted current owner claimed recovery h in
      let (_, unsealed, actor, region, base) =
        activation_record-fields a (stored_record current) _ owner made in
      rw e (record {
        replaced = replaced;
        follows = Succeeds-same (stamped env hinted owner) refl;
        lease = lease_of;
        open_stream = unsealed;
        actor = actor;
        region = region;
        recovered = sealed-Recovers env hinted (stored_record current) recovery sealed recovered;
        base = inl (sealed, base);
      })

  claim_unsealed-IsLawful :
      (claimed : Ownership) (recovery : Result (Option LoadedSnapshot))
      → claim_unsealed env hinted current owner ≡ ok (some (claimed, recovery))
      → IsLawful env a hinted current claimed recovery
  claim_unsealed-IsLawful claimed recovery h =
      let (snapshot, found, e, replaced, recovered) =
        claim_unsealed-eq env hinted current owner claimed recovery h in
      let (_, unsealed, actor, region, base) =
        activation_record-fields a (stored_record current) _ owner made in
      rw e (record {
        replaced = replaced;
        follows =
            Succeeds-same (stamped env hinted (record owner { base = reference_of snapshot })) refl;
        lease = lease_of;
        open_stream = unsealed;
        actor = actor;
        region = region;
        recovered =
            stream-Recovers env hinted (stored_record current) recovery snapshot found recovered;
        base = inr (snapshot, recovered, refl);
      })

pub attempt-IsLawful :
    (env : Env) (a : Activation) (hinted : Bool) (current : Stored) (owner : Ownership)
    (recovery : Result (Option LoadedSnapshot))
    → attempt env a hinted current ≡ ok (some (owner, recovery))
    → IsLawful env a hinted current owner recovery
unfolding attempt
attempt-IsLawful env a hinted current owner recovery h =
    let (u, valid, h') =
      >>=-eq-ok (validate_activation a (stored_record current) (env.validated_at hinted)) _ h in
    let (made, ok_made, h'') =
      >>=-eq-ok (activation_record a (stored_record current) (env.leased_at hinted)) _ h' in
    elim (Bool-cases (is_sealed (stored_record current))) [
      | inl e ↦
          claim_sealed-IsLawful env a hinted current made valid ok_made owner recovery e
            (rw e at h'')
      | inr e ↦
          claim_unsealed-IsLawful env a hinted current made valid ok_made owner recovery
            (rw e at h'')
    ]
