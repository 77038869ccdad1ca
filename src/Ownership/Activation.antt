-- ===== src/Ownership/Activation.antt =====
-- src/bucket/runtime/activation.rs: claiming, renewing and releasing the ownership of an actor. Storage,
-- clock and UUIDs are the environment's; the checks of the actor's and the region's names are an
-- argument, and logging is left out. The prefetched checkpoint, which only speeds up the restore, is
-- left out too.
use text.Mathlib.Text.{◌==◌ as str_eq}
use durable_actors.Prelude.{
  ℕ, String, Bool, true, false, not, ◌&&◌, ◌||◌, List, Option, none, some, ltb, leb, ◌==◌,
  if◌then◌else◌, Result, ok, err, out_of_fuel, ◌>>=◌, ◌>>◌, ensure, context,
}
use durable_actors.Prelude.Words.{checked_add}
use durable_actors.Ownership.Types.{
  ActorKey, same_actor, HostLease, HostLeaseRequest, validate_duration, SnapshotStoreConfig,
  same_backend, SnapshotRef, Ownership, same_session,
}
use durable_actors.Ownership.Loading.{Position, LoadedSnapshot, reference_of, load_latest}

pub record OwnershipHint : Type 0 where
  pub generation : ℕ
  pub owner : Ownership

-- The call's arguments, with the configured persistence of the host.
pub record Activation : Type 0 where
  pub persistence : SnapshotStoreConfig
  pub actor : ActorKey
  pub request : HostLeaseRequest
  pub region : String
  pub new_actor : Bool

-- A generation of the ownership object, and what it holds.
abbrev pub Stored : Type 0
Stored = Option (ℕ × Ownership)

abbrev pub stored_record : Stored → Option Ownership
stored_record none = none
stored_record (some (g, record')) = some record'

abbrev pub stored_generation : Stored → Option ℕ
stored_generation none = none
stored_generation (some (g, record')) = some g

abbrev identity_present : HostLeaseRequest → Bool
identity_present request = not (str_eq request.id "") && not (str_eq request.session_id "")

unfoldable pub new_lease : HostLeaseRequest → ℕ → Result HostLease
new_lease request now = do
  validate_duration request
  ensure (identity_present request) "activation identity missing"
  expires ← context (checked_add now request.duration_ms) "lease expiration overflow"
  ok (record {
    id = request.id;
    session_id = request.session_id;
    route = request.route;
    expires_at_ms = expires;
  })

unfoldable pub validate_activation : Activation → Option Ownership → ℕ → Result (Unit {0})
validate_activation a none now = ok tt
validate_activation a (some owner) now = do
  ensure (same_backend owner.persistence a.persistence)
      "actor persistence configuration changed; an explicit state migration is required"
  ensure (same_actor owner.actor a.actor && str_eq owner.region a.region)
      "ownership scope cannot change"
  ensure (not (same_session owner.lease a.request.id a.request.session_id))
      "activation session cannot be reused"
  ensure (leb owner.lease.expires_at_ms now) "previous owner lease is still active"

abbrev pub next_epoch : Option Ownership → Option ℕ
next_epoch none = some 1
next_epoch (some owner) = checked_add owner.epoch 1

abbrev pub base_of : Option Ownership → Option SnapshotRef
base_of none = none
base_of (some owner) = owner.base

unfoldable pub activation_record : Activation → Option Ownership → ℕ → Result Ownership
activation_record a current now = do
  epoch ← context (next_epoch current) "owner epoch overflow"
  lease ← new_lease a.request now
  ok (record {
    persistence = a.persistence;
    sealed = false;
    lease = lease;
    mutation = "";
    actor = a.actor;
    epoch = epoch;
    region = a.region;
    base = base_of current;
  })

-- What the environment does in the attempt with the hint (`true`) and in the one without. `recovered` is
-- the last snapshot in the stream that an actor and an epoch name, `read` an object that is there and has
-- its digest, and `position` what an object's name says of its epoch and version.
pub record Env : Type 0 where
  pub load : Result Stored
  pub validated_at : Bool → ℕ
  pub leased_at : Bool → ℕ
  pub mutation : Bool → String
  pub recovered : Bool → ActorKey → ℕ → Result (Option LoadedSnapshot)
  pub position : String → Position
  pub read : Bool → SnapshotRef → Result (List ℕ)
  -- Whether the snapshot could be decoded, where that is tried, which depends on the checkpoint's time.
  pub decoded : Bool → Option LoadedSnapshot → Result (Unit {0})
  pub replace : Bool → Ownership → Option ℕ → Result Bool
  pub start : Ownership → Result (Unit {0})

-- `replace_activation`: every write of the object is made distinct by a fresh UUID.
abbrev pub stamped : Env → Bool → Ownership → Ownership
stamped env hinted owner = record owner { mutation = env.mutation hinted }

abbrev pub replace_activation : Env → Bool → Ownership → Option ℕ → Result Bool
replace_activation env hinted owner expected =
    env.replace hinted (stamped env hinted owner) expected

abbrev pub is_sealed : Option Ownership → Bool
is_sealed none = true
is_sealed (some owner) = owner.sealed

-- The branches of `recover_activation`: a sealed record is read from its base; of one that is not, the
-- stream, which its actor and epoch name, is recovered first.
unfoldable pub recover_stream : Env → Bool → Ownership → Result (Option LoadedSnapshot)
recover_stream env hinted owner = do
  found ← env.recovered hinted owner.actor owner.epoch
  load_latest env.position (env.read hinted) owner.base found

-- The checkpoint that is fetched beside it is left out.
unfoldable pub recover_sealed : Env → Bool → Ownership → Result (Option LoadedSnapshot)
recover_sealed env hinted owner = do
  found ← load_latest env.position (env.read hinted) owner.base none
  env.decoded hinted found
  ok found

abbrev pub recover_record : Env → Bool → Ownership → Result (Option LoadedSnapshot)
recover_record env hinted owner =
    if owner.sealed then recover_sealed env hinted owner else recover_stream env hinted owner

-- `recover_activation`
abbrev pub recover_activation : Env → Bool → Option Ownership → Result (Option LoadedSnapshot)
recover_activation env hinted none = ok none
recover_activation env hinted (some owner) = recover_record env hinted owner

abbrev pub Claim : Type 0
Claim = Ownership × Result (Option LoadedSnapshot)

-- The write of a new record: beside the recovery where the base is sealed, whose failure is dealt
-- with afterwards; after it, and with what it found, where the base is not. `none`: the object had
-- changed.
unfoldable pub claim_sealed : Env → Bool → Stored → Ownership → Result (Option Claim)
claim_sealed env hinted current owner = do
  replaced ← replace_activation env hinted owner (stored_generation current)
  ok (
      if replaced
      then some (stamped env hinted owner, recover_activation env hinted (stored_record current))
      else none)

unfoldable pub claim_unsealed : Env → Bool → Stored → Ownership → Result (Option Claim)
claim_unsealed env hinted current owner = do
  snapshot ← recover_activation env hinted (stored_record current)
  let based = record owner { base = reference_of snapshot }
  replaced ← replace_activation env hinted based (stored_generation current)
  ok (if replaced then some (stamped env hinted based, ok snapshot) else none)

-- One round of the loop in `register_activation`: the record that was put, with the recovered state,
-- or `none` if the object had changed.
unfoldable pub attempt : Env → Activation → Bool → Stored → Result (Option Claim)
attempt env a hinted current = do
  validate_activation a (stored_record current) (env.validated_at hinted)
  owner ← activation_record a (stored_record current) (env.leased_at hinted)
  (if is_sealed (stored_record current)
      then claim_sealed env hinted current owner
      else claim_unsealed env hinted current owner)

-- The hint is used only for a sealed record of this actor and region whose lease has expired.
unfoldable pub usable_hint : Activation → ℕ → Option OwnershipHint → Option OwnershipHint
usable_hint a now none = none
usable_hint a now (some hint) =
    if hint.owner.sealed
      && ltb 0 hint.generation
      && same_actor hint.owner.actor a.actor
      && str_eq hint.owner.region a.region
      && leb hint.owner.lease.expires_at_ms now
      && not (same_session hint.owner.lease a.request.id a.request.session_id)
    then some hint
    else none

-- The end of `register_activation`, with the checkpoint with which the lease is released if the
-- recovery failed.
pub record Registered : Type 0 where
  pub result : Result Claim
  pub released : Option (Option SnapshotRef)

abbrev failed_with : Result Claim → Registered
failed_with r = record { result = r; released = none }

unfoldable pub finish_activation : Env → Claim → Registered
finish_activation env (owner, ok snapshot) =
    failed_with (do env.start owner; ok (owner, ok snapshot))
finish_activation env (owner, err e) = record { result = err e; released = some owner.base }
finish_activation env (owner, out_of_fuel) = record {
  result = out_of_fuel;
  released = some owner.base;
}

abbrev pub conclude : Env → Result (Option Claim) → Registered → Registered
conclude env (ok none) otherwise = otherwise
conclude env (ok (some claim)) otherwise = finish_activation env claim
conclude env (err e) otherwise = failed_with (err e)
conclude env out_of_fuel otherwise = failed_with out_of_fuel

abbrev pub changed_concurrently : Registered
changed_concurrently = failed_with (err "actor activation changed concurrently")

-- The round without a hint; it is the last, whether or not one with the hint came before it.
unfoldable pub register_unhinted : Env → Activation → Bool → Registered
register_unhinted env a read_first =
    let loaded = if read_first then env.load else ok none in
    let round = (do current ← loaded; attempt env a false current) in
    conclude env round changed_concurrently

unfoldable pub register_hinted : Env → Activation → Option OwnershipHint → Registered
register_hinted env a none = register_unhinted env a (not a.new_actor)
register_hinted env a (some hint) =
    conclude env (attempt env a true (some (hint.generation, hint.owner)))
      (register_unhinted env a true)

abbrev pub once_checked : Result (Unit {0}) → Registered → Registered
once_checked (ok u) registered = registered
once_checked (err e) registered = failed_with (err e)
once_checked out_of_fuel registered = failed_with out_of_fuel

unfoldable pub register_activation :
    Env → Activation → Result (Unit {0}) → ℕ → Option OwnershipHint → Registered
register_activation env a names_valid now hint =
    once_checked (names_valid >> validate_duration a.request)
      (register_hinted env a (usable_hint a now hint))

-- `renew_activation` up to the write: the record that is put, with its new lease.
unfoldable pub renewed : ActorKey → HostLeaseRequest → Ownership → ℕ → ℕ → Result Ownership
renewed actor request owner now leased_at = do
  ensure (same_actor owner.actor actor && same_session owner.lease request.id request.session_id)
      "actor ownership changed"
  ensure (ltb now owner.lease.expires_at_ms) "expired activation cannot renew"
  ensure (str_eq owner.lease.route request.route) "activation route cannot change"
  lease ← new_lease request leased_at
  ok (record owner { lease = lease })

-- One round of `release_with_checkpoint`: `none` if there is nothing to release.
unfoldable pub released :
    String → String → Option (Option SnapshotRef) → Ownership → Option Ownership
released host session checkpoint owner =
    let ended = record owner { lease = record owner.lease { expires_at_ms = 0 } } in
    if not (same_session owner.lease host session) || owner.lease.expires_at_ms == 0
    then none
    else some (elim checkpoint [
      | none ↦ ended
      | some snapshot ↦ record ended { base = snapshot; sealed = true }
    ])
