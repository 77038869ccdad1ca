-- ===== src/Ownership/Uploads.antt =====
-- The snapshots that a session writes, in src/bucket/runtime.rs, and the checkpoint with which it seals
-- the record, in src/bucket/runtime/session.rs. The stores, and what an object's name says of its epoch
-- and version (`snapshot_position`), are arguments; a session that has no entry yet has the default one.
pub mod Order
pub mod Checkpoint
use text.Mathlib.Text.{◌==◌ as str_eq}
use durable_actors.Prelude.{
  ℕ, ◌+◌, String, Bool, true, false, not, ◌&&◌, ◌||◌, Option, none, some, ltb, ◌==◌, if◌then◌else◌,
  Result, ok, err, out_of_fuel, ◌>>=◌, ◌>>◌, ensure, context,
}
use durable_actors.Ownership.Types.{ActorKey, SnapshotRef, Ownership, same_session}
use durable_actors.Ownership.Loading.{LoadedSnapshot, Position, advance}

pub record StateStream : Type 0 where
  pub session : String
  pub prefix : String
  pub owner_epoch : ℕ
  pub base_version : ℕ

pub record WritePlan : Type 0 where
  pub state_version : ℕ
  pub object_name : String
  pub stream : StateStream

pub record UploadedSnapshots : Type 0 where
  pub started : ℕ
  pub completed : ℕ
  pub latest : Option SnapshotRef

abbrev pub same_stream : StateStream → StateStream → Bool
same_stream a b =
    str_eq a.session b.session
    && str_eq a.prefix b.prefix
    && a.owner_epoch == b.owner_epoch
    && a.base_version == b.base_version

abbrev pub base_version_of : Option SnapshotRef → ℕ
base_version_of none = 0
base_version_of (some base) = base.state_version

-- `Ownership::stream`; the prefix is what the names of objects make of the actor and the epoch.
unfoldable pub stream : (ActorKey → ℕ → Result String) → Ownership → Result StateStream
stream prefix_of owner = do
  prefix ← prefix_of owner.actor owner.epoch
  ok (record {
    session = owner.lease.session_id;
    prefix = prefix;
    owner_epoch = owner.epoch;
    base_version = base_version_of owner.base;
  })

-- `ensure_write_owner`, for the record that the host has of the actor.
unfoldable pub ensure_write_owner :
    (ActorKey → ℕ → Result String) → Option Ownership → StateStream → ℕ → Result (Unit {0})
ensure_write_owner prefix_of owned plan now = do
  owner ← context owned "actor is not locally activated"
  own ← stream prefix_of owner
  ensure (same_stream own plan && ltb now owner.lease.expires_at_ms)
      "actor write authority expired or changed"

-- `write_snapshot` up to the count of a start. `owned` is the check of the owner, `encoded` the
-- reference that the stream makes of the bytes, and `parent` the check of the snapshot that it builds on.
unfoldable pub prepare_write :
    Result (Unit {0}) → WritePlan → Result SnapshotRef → Result (Unit {0}) → Result SnapshotRef
prepare_write owned plan encoded parent = do
  owned
  snapshot ← encoded
  ensure (str_eq snapshot.object plan.object_name && snapshot.state_version == plan.state_version)
      "write plan does not match snapshot"
  parent
  ok snapshot

-- What `remember` makes of the uploads of the session, when the actor is loaded again.
abbrev pub remembered : Option LoadedSnapshot → UploadedSnapshots → UploadedSnapshots
remembered none u = u
remembered (some loaded) u = record u { latest = some loaded.reference }

abbrev pub begin_upload : UploadedSnapshots → UploadedSnapshots
begin_upload u = record u { started = u.started + 1 }

module _ (position : String → Position) where
  -- The rest of it, after the write of the object and the second check of the owner; other writes of the
  -- session may come between. An error leaves the counts unequal.
  unfoldable pub finish_upload :
      Result (Unit {0})
      → Result (Unit {0})
      → SnapshotRef
      → UploadedSnapshots
      → Result UploadedSnapshots
  finish_upload persisted owned snapshot u = do
    persisted
    owned
    latest ← advance position u.latest (some snapshot)
    ok (record u { completed = u.completed + 1; latest = latest })

  unfoldable pub upload_checkpoint : Ownership → UploadedSnapshots → Result (Option SnapshotRef)
  upload_checkpoint owner u = do
    ensure (u.started == u.completed) "snapshot uploads did not complete successfully"
    advance position owner.base u.latest

  -- `drain_activation`, with the finish of the snapshot store, which takes the record's stream.
  unfoldable pub drain_activation :
      Option Ownership
      → String
      → String
      → UploadedSnapshots
      → Result (Unit {0})
      → Result (Option SnapshotRef)
  drain_activation owned host session u finished = do
    owner ← context owned "actor is not locally activated"
    ensure (same_session owner.lease host session) "actor ownership changed"
    checkpoint ← upload_checkpoint owner u
    finished
    ok checkpoint
