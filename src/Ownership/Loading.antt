-- ===== src/Ownership/Loading.antt =====
-- How src/bucket/runtime.rs finds the newest snapshot of an actor: `advance` and `load_latest`. What an
-- object's name says of its epoch and version (`snapshot_position`) and the reads of the store are arguments.
use text.Mathlib.Text.{◌==◌ as str_eq}
use durable_actors.Prelude.{
  ℕ, String, Bool, true, false, not, ◌&&◌, ◌||◌, List, Option, none, some, ltb, ◌==◌, if◌then◌else◌,
  Result, ok, ◌>>=◌, ◌>>◌, ensure,
}
use durable_actors.Ownership.Types.{SnapshotRef}

pub record LoadedSnapshot : Type 0 where
  pub reference : SnapshotRef
  pub bytes : List ℕ

abbrev pub reference_of : Option LoadedSnapshot → Option SnapshotRef
reference_of none = none
reference_of (some s) = some s.reference

abbrev pub same_reference : SnapshotRef → SnapshotRef → Bool
same_reference a b =
    str_eq a.object b.object
    && a.state_version == b.state_version
    && str_eq a.request_id b.request_id
    && str_eq a.digest b.digest

-- The epoch and the version of an object; `none`, which is the least, if its name is no snapshot's.
abbrev pub Position : Type 0
Position = Option (ℕ × ℕ)

abbrev pub position_lt : Position → Position → Bool
position_lt a none = false
position_lt none (some b) = true
position_lt (some (epoch, version)) (some (epoch', version')) =
    ltb epoch epoch' || (epoch == epoch' && ltb version version')

abbrev pub position_eq : Position → Position → Bool
position_eq none none = true
position_eq none (some b) = false
position_eq (some a) none = false
position_eq (some (epoch, version)) (some (epoch', version')) =
    epoch == epoch' && version == version'

abbrev pub is_loaded : Option LoadedSnapshot → SnapshotRef → Bool
is_loaded none snapshot = false
is_loaded (some loaded) snapshot = same_reference loaded.reference snapshot

abbrev pub read_candidate :
    (SnapshotRef → Result (List ℕ))
    → Option LoadedSnapshot
    → Option SnapshotRef
    → Result (Option LoadedSnapshot)
read_candidate read loaded none = ok loaded
read_candidate read loaded (some snapshot) =
    if is_loaded loaded snapshot
    then ok loaded
    else (read snapshot >>= λ bytes. ok (some (record { reference = snapshot; bytes = bytes })))

module _ (position : String → Position) where
  abbrev pub agrees : Option SnapshotRef → SnapshotRef → Bool
  agrees none candidate = true
  agrees (some current) candidate =
      not (position_eq (position current.object) (position candidate.object))
      || same_reference current candidate

  abbrev pub is_newer : Option SnapshotRef → SnapshotRef → Bool
  is_newer none candidate = true
  is_newer (some current) candidate =
      position_lt (position current.object) (position candidate.object)

  unfoldable pub advance : Option SnapshotRef → Option SnapshotRef → Result (Option SnapshotRef)
  advance current none = ok current
  advance current (some candidate) = do
    ensure (agrees current candidate) "conflicting snapshot witnesses"
    ok (if is_newer current candidate then some candidate else current)

  -- `read` is `read_persisted` of an object that is there, with the check of its digest.
  unfoldable pub load_latest :
      (SnapshotRef → Result (List ℕ))
      → Option SnapshotRef
      → Option LoadedSnapshot
      → Result (Option LoadedSnapshot)
  load_latest read base loaded = do
    candidate ← advance base (reference_of loaded)
    read_candidate read loaded candidate
