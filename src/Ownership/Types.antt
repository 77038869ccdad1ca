-- ===== src/Ownership/Types.antt =====
-- The values of the ownership protocol: src/bucket/runtime.rs, src/host_leases.rs,
-- src/bucket/snapshots.rs, src/storage/stream.rs.
use text.Mathlib.Text.{◌==◌ as str_eq}
use text.Mathlib.TextEquality.{eq_iff}
use durable_actors.Prelude.{
  ℕ, ◌≡◌, String, Bool, true, false, ◌&&◌, List, [], ◌∷◌, Option, none, some, ltb, leb, Result,
  ◌>>◌, ensure, arith, ◌↔◌,
}
use durable_actors.Prelude.Maps.{Eq}

pub record ActorKey : Type 0 where
  pub project_id : String
  pub actor_name : String
  pub actor_id : String

abbrev pub same_actor : ActorKey → ActorKey → Bool
same_actor a b =
    str_eq a.project_id b.project_id
    && str_eq a.actor_name b.actor_name
    && str_eq a.actor_id b.actor_id

pub str_eq→eq : (a b : String) → str_eq a b ≡ true → a ≡ b
str_eq→eq a b h = (eq_iff a b).0 h

same_actor-eq : (a b : ActorKey) → same_actor a b ≡ true → a ≡ b
same_actor-eq a b h =
    let project : a.project_id ≡ b.project_id = ground (arith, eq_iff a.project_id b.project_id) in
    let name : a.actor_name ≡ b.actor_name = ground (arith, eq_iff a.actor_name b.actor_name) in
    let id : a.actor_id ≡ b.actor_id = ground (arith, eq_iff a.actor_id b.actor_id) in
    λ i. record { project_id = project i; actor_name = name i; actor_id = id i }

same_actor_refl : (a : ActorKey) → same_actor a a ≡ true
same_actor_refl a = ground (
  arith,
  eq_iff a.project_id a.project_id,
  eq_iff a.actor_name a.actor_name,
  eq_iff a.actor_id a.actor_id,
)

pub same_actor_iff : (a b : ActorKey) → (same_actor a b ≡ true) ↔ (a ≡ b)
same_actor_iff a b = (same_actor-eq a b, λ e. rw e (same_actor_refl b))

instance abbrev pub actor_eq : Eq ActorKey
actor_eq = record { beq = same_actor; beq_iff = same_actor_iff }

pub record HostLease : Type 0 where
  pub id : String
  pub session_id : String
  pub route : String
  pub expires_at_ms : ℕ

pub record HostLeaseRequest : Type 0 where
  pub id : String
  pub session_id : String
  pub route : String
  pub duration_ms : ℕ

abbrev pub max_host_lease_duration_ms : ℕ
max_host_lease_duration_ms = 60_000

unfoldable pub validate_duration : HostLeaseRequest → Result (Unit {0})
validate_duration request = do
  ensure (ltb 0 request.duration_ms) "host lease duration must be positive"
  ensure (leb request.duration_ms max_host_lease_duration_ms)
      "host lease duration must not exceed 60000ms"

pub record RapidBucket : Type 0 where
  pub bucket : String
  pub zone : String

pub data RapidPlacement : Type 0 where
  all_zones nearest : RapidPlacement

pub record ArchiveBatchConfig : Type 0 where
  pub bytes : ℕ
  pub interval_ms : ℕ

pub data SnapshotStoreConfig : Type 0 where
  local : SnapshotStoreConfig
  rapid : List RapidBucket → String → ArchiveBatchConfig → RapidPlacement → SnapshotStoreConfig

unfoldable pub rapid_settings : SnapshotStoreConfig → Option (List RapidBucket × String)
rapid_settings local = none
rapid_settings (rapid buckets archive_bucket archive_batch placement) =
    some (buckets, archive_bucket)

abbrev same_buckets : List RapidBucket → List RapidBucket → Bool
same_buckets [] [] = true
same_buckets [] (b ∷ bs) = false
same_buckets (a ∷ as') [] = false
same_buckets (a ∷ as') (b ∷ bs) =
    str_eq a.bucket b.bucket && str_eq a.zone b.zone && same_buckets as' bs

abbrev same_settings :
    Option (List RapidBucket × String) → Option (List RapidBucket × String) → Bool
same_settings none none = true
same_settings none (some b) = false
same_settings (some a) none = false
same_settings (some (xs, a)) (some (ys, b)) = same_buckets xs ys && str_eq a b

-- The placement and the batch sizes are left out.
unfoldable pub same_backend : SnapshotStoreConfig → SnapshotStoreConfig → Bool
unfolding rapid_settings
same_backend a b = same_settings (rapid_settings a) (rapid_settings b)

pub record SnapshotRef : Type 0 where
  pub object : String
  pub state_version : ℕ
  pub request_id : String
  pub digest : String

pub record Ownership : Type 0 where
  pub persistence : SnapshotStoreConfig
  pub sealed : Bool
  pub lease : HostLease
  pub mutation : String
  pub actor : ActorKey
  pub epoch : ℕ
  pub region : String
  pub base : Option SnapshotRef

-- The session of a lease is the host and its session ID.
abbrev pub same_session : HostLease → String → String → Bool
same_session lease host session = str_eq lease.id host && str_eq lease.session_id session
