-- ===== src/Examples/Uploads.antt =====
-- A session that writes two snapshots and is sealed: src/bucket/runtime/session.rs.
use text.Mathlib.Text.{◌==◌ as str_eq}
use durable_actors.Prelude.{
  ℕ, ◌≡◌, refl, arith, List, err, String, [], ◌∷◌, Option, none, some, if◌then◌else◌, All, ok,
}
use durable_actors.Ownership.Types.{SnapshotRef}
use durable_actors.Ownership.Loading.{Position, LoadedSnapshot, load_latest, advance}
use durable_actors.Ownership.Uploads.{finish_upload, upload_checkpoint, UploadedSnapshots}
use durable_actors.Ownership.Uploads.Order.{Reaches}
use durable_actors.Ownership.Uploads.Checkpoint.{
  Lists, loads, Session, opens, begins, finishes, upload_checkpoint-Reaches,
}
use durable_actors.Examples.Ownership.{by_a}

abbrev position : String → Position
position object = if str_eq object "1" then some (1, 1) else some (1, 2)

abbrev snapshot : String → ℕ → SnapshotRef
snapshot object version = record {
  object = object;
  state_version = version;
  request_id = "r";
  digest = "d";
}

-- The store lists the object of the second write, which it has before that write is acknowledged.
abbrev listed : List SnapshotRef → ℕ → Option LoadedSnapshot
listed written time = some (record { reference = snapshot "2" 2; bytes = [] })

listed-Lists : Lists position listed
listed-Lists [] time = tt
listed-Lists (r ∷ written) time = (ground arith, listed-Lists written time)

load-2 : load_latest position (λ r. err "unavailable") none (listed [] 0) ≡ ok (listed [] 0)
unfolding load_latest advance
load-2 = refl

abbrev uploads : ℕ → ℕ → Option SnapshotRef → UploadedSnapshots
uploads started completed latest = record {
  started = started;
  completed = completed;
  latest = latest;
}

finish-1 :
    finish_upload position (ok tt) (ok tt) (snapshot "1" 1) (uploads 1 0 none)
    ≡ ok (uploads 1 1 (some (snapshot "1" 1)))
unfolding finish_upload advance
finish-1 = refl

finish-2 :
    finish_upload position (ok tt) (ok tt) (snapshot "2" 2) (uploads 2 1 (some (snapshot "2" 2)))
    ≡ ok (uploads 2 2 (some (snapshot "2" 2)))
unfolding finish_upload advance
finish-2 = refl

two_writes :
    Session position listed none none
      (snapshot "2" 2 ∷ snapshot "1" 1 ∷ [])
      0
      (uploads 2 2 (some (snapshot "2" 2)))
two_writes =
    finishes (ok tt) (ok tt) (snapshot "2" 2) _
      (loads (λ r. err "unavailable") 0 (listed [] 0)
        (begins (finishes (ok tt) (ok tt) (snapshot "1" 1) _ (begins opens) finish-1)) load-2)
      finish-2

sealed :
    upload_checkpoint position by_a (uploads 2 2 (some (snapshot "2" 2)))
    ≡ ok (some (snapshot "2" 2))
unfolding upload_checkpoint advance
sealed = refl

upload_checkpoint-Reaches_example :
    (◌≡◌ {A = ℕ} 0 0)
    × All (λ r. Reaches position r (some (snapshot "2" 2))) (snapshot "2" 2 ∷ snapshot "1" 1 ∷ [])
    × ((r : SnapshotRef) → Reaches position r none → Reaches position r (some (snapshot "2" 2)))
    × ((r : SnapshotRef)
        → Reaches position r by_a.base
        → Reaches position r (some (snapshot "2" 2)))
upload_checkpoint-Reaches_example =
    upload_checkpoint-Reaches position listed none none (snapshot "2" 2 ∷ snapshot "1" 1 ∷ []) 0
      (uploads 2 2 (some (snapshot "2" 2))) by_a (some (snapshot "2" 2)) listed-Lists
      (λ r reaches. reaches) two_writes sealed
