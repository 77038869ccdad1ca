-- ===== src/Ownership/Uploads/Checkpoint.antt =====
-- The checkpoint of a session, after any snapshots that it wrote: src/bucket/runtime/session.rs.
use text.Mathlib.TextEquality.{eq_iff}
use durable_actors.Prelude.{
  ℕ, suc, inl, inr, Bool-cases, none, >>=-eq-ok, ◌+◌, ◌≡◌, refl, String, List, [], ◌∷◌, Option,
  some, arith, ◌==◌, ==_iff, All, Result, ok, ensure-eq-ok,
}
use durable_actors.Ownership.Types.{SnapshotRef, Ownership}
use durable_actors.Ownership.Loading.{
  LoadedSnapshot, Position, advance, reference_of, same_reference, read_candidate, load_latest,
}
use durable_actors.Ownership.Uploads.{
  UploadedSnapshots, remembered, begin_upload, finish_upload, upload_checkpoint,
}
use durable_actors.Ownership.Uploads.Order.{
  ok-injective, Reaches, position_lt_irrefl, advance-Reaches,
}

abbrev pub activated : Option SnapshotRef → UploadedSnapshots
activated restored = record { started = 0; completed = 0; latest = restored }

module _ (position : String → Position) where
  -- The uploads of a session that restored a snapshot: those that were acknowledged, the newest first, and
  -- the number of those that are not finished, or failed. Whenever the actor is loaded again, with any reads
  -- of the store, the snapshot that is found takes the place of the latest one. `listed` is the newest object
  -- that the store lists of the stream, as of those acknowledged, at some time; `base` is the record's.
  pub data Session (listed : List SnapshotRef → ℕ → Option LoadedSnapshot)
      (base restored : Option SnapshotRef) : List SnapshotRef → ℕ → UploadedSnapshots → Type 0 where
    opens : Session listed base restored [] 0 (activated restored)
    begins :
        {written : List SnapshotRef} {unfinished : ℕ} {u : UploadedSnapshots}
        → Session listed base restored written unfinished u
        → Session listed base restored written (suc unfinished) (begin_upload u)
    finishes :
        {written : List SnapshotRef} {unfinished : ℕ} {u : UploadedSnapshots}
        (persisted owned : Result (Unit {0})) (snapshot : SnapshotRef) (u' : UploadedSnapshots)
        → Session listed base restored written (suc unfinished) u
        → finish_upload position persisted owned snapshot u ≡ ok u'
        → Session listed base restored (snapshot ∷ written) unfinished u'
    loads :
        {written : List SnapshotRef} {unfinished : ℕ} {u : UploadedSnapshots}
        (read : SnapshotRef → Result (List ℕ)) (time : ℕ) (loaded : Option LoadedSnapshot)
        → Session listed base restored written unfinished u
        → load_latest position read base (listed written time) ≡ ok loaded
        → Session listed base restored written unfinished (remembered loaded u)

  record Inv (restored : Option SnapshotRef) (written : List SnapshotRef) (unfinished : ℕ)
      (u : UploadedSnapshots) : Type 0 where
    counts : u.started ≡ u.completed + unfinished
    written_reached : All (λ r. Reaches position r u.latest) written
    restored_reached : (r : SnapshotRef) → Reaches position r restored → Reaches position r u.latest

  finish_upload-eq-ok :
      (persisted owned : Result (Unit {0})) (snapshot : SnapshotRef) (u u' : UploadedSnapshots)
      → finish_upload position persisted owned snapshot u ≡ ok u'
      → (advance position u.latest (some snapshot) ≡ ok u'.latest)
        × (u'.started ≡ u.started)
        × (u'.completed ≡ u.completed + 1)
  unfolding finish_upload
  finish_upload-eq-ok persisted owned snapshot u u' h =
      let (_, _, h1) = >>=-eq-ok persisted _ h in
      let (_, _, h2) = >>=-eq-ok owned _ h1 in
      let (latest, advanced, h3) = >>=-eq-ok (advance position u.latest (some snapshot)) _ h2 in
      let e : record u { completed = u.completed + 1; latest = latest } ≡ u' = cc in
      (rw⁻¹ e advanced, rw⁻¹ e refl, rw⁻¹ e refl)

  All-Reaches :
      (a b : Option SnapshotRef) (written : List SnapshotRef)
      → ((r : SnapshotRef) → Reaches position r a → Reaches position r b)
      → All (λ r. Reaches position r a) written
      → All (λ r. Reaches position r b) written
  All-Reaches a b [] up all = tt
  All-Reaches a b (w ∷ written) up all = (up w all.0, All-Reaches a b written up all.1)

  -- The store lists an object of the stream that is as new as each one that was acknowledged.
  abbrev pub Lists : (List SnapshotRef → ℕ → Option LoadedSnapshot) → Type 0
  Lists listed =
      (written : List SnapshotRef) (time : ℕ)
      → All (λ r. Reaches position r (reference_of (listed written time))) written

  read_candidate-reference :
      (read : SnapshotRef → Result (List ℕ)) (found : Option LoadedSnapshot)
      (candidate : Option SnapshotRef) (loaded : Option LoadedSnapshot) (r : SnapshotRef)
      → read_candidate read found candidate ≡ ok loaded
      → Reaches position r candidate
      → Reaches position r (reference_of loaded)
  read_candidate-reference read found none loaded r h reaches = absurd reaches
  read_candidate-reference read none (some snapshot) loaded r h reaches =
      let (bytes, _, h') = >>=-eq-ok (read snapshot) _ h in
      let e : some (record { reference = snapshot; bytes = bytes }) ≡ loaded = cc in rw⁻¹ e reaches
  read_candidate-reference read (some found) (some snapshot) loaded r h reaches =
      elim (Bool-cases (same_reference found.reference snapshot)) [
        | inl same ↦
            let e : some found ≡ loaded = ok-injective (rw same at h) in
            let object : found.reference.object ≡ snapshot.object =
              ground (arith, same, eq_iff found.reference.object snapshot.object) in
            rw⁻¹ e (rw object reaches)
        | inr differs ↦
            let (bytes, _, h') = >>=-eq-ok (read snapshot) _ (rw differs at h) in
            let e : some (record { reference = snapshot; bytes = bytes }) ≡ loaded = cc in
            rw⁻¹ e reaches
      ]

  load_latest-Reaches :
      (read : SnapshotRef → Result (List ℕ)) (base : Option SnapshotRef)
      (found loaded : Option LoadedSnapshot)
      → load_latest position read base found ≡ ok loaded
      → ((r : SnapshotRef) → Reaches position r base → Reaches position r (reference_of loaded))
        × ((r : SnapshotRef)
            → Reaches position r (reference_of found)
            → Reaches position r (reference_of loaded))
  unfolding load_latest
  load_latest-Reaches read base found loaded h =
      let (candidate, advanced, h') = >>=-eq-ok (advance position base (reference_of found)) _ h in
      let (keeps, takes) = advance-Reaches position base (reference_of found) candidate advanced in
      (
        λ r reaches. read_candidate-reference read found candidate loaded r h' (keeps r reaches),
        λ r reaches. read_candidate-reference read found candidate loaded r h' (takes r reaches),
      )

  remembered-Reaches :
      (loaded : Option LoadedSnapshot) (u : UploadedSnapshots) (r : SnapshotRef)
      → Reaches position r (reference_of loaded)
      → Reaches position r (remembered loaded u).latest
  remembered-Reaches none u r reaches = absurd reaches
  remembered-Reaches (some loaded) u r reaches = reaches

  remembered-counts :
      (loaded : Option LoadedSnapshot) (u : UploadedSnapshots) (unfinished : ℕ)
      → u.started ≡ u.completed + unfinished
      → (remembered loaded u).started ≡ (remembered loaded u).completed + unfinished
  remembered-counts none u unfinished h = h
  remembered-counts (some loaded) u unfinished h = h

  Session-Inv :
      {listed : List SnapshotRef → ℕ → Option LoadedSnapshot} {base restored : Option SnapshotRef}
      {written : List SnapshotRef} {unfinished : ℕ} {u : UploadedSnapshots}
      → Lists listed
      → ((r : SnapshotRef) → Reaches position r restored → Reaches position r base)
      → Session listed base restored written unfinished u
      → Inv restored written unfinished u
  Session-Inv lists based opens = record {
    counts = omega arith;
    written_reached = tt;
    restored_reached = λ r reaches. reaches;
  }
  Session-Inv lists based (begins session) =
      let inv = Session-Inv lists based session in
      record {
        counts = omega (arith, inv.counts);
        written_reached = inv.written_reached;
        restored_reached = inv.restored_reached;
      }
  Session-Inv lists based (loads {written} {unfinished} {u} read time loaded session h) =
      let inv = Session-Inv lists based session in
      let (keeps, takes) = load_latest-Reaches read _ _ loaded h in
      record {
        counts = remembered-counts loaded u unfinished inv.counts;
        written_reached =
            All-Reaches (reference_of loaded) (remembered loaded u).latest written
              (remembered-Reaches loaded u)
              (All-Reaches _ (reference_of loaded) written takes (lists written time));
        restored_reached = λ r reaches. remembered-Reaches loaded u r (keeps r (based r reaches));
      }
  Session-Inv lists based
        (finishes {written} {unfinished} {u} persisted owned snapshot u' session h) =
      let inv = Session-Inv lists based session in
      let (advanced, same_started, one_more) =
        finish_upload-eq-ok persisted owned snapshot u u' h in
      let (keeps, takes) = advance-Reaches position u.latest (some snapshot) u'.latest advanced in
      record {
        counts = omega (arith, inv.counts, same_started, one_more);
        written_reached = (
          takes snapshot (position_lt_irrefl (position snapshot.object)),
          All-Reaches u.latest u'.latest written keeps inv.written_reached,
        );
        restored_reached = λ r reaches. keeps r (inv.restored_reached r reaches);
      }

  -- The store lists of a stream, at any time, an object as new as each one that was acknowledged; and the
  -- base of the session's record is as new as the snapshot that was restored. Then, whatever the session
  -- wrote, and however often its actor was loaded again, it is given a checkpoint only when each upload that it began was acknowledged, none of them
  -- failed or still open; and the checkpoint is as new as every snapshot that was acknowledged, as the
  -- one that was restored, and as the base of the record. Newer is by epoch and version.
  pub upload_checkpoint-Reaches :
      (listed : List SnapshotRef → ℕ → Option LoadedSnapshot) (base restored : Option SnapshotRef)
      (written : List SnapshotRef) (unfinished : ℕ) (u : UploadedSnapshots) (owner : Ownership)
      (checkpoint : Option SnapshotRef)
      → Lists listed
      → ((r : SnapshotRef) → Reaches position r restored → Reaches position r base)
      → Session listed base restored written unfinished u
      → upload_checkpoint position owner u ≡ ok checkpoint
      → (unfinished ≡ 0)
        × All (λ r. Reaches position r checkpoint) written
        × ((r : SnapshotRef) → Reaches position r restored → Reaches position r checkpoint)
        × ((r : SnapshotRef) → Reaches position r owner.base → Reaches position r checkpoint)
  unfolding upload_checkpoint
  upload_checkpoint-Reaches listed base restored written unfinished u owner checkpoint lists based
        session h =
      let inv = Session-Inv lists based session in
      let (even, h') = ensure-eq-ok (u.started == u.completed) _ _ h in
      let (keeps, takes) = advance-Reaches position owner.base u.latest checkpoint h' in
      (
        omega (arith, inv.counts, (==_iff u.started u.completed).0 even),
        All-Reaches u.latest checkpoint written takes inv.written_reached,
        λ r reaches. takes r (inv.restored_reached r reaches),
        keeps,
      )
