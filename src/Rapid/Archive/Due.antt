-- ===== src/Rapid/Archive/Due.antt =====
-- That an archive worker forgets no backlog: src/bucket/rapid/archive.rs.
use durable_actors.Prelude.{
  ℕ, ◌+◌, ◌≡◌, ◌<◌, ◌≤◌, refl, sym, ap, true, false, List, Option, none, some, arith, ◌==◌, length,
}
use durable_actors.Rapid.Archive.{
  get_or_insert, append_frame, cache_frame, Worker, wants_batch, batch_uploaded, due,
}
use durable_actors.Rapid.Archive.Backlog.{
  Archives, starts, appends, closes, uploads, defers, Archives-Cached,
}

-- What makes an idle worker look again.
data Awaits (w : Worker) : Type 0 where
  retries : w.retry ≡ true → Awaits w
  timed : (at : ℕ) → w.pending.since ≡ some at → Awaits w

get_or_insert-some : (since : Option ℕ) (now : ℕ) → (at : ℕ) × (get_or_insert since now ≡ some at)
get_or_insert-some none now = (now, refl)
get_or_insert-some (some at) now = (at, refl)

batch_uploaded-Awaits :
    (next now : ℕ) (w : Worker) → next < w.pending.end → Awaits (batch_uploaded next now w)
unfolding batch_uploaded
batch_uploaded-Awaits next now w h =
    let (at, e) = get_or_insert-some w.pending.since now in
    let not_all : (next == w.pending.end) ≡ false = ground arith in timed at (rw not_all e)

module _ {batch_bytes version : ℕ} where
  Archives-Awaits :
      {log : List ℕ} {w : Worker}
      → Archives batch_bytes version log false w
      → w.through < length log
      → Awaits w
  unfolding append_frame batch_uploaded
  Archives-Awaits starts h = ground arith
  Archives-Awaits (appends {w = w} frame v now r) h =
      let (at, e) = get_or_insert-some (cache_frame batch_bytes frame w.pending).since now in
      timed at e
  Archives-Awaits (closes r) h = elim (Archives-Awaits r h) [
    | retries e ↦ retries e
    | timed at e ↦ timed at e
  ]
  Archives-Awaits (uploads {log} {w} next now inside r) h =
      batch_uploaded-Awaits next now w (rw (Archives-Cached r).ends_at h)
  Archives-Awaits (defers r) h = retries refl

wants_batch-Awaits :
    (batch_size interval now : ℕ) (w : Worker)
    → Awaits w
    → w.through < w.pending.end
    → due interval w.pending.since ≤ now
    → wants_batch batch_size interval now w ≡ true
unfolding wants_batch
wants_batch-Awaits batch_size interval now w (retries e) behind late = ground arith
wants_batch-Awaits batch_size interval now w (timed at e) behind late =
    let late' : at + interval ≤ now = rw (sym (ap (due interval) e)) late in rw e (ground arith)

-- A worker that is idle while its batches do not reach the end of the log starts another batch, when the
-- batch interval has passed since the time that it has noted, if it has noted one. So no append, close,
-- deferred upload, or upload that ends at any offset within the log makes it forget a part of the log
-- that is not yet archived.
pub Archives-wants_batch :
    {batch_bytes version : ℕ} {log : List ℕ} {w : Worker} (batch_size interval now : ℕ)
    → Archives batch_bytes version log false w
    → w.through < length log
    → due interval w.pending.since ≤ now
    → wants_batch batch_size interval now w ≡ true
Archives-wants_batch {w = w} batch_size interval now r behind late =
    wants_batch-Awaits batch_size interval now w (Archives-Awaits r behind)
      (rw (Archives-Cached r).ends_at behind) late
