-- ===== src/Rapid/Archive.antt =====
-- src/bucket/rapid/archive.rs: the worker that moves a segment's log to Standard storage in batches, and
-- the cache of the log's frames that spares it to read them again. The upload itself is the
-- environment's: it ends with an offset, or is deferred.
pub mod Backlog
pub mod Due
use durable_actors.Prelude.{
  ℕ, ◌+◌, ◌-◌, Bool, true, false, ◌&&◌, ◌||◌, List, [], ◌∷◌, ◌++◌, Option, none, some, ltb, leb,
  ◌==◌, if◌then◌else◌, length,
}

pub record Pending : Type 0 where
  pub end : ℕ
  pub version : ℕ
  pub since : Option ℕ
  pub cache_start : ℕ
  pub cache : List (List ℕ)
  pub cache_bytes : ℕ
  pub closed : Bool

-- `Archiver::new`
abbrev pub new_pending : ℕ → Pending
new_pending version = record {
  end = 0;
  version = version;
  since = none;
  cache_start = 0;
  cache = [];
  cache_bytes = 0;
  closed = false;
}

-- `since.get_or_insert_with(Instant::now)`
abbrev pub get_or_insert : Option ℕ → ℕ → Option ℕ
get_or_insert none now = some now
get_or_insert (some at) now = some at

-- The guard of `append`: the cache reaches the end of the log, and has room.
unfoldable pub extends_cache : ℕ → Pending → Bool
extends_cache batch_bytes p =
    (p.cache_start + p.cache_bytes == p.end) && ltb p.cache_bytes batch_bytes

unfoldable pub cache_frame : ℕ → List ℕ → Pending → Pending
cache_frame batch_bytes frame p =
    if extends_cache batch_bytes p
    then record p { cache_bytes = p.cache_bytes + length frame; cache = p.cache ++ (frame ∷ []) }
    else p

-- What `append` does to `end`, `version` and `since`.
abbrev pub extend_log : List ℕ → ℕ → ℕ → Pending → Pending
extend_log frame version now p = record p {
  end = p.end + length frame;
  version = version;
  since = get_or_insert p.since now;
}

unfoldable pub append_frame : ℕ → List ℕ → ℕ → ℕ → Pending → Pending
append_frame batch_bytes frame version now p =
    extend_log frame version now (cache_frame batch_bytes frame p)

abbrev pub close : Pending → Pending
close p = record p { closed = true }

-- The bytes that a `Spool` holds after the frames have been written to it.
abbrev pub spool : List (List ℕ) → List ℕ
spool [] = []
spool (frame ∷ frames) = frame ++ spool frames

-- The guard of `take_cache`, negated.
unfoldable pub has_cache : ℕ → Pending → Bool
has_cache through p = (p.cache_start == through) && ltb 0 p.cache_bytes

abbrev pub drain : Pending → Pending
drain p = record p {
  cache_start = p.cache_start + p.cache_bytes;
  cache_bytes = 0;
  cache = [];
  since = if p.cache_start + p.cache_bytes == p.end then none else p.since;
}

unfoldable pub take_cache : ℕ → Pending → Option (List ℕ) × Pending
take_cache through p = if has_cache through p then (some (spool p.cache), drain p) else (none, p)

-- The variables of `run` that its batches change.
pub record Worker : Type 0 where
  pub pending : Pending
  pub through : ℕ
  pub retry : Bool

abbrev pub new_worker : ℕ → Worker
new_worker version = record { pending = new_pending version; through = 0; retry = false }

-- `due.is_some_and(|at| at <= Instant::now())`
abbrev pub is_overdue : ℕ → Option ℕ → ℕ → Bool
is_overdue interval none now = false
is_overdue interval (some at) now = leb (at + interval) now

-- The test of `run` for a batch, where `batch_size` is `storage.batch.bytes`.
unfoldable pub wants_batch : ℕ → ℕ → ℕ → Worker → Bool
wants_batch batch_size interval now w =
    ltb w.through w.pending.end
    && (w.pending.closed
        || w.retry
        || leb batch_size (w.pending.end - w.through)
        || is_overdue interval w.pending.since now)

-- `take_cache(&pending, through)?`
unfoldable pub start_batch : Worker → Option (List ℕ) × Worker
start_batch w =
    let (cached, p) = take_cache w.through w.pending in (cached, record w { pending = p })

abbrev pub restart_cache : List (List ℕ) → ℕ → ℕ → ℕ
restart_cache [] cache_start through = through
restart_cache (frame ∷ frames) cache_start through = cache_start

-- The branch of `run` for an upload that ended at `next`.
unfoldable pub batch_uploaded : ℕ → ℕ → Worker → Worker
batch_uploaded next now w = record {
  pending = record w.pending {
    cache_start = restart_cache w.pending.cache w.pending.cache_start next;
    since = if next == w.pending.end then none else get_or_insert w.pending.since now;
  };
  through = next;
  retry = false;
}

-- The branch for one that failed.
abbrev pub batch_deferred : Worker → Worker
batch_deferred w = record w { retry = true }

-- `due`, at which `run` wakes up: for a worker that has none, at once.
abbrev pub due : ℕ → Option ℕ → ℕ
due interval none = 0
due interval (some at) = at + interval
