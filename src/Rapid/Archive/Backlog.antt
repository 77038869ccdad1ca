-- ===== src/Rapid/Archive/Backlog.antt =====
-- Any appends and batches of an archive worker: src/bucket/rapid/archive.rs.
use durable_actors.Prelude.{
  ℕ, ◌+◌, ◌≡◌, ◌<◌, ◌≤◌, refl, sym, ap, ◌∙◌, Bool, true, false, List, [], ◌∷◌, ◌++◌, none, some,
  arith, ◌==◌, if◌then◌else◌, length, take, drop, append_assoc, append-nil, length-append,
  Bool-cases, inl, inr, length-take, take-append-drop, take-append, drop-append,
}
use durable_actors.Rapid.Archive.{
  Pending, get_or_insert, extends_cache, cache_frame, append_frame, close, spool, has_cache,
  take_cache, Worker, new_worker, start_batch, restart_cache, batch_uploaded, batch_deferred,
}

-- A worker, the log that has been appended, and whether a batch is being uploaded. Appends and the
-- close come at any time; the upload ends at an offset that is not beyond the log, or is deferred.
pub data Archives (batch_bytes version : ℕ) : List ℕ → Bool → Worker → Type 0 where
  starts : Archives batch_bytes version [] false (new_worker version)
  appends :
      {log : List ℕ} {busy : Bool} {w : Worker} (frame : List ℕ) (v now : ℕ)
      → Archives batch_bytes version log busy w
      → Archives batch_bytes version
          (log ++ frame)
          busy
          (record w { pending = append_frame batch_bytes frame v now w.pending })
  closes :
      {log : List ℕ} {busy : Bool} {w : Worker}
      → Archives batch_bytes version log busy w
      → Archives batch_bytes version log busy (record w { pending = close w.pending })
  takes :
      {log : List ℕ} {w : Worker}
      → Archives batch_bytes version log false w
      → Archives batch_bytes version log true (start_batch w).1
  uploads :
      {log : List ℕ} {w : Worker} (next now : ℕ)
      → next ≤ length log
      → Archives batch_bytes version log true w
      → Archives batch_bytes version log false (batch_uploaded next now w)
  defers :
      {log : List ℕ} {w : Worker}
      → Archives batch_bytes version log true w
      → Archives batch_bytes version log false (batch_deferred w)

-- The cached frames are a piece of the log.
pub record Cached (log : List ℕ) (p : Pending) : Type 0 where
  pub before : List ℕ
  pub after : List ℕ
  pub is_log : log ≡ before ++ (spool p.cache ++ after)
  pub starts_at : length before ≡ p.cache_start
  pub has_bytes : length (spool p.cache) ≡ p.cache_bytes
  pub ends_at : p.end ≡ length log

spool-append :
    (frames : List (List ℕ)) (frame : List ℕ)
    → spool (frames ++ (frame ∷ [])) ≡ spool frames ++ frame
spool-append [] frame = append-nil frame
spool-append (f ∷ frames) frame =
    ap (f ++◌) (spool-append frames frame) ∙ sym (append_assoc f (spool frames) frame)

is_nil : (xs : List ℕ) → length xs ≡ 0 → xs ≡ []
is_nil [] e = refl
is_nil (x ∷ xs) e = ground arith

after_is_nil :
    (log : List ℕ) (p : Pending) (c : Cached log p)
    → p.cache_start + p.cache_bytes ≡ p.end
    → c.after ≡ []
after_is_nil log p c e = is_nil c.after (
    let total : length log ≡ length c.before + length (spool p.cache ++ c.after) =
      ap length c.is_log ∙ length-append c.before (spool p.cache ++ c.after) in
    omega
      (arith, total, length-append (spool p.cache) c.after, c.starts_at, c.has_bytes, c.ends_at, e))

-- Frames that the cache takes in, at the end of the log.
extend_lem :
    (before cached frame after : List ℕ) (log : List ℕ)
    → log ≡ before ++ (cached ++ after)
    → after ≡ []
    → log ++ frame ≡ before ++ ((cached ++ frame) ++ [])
extend_lem before cached frame after log e n =
    rw (e, n, append-nil cached, append-nil (cached ++ frame)) (append_assoc before cached frame)

keep_lem :
    (before cached frame after : List ℕ) (log : List ℕ)
    → log ≡ before ++ (cached ++ after)
    → log ++ frame ≡ before ++ (cached ++ (after ++ frame))
keep_lem before cached frame after log e = rw e (
    append_assoc before (cached ++ after) frame ∙ ap (before ++◌) (append_assoc cached after frame))

extends_cache-at_end :
    (batch_bytes : ℕ) (p : Pending)
    → extends_cache batch_bytes p ≡ true
    → p.cache_start + p.cache_bytes ≡ p.end
unfolding extends_cache
extends_cache-at_end batch_bytes p e = ground arith

append_frame-Cached :
    (batch_bytes : ℕ) (frame : List ℕ) (v now : ℕ) (log : List ℕ) (p : Pending)
    → Cached log p
    → Cached (log ++ frame) (append_frame batch_bytes frame v now p)
unfolding append_frame cache_frame
append_frame-Cached batch_bytes frame v now log p c =
    elim (Bool-cases (extends_cache batch_bytes p)) [
      | inl e ↦ rw e (record {
        before = c.before;
        after = [];
        is_log = rw (spool-append p.cache frame) (
            extend_lem c.before (spool p.cache) frame c.after log c.is_log
              (after_is_nil log p c (extends_cache-at_end batch_bytes p e)));
        starts_at = c.starts_at;
        has_bytes = omega (
          arith,
          ap length (spool-append p.cache frame),
          length-append (spool p.cache) frame,
          c.has_bytes,
        );
        ends_at = omega (arith, c.ends_at, length-append log frame);
      })
      | inr e ↦ rw e (record {
        before = c.before;
        after = c.after ++ frame;
        is_log = keep_lem c.before (spool p.cache) frame c.after log c.is_log;
        starts_at = c.starts_at;
        has_bytes = c.has_bytes;
        ends_at = omega (arith, c.ends_at, length-append log frame);
      })
    ]

take_cache-Cached :
    (through : ℕ) (log : List ℕ) (p : Pending) → Cached log p → Cached log (take_cache through p).1
unfolding take_cache
take_cache-Cached through log p c = elim (Bool-cases (has_cache through p)) [
  | inl e ↦ rw e (record {
    before = c.before ++ spool p.cache;
    after = c.after;
    is_log = c.is_log ∙ sym (append_assoc c.before (spool p.cache) c.after);
    starts_at = omega (arith, length-append c.before (spool p.cache), c.starts_at, c.has_bytes);
    has_bytes = refl;
    ends_at = c.ends_at;
  })
  | inr e ↦ rw e c
]

restart-Cached :
    (next now : ℕ) (log : List ℕ) (w : Worker)
    → next ≤ length log
    → Cached log w.pending
    → Cached log (batch_uploaded next now w).pending
unfolding batch_uploaded
restart-Cached next now log w h c = go w.pending.cache refl
  where
    go :
        (cache : List (List ℕ))
        → w.pending.cache ≡ cache
        → Cached log (record w.pending {
          cache_start = restart_cache w.pending.cache w.pending.cache_start next;
          since = if next == w.pending.end then none else get_or_insert w.pending.since now;
        })
    go [] e = record {
      before = take next log;
      after = drop next log;
      is_log = rw e (sym (take-append-drop next log));
      starts_at = rw e (omega (arith, length-take next log, h));
      has_bytes = c.has_bytes;
      ends_at = c.ends_at;
    }
    go (f ∷ fs) e = record {
      before = c.before;
      after = c.after;
      is_log = c.is_log;
      starts_at = rw e c.starts_at;
      has_bytes = c.has_bytes;
      ends_at = c.ends_at;
    }

module _ {batch_bytes version : ℕ} where
  pub Archives-Cached :
      {log : List ℕ} {busy : Bool} {w : Worker}
      → Archives batch_bytes version log busy w
      → Cached log w.pending
  unfolding start_batch batch_uploaded
  Archives-Cached starts = record {
    before = [];
    after = [];
    is_log = refl;
    starts_at = refl;
    has_bytes = refl;
    ends_at = refl;
  }
  Archives-Cached (appends {log} {busy} {w} frame v now r) =
      append_frame-Cached batch_bytes frame v now log w.pending (Archives-Cached r)
  Archives-Cached (closes r) =
      let c = Archives-Cached r in
      record {
        before = c.before;
        after = c.after;
        is_log = c.is_log;
        starts_at = c.starts_at;
        has_bytes = c.has_bytes;
        ends_at = c.ends_at;
      }
  Archives-Cached (takes {log} {w} r) =
      take_cache-Cached w.through log w.pending (Archives-Cached r)
  Archives-Cached (uploads {log} {w} next now h r) =
      restart-Cached next now log w h (Archives-Cached r)
  Archives-Cached (defers r) = Archives-Cached r

start_batch-eq-some :
    (w : Worker) (bytes : List ℕ)
    → (start_batch w).0 ≡ some bytes
    → (w.pending.cache_start ≡ w.through)
      × (0 < w.pending.cache_bytes)
      × (bytes ≡ spool w.pending.cache)
unfolding start_batch take_cache has_cache
start_batch-eq-some w bytes h = ground arith

cut_lem :
    (before cached after log : List ℕ) (through : ℕ)
    → log ≡ before ++ (cached ++ after)
    → through ≡ length before
    → cached ≡ take (length cached) (drop through log)
cut_lem before cached after log through e h =
    rw (e, drop-append before (cached ++ after) through h) (sym (take-append cached after _ refl))

-- The bytes that an archive worker uploads from its cache are the log's, at the offset that the batch
-- starts at, and not empty: after any appends, closes, uploads that end at any offset within the log,
-- and uploads that are deferred.
pub start_batch-cached :
    {batch_bytes version : ℕ} {log : List ℕ} {busy : Bool} {w : Worker} (bytes : List ℕ)
    → Archives batch_bytes version log busy w
    → (start_batch w).0 ≡ some bytes
    → (bytes ≡ take (length bytes) (drop w.through log)) × (0 < length bytes)
start_batch-cached {log = log} {w = w} bytes r h =
    let c = Archives-Cached r in
    let (begins, some_bytes, is_cache) = start_batch-eq-some w bytes h in
    rw is_cache (
      cut_lem c.before (spool w.pending.cache) c.after log w.through c.is_log
          (sym begins ∙ sym c.starts_at),
      omega (arith, c.has_bytes, some_bytes),
    )
