-- ===== src/Examples/Archive.antt =====
-- An archive worker that takes two frames, of which a batch is then deferred: src/bucket/rapid/archive.rs.
use durable_actors.Prelude.{ℕ, ◌≡◌, ◌<◌, refl, true, false, List, [], ◌∷◌, arith, take, drop}
use durable_actors.Rapid.Archive.{
  extends_cache, cache_frame, append_frame, has_cache, take_cache, Worker, new_worker, wants_batch,
  start_batch,
}
use durable_actors.Rapid.Archive.Backlog.{Archives, starts, appends, start_batch-cached}
use durable_actors.Rapid.Archive.Due.{Archives-wants_batch}

abbrev with_frame : List ℕ → ℕ → Worker → Worker
with_frame frame now w = record w { pending = append_frame 10 frame 1 now w.pending }

abbrev two_frames : Worker
two_frames = with_frame (3 ∷ []) 8 (with_frame (1 ∷ 2 ∷ []) 5 (new_worker 0))

abbrev log : List ℕ
log = 1 ∷ 2 ∷ 3 ∷ []

two_frames-Archives : Archives 10 0 log false two_frames
two_frames-Archives = appends (3 ∷ []) 1 8 (appends (1 ∷ 2 ∷ []) 1 5 starts)

start_batch-cached_example : (log ≡ take 3 (drop two_frames.through log)) × (0 < 3)
unfolding extends_cache cache_frame append_frame has_cache take_cache start_batch
start_batch-cached_example = start_batch-cached log two_frames-Archives refl

Archives-wants_batch_example : wants_batch 100 50 55 two_frames ≡ true
unfolding extends_cache cache_frame append_frame
Archives-wants_batch_example =
    Archives-wants_batch 100 50 55 two_frames-Archives (omega arith) (omega arith)
