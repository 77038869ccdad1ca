-- ===== src/Examples/Tracking.antt =====
-- A request that is admitted and completed, and then finished again: src/request_tracking.rs.
use durable_actors.Prelude.{ℕ, true, [], ◌∷◌, some}
use durable_actors.Tracking.{
  warm, completed, failed, new_tracker, state_downloaded, returned, admits, marks, sets_version,
  completes, finishes, track,
}
use durable_actors.Tracking.Once.{RecordedOnce, track-RecordedOnce}

abbrev nanoseconds : ℕ → ℕ
nanoseconds duration = duration

track-RecordedOnce_example : RecordedOnce nanoseconds true completed (
    track nanoseconds
      (admits 20
        ∷ marks state_downloaded 30
        ∷ sets_version (some 4)
        ∷ completes 40 returned
        ∷ finishes 50 failed
        ∷ [])
      60
      (new_tracker nanoseconds 10 10 1000 warm 0 true))
track-RecordedOnce_example =
    track-RecordedOnce nanoseconds 10 10 1000 warm 0 true
      (admits 20
        ∷ marks state_downloaded 30
        ∷ sets_version (some 4)
        ∷ completes 40 returned
        ∷ finishes 50 failed
        ∷ [])
      60
