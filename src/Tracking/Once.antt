-- ===== src/Tracking/Once.antt =====
-- That a request is recorded once: src/request_tracking.rs.
use durable_actors.Prelude.{ℕ, ◌≡◌, refl, Bool, true, List, [], ◌∷◌, none, some, if◌then◌else◌}
use durable_actors.Tracking.{
  HostState, RequestOutcome, interrupted, RequestStage, outcome_of, RequestCompletion,
  RequestTracker, new_tracker, admitted, mark_at, set_state_version, completion_at, finish,
  Operation, admits, marks, sets_version, completes, finishes, perform, track,
}

module _ {Float : Type 0} (ms : ℕ → Float) where
  -- The outcome of the first operation that ends the request, or of the drop.
  abbrev pub first_outcome : List (Operation ms) → RequestOutcome
  first_outcome [] = interrupted
  first_outcome (admits now ∷ operations) = first_outcome operations
  first_outcome (marks stage at ∷ operations) = first_outcome operations
  first_outcome (sets_version version ∷ operations) = first_outcome operations
  first_outcome (completes now result ∷ operations) = outcome_of result
  first_outcome (finishes now outcome ∷ operations) = outcome

  -- A tracker that has recorded nothing.
  pub record IsOpen (observed : Bool) (tracker : RequestTracker Float) : Type 0 where
    pub not_complete : tracker.completion ≡ none
    pub has_response : tracker.response ≡ true
    pub has_observer : tracker.observer ≡ observed
    pub no_responses : tracker.responses ≡ []
    pub nothing_recorded : tracker.recorded ≡ []

  -- A tracker that has recorded a completion, once.
  pub record RecordedOnce (observed : Bool) (outcome : RequestOutcome)
      (tracker : RequestTracker Float) : Type 0 where
    pub completion : RequestCompletion Float
    pub is_completion : tracker.completion ≡ some completion
    pub has_outcome : completion.outcome ≡ outcome
    pub responded : tracker.responses ≡ completion.timings ∷ []
    pub recorded : tracker.recorded ≡ (if observed then completion ∷ [] else [])

  finish-RecordedOnce :
      (observed : Bool) (now : ℕ) (outcome : RequestOutcome) (tracker : RequestTracker Float)
      → IsOpen observed tracker
      → RecordedOnce observed outcome (finish ms now outcome tracker)
  unfolding finish
  finish-RecordedOnce observed now outcome tracker w =
      rw (w.not_complete, finish)
        (record {
          completion = completion_at ms now outcome tracker;
          is_completion = refl;
          has_outcome = refl;
          responded = rw (w.has_response, w.no_responses) refl;
          recorded = rw (w.has_observer, w.nothing_recorded) refl;
        })

  perform_keeps :
      (observed : Bool) (outcome : RequestOutcome) (operation : Operation ms)
      (tracker : RequestTracker Float)
      → RecordedOnce observed outcome tracker
      → RecordedOnce observed outcome (perform ms operation tracker)
  unfolding finish admitted mark_at set_state_version
  perform_keeps observed outcome (admits now) tracker w = rw (w.is_completion, admitted) w
  perform_keeps observed outcome (marks stage at) tracker w = rw (w.is_completion, mark_at) w
  perform_keeps observed outcome (sets_version version) tracker w = record {
    completion = w.completion;
    is_completion = w.is_completion;
    has_outcome = w.has_outcome;
    responded = w.responded;
    recorded = w.recorded;
  }
  perform_keeps observed outcome (completes now result) tracker w = rw (w.is_completion, finish) w
  perform_keeps observed outcome (finishes now other) tracker w = rw (w.is_completion, finish) w

  track_keeps :
      (observed : Bool) (outcome : RequestOutcome) (operations : List (Operation ms))
      (dropped_at : ℕ) (tracker : RequestTracker Float)
      → RecordedOnce observed outcome tracker
      → RecordedOnce observed outcome (track ms operations dropped_at tracker)
  track_keeps observed outcome [] dropped_at tracker w =
      perform_keeps observed outcome (finishes dropped_at interrupted) tracker w
  track_keeps observed outcome (operation ∷ operations) dropped_at tracker w =
      track_keeps observed outcome operations dropped_at (perform ms operation tracker)
        (perform_keeps observed outcome operation tracker w)

  admitted-IsOpen :
      (observed : Bool) (now : ℕ) (tracker : RequestTracker Float)
      → IsOpen observed tracker
      → IsOpen observed (admitted ms now tracker)
  unfolding admitted
  admitted-IsOpen observed now tracker w =
      rw (w.not_complete, admitted)
        (record {
          not_complete = w.not_complete;
          has_response = w.has_response;
          has_observer = w.has_observer;
          no_responses = w.no_responses;
          nothing_recorded = w.nothing_recorded;
        })

  mark_at-IsOpen :
      (observed : Bool) (stage : RequestStage) (at : ℕ) (tracker : RequestTracker Float)
      → IsOpen observed tracker
      → IsOpen observed (mark_at ms stage at tracker)
  unfolding mark_at
  mark_at-IsOpen observed stage at tracker w =
      rw (w.not_complete, mark_at)
        (record {
          not_complete = w.not_complete;
          has_response = w.has_response;
          has_observer = w.has_observer;
          no_responses = w.no_responses;
          nothing_recorded = w.nothing_recorded;
        })

  track_open :
      (observed : Bool) (operations : List (Operation ms)) (dropped_at : ℕ)
      (tracker : RequestTracker Float)
      → IsOpen observed tracker
      → RecordedOnce observed (first_outcome operations) (track ms operations dropped_at tracker)
  unfolding set_state_version
  track_open observed [] dropped_at tracker w =
      finish-RecordedOnce observed dropped_at interrupted tracker w
  track_open observed (admits now ∷ operations) dropped_at tracker w =
      track_open observed operations dropped_at (admitted ms now tracker)
        (admitted-IsOpen observed now tracker w)
  track_open observed (marks stage at ∷ operations) dropped_at tracker w =
      track_open observed operations dropped_at (mark_at ms stage at tracker)
        (mark_at-IsOpen observed stage at tracker w)
  track_open observed (sets_version version ∷ operations) dropped_at tracker w =
      track_open observed operations dropped_at (set_state_version version tracker) (record {
        not_complete = w.not_complete;
        has_response = w.has_response;
        has_observer = w.has_observer;
        no_responses = w.no_responses;
        nothing_recorded = w.nothing_recorded;
      })
  track_open observed (completes now result ∷ operations) dropped_at tracker w =
      track_keeps observed (outcome_of result) operations dropped_at
        (finish ms now (outcome_of result) tracker)
        (finish-RecordedOnce observed now (outcome_of result) tracker w)
  track_open observed (finishes now outcome ∷ operations) dropped_at tracker w =
      track_keeps observed outcome operations dropped_at (finish ms now outcome tracker)
        (finish-RecordedOnce observed now outcome tracker w)

-- Whatever is done to a tracker until it is dropped, its request is completed, with the outcome of the
-- first operation that ends it, or interrupted when none does; the observer, if there is one, records
-- that completion once, and its timings are sent as the response once.
pub track-RecordedOnce :
    {Float : Type 0} (ms : ℕ → Float) (started now now_ms : ℕ) (host_state : HostState)
    (routing_ms : Float) (observed : Bool) (operations : List (Operation ms)) (dropped_at : ℕ)
    → RecordedOnce ms observed (first_outcome ms operations) (
        track ms operations dropped_at
          (new_tracker ms started now now_ms host_state routing_ms observed))
unfolding new_tracker
track-RecordedOnce ms started now now_ms host_state routing_ms observed operations dropped_at =
    track_open ms observed operations dropped_at
      (new_tracker ms started now now_ms host_state routing_ms observed)
      (record {
        not_complete = refl;
        has_response = refl;
        has_observer = refl;
        no_responses = refl;
        nothing_recorded = refl;
      })
