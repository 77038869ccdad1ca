-- ===== src/Tracking.antt =====
-- src/request_tracking.rs: what is recorded of a request. Times are nanoseconds of a clock that does not go
-- back; `Float` is f64, and `ms` the milliseconds of a duration.
pub mod Once
use durable_actors.Prelude.{
  ℕ, ◌-◌, ◌/◌, Bool, true, false, List, [], ◌∷◌, ◌++◌, Option, none, some, if◌then◌else◌,
}

pub data HostState : Type 0 where
  cold warm : HostState

pub data RequestOutcome : Type 0 where
  completed failed rejected rerouted interrupted : RequestOutcome

pub data RequestStage : Type 0 where
  state_cache_checked state_downloaded state_decoded : RequestStage
  pending_commit_resolved actor_execution_completed state_publication_completed : RequestStage

-- The results of an actor that `complete` tells apart.
pub data ExecutionResult : Type 0 where
  returned host_unavailable other_result execution_error : ExecutionResult

-- `complete`
abbrev pub outcome_of : ExecutionResult → RequestOutcome
outcome_of returned = completed
outcome_of host_unavailable = rejected
outcome_of other_result = failed
outcome_of execution_error = failed

module _ (Float : Type 0) where
  pub record RequestCheckpoints : Type 0 where
    pub state_cache_checked_at_ms : Option Float
    pub state_downloaded_at_ms : Option Float
    pub state_decoded_at_ms : Option Float
    pub pending_commit_resolved_at_ms : Option Float
    pub actor_execution_completed_at_ms : Option Float
    pub state_publication_completed_at_ms : Option Float

  abbrev pub no_checkpoints : RequestCheckpoints
  no_checkpoints = record {
    state_cache_checked_at_ms = none;
    state_downloaded_at_ms = none;
    state_decoded_at_ms = none;
    pending_commit_resolved_at_ms = none;
    actor_execution_completed_at_ms = none;
    state_publication_completed_at_ms = none;
  }

  pub record RequestMetadata : Type 0 where
    pub routing_ms : Float
    pub duration_ms : Float
    pub queue_wait_ms : Option Float
    pub host_state : HostState

  pub record RequestCompletion : Type 0 where
    pub started_at_ms : ℕ
    pub state_version : Option ℕ
    pub outcome : RequestOutcome
    pub timings : RequestMetadata
    pub checkpoints : RequestCheckpoints

  -- `RequestTracker`, whether it still holds its response and its observer, then what it sent as its
  -- response and what the observer recorded.
  pub record RequestTracker : Type 0 where
    pub started : ℕ
    pub started_at_ms : ℕ
    pub queue_wait_ms : Option Float
    pub host_state : HostState
    pub routing_ms : Float
    pub state_version : Option ℕ
    pub completion : Option RequestCompletion
    pub response : Bool
    pub observer : Bool
    pub checkpoints : RequestCheckpoints
    pub responses : List RequestMetadata
    pub recorded : List RequestCompletion

module _ {Float : Type 0} where
  abbrev pub or_wait : Option Float → Float → Option Float
  or_wait none wait = some wait
  or_wait (some waited) wait = some waited

  abbrev pub set_checkpoint :
      RequestStage → Option Float → RequestCheckpoints Float → RequestCheckpoints Float
  set_checkpoint state_cache_checked at c = record c { state_cache_checked_at_ms = at }
  set_checkpoint state_downloaded at c = record c { state_downloaded_at_ms = at }
  set_checkpoint state_decoded at c = record c { state_decoded_at_ms = at }
  set_checkpoint pending_commit_resolved at c = record c { pending_commit_resolved_at_ms = at }
  set_checkpoint actor_execution_completed at c = record c { actor_execution_completed_at_ms = at }
  set_checkpoint state_publication_completed at c = record c {
    state_publication_completed_at_ms = at;
  }

  unfoldable pub set_state_version : Option ℕ → RequestTracker Float → RequestTracker Float
  set_state_version version tracker = record tracker { state_version = version }

  abbrev pub record_completion :
      RequestCompletion Float → RequestTracker Float → RequestTracker Float
  record_completion completion tracker = record tracker {
    completion = some completion;
    observer = false;
    recorded = if tracker.observer then tracker.recorded ++ completion ∷ [] else tracker.recorded;
    response = false;
    responses =
        if tracker.response
        then tracker.responses ++ completion.timings ∷ []
        else tracker.responses;
  }

module _ {Float : Type 0} (ms : ℕ → Float) where
  -- `new`, where `now_ms` is the time of the system's clock in milliseconds and `now` that of the
  -- clock that does not go back.
  unfoldable pub new_tracker : ℕ → ℕ → ℕ → HostState → Float → Bool → RequestTracker Float
  new_tracker started now now_ms host_state routing_ms observer = record {
    started = started;
    started_at_ms = now_ms - (now - started) / 1000000;
    queue_wait_ms = none;
    host_state = host_state;
    routing_ms = routing_ms;
    state_version = none;
    completion = none;
    response = true;
    observer = observer;
    checkpoints = no_checkpoints Float;
    responses = [];
    recorded = [];
  }

  abbrev pub elapsed_ms : ℕ → RequestTracker Float → Float
  elapsed_ms now tracker = ms (now - tracker.started)

  unfoldable pub admitted : ℕ → RequestTracker Float → RequestTracker Float
  admitted now tracker = elim tracker.completion [
    | none ↦ record tracker {
      queue_wait_ms = or_wait tracker.queue_wait_ms (elapsed_ms now tracker);
    }
    | some completion ↦ tracker
  ]

  unfoldable pub mark_at : RequestStage → ℕ → RequestTracker Float → RequestTracker Float
  mark_at stage at tracker = elim tracker.completion [
    | none ↦ record tracker {
      checkpoints = set_checkpoint stage (some (elapsed_ms at tracker)) tracker.checkpoints;
    }
    | some completion ↦ tracker
  ]

  abbrev pub completion_at : ℕ → RequestOutcome → RequestTracker Float → RequestCompletion Float
  completion_at now outcome tracker = record {
    started_at_ms = tracker.started_at_ms;
    state_version = tracker.state_version;
    outcome = outcome;
    checkpoints = tracker.checkpoints;
    timings = record {
      duration_ms = elapsed_ms now tracker;
      queue_wait_ms = tracker.queue_wait_ms;
      host_state = tracker.host_state;
      routing_ms = tracker.routing_ms;
    };
  }

  unfoldable pub finish : ℕ → RequestOutcome → RequestTracker Float → RequestTracker Float
  finish now outcome tracker = elim tracker.completion [
    | none ↦ record_completion (completion_at now outcome tracker) tracker
    | some completion ↦ tracker
  ]

  -- What is done to a tracker, each at its time.
  pub data Operation : Type 0 where
    admits : ℕ → Operation
    marks : RequestStage → ℕ → Operation
    sets_version : Option ℕ → Operation
    completes : ℕ → ExecutionResult → Operation
    finishes : ℕ → RequestOutcome → Operation

  abbrev pub perform : Operation → RequestTracker Float → RequestTracker Float
  perform (admits now) tracker = admitted now tracker
  perform (marks stage at) tracker = mark_at stage at tracker
  perform (sets_version version) tracker = set_state_version version tracker
  perform (completes now result) tracker = finish now (outcome_of result) tracker
  perform (finishes now outcome) tracker = finish now outcome tracker

  -- The operations, and then the drop of the tracker.
  abbrev pub track : List Operation → ℕ → RequestTracker Float → RequestTracker Float
  track [] dropped_at tracker = finish dropped_at interrupted tracker
  track (operation ∷ operations) dropped_at tracker =
      track operations dropped_at (perform operation tracker)
