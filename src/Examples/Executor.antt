-- ===== src/Examples/Executor.antt =====
-- An executor that calls its database and then replies: src/actor/executor_connection.rs.
use durable_actors.Prelude.{ℕ, ◌≡◌, refl, true, false, List, [], ◌∷◌, none, some, Result, ok}
use durable_actors.Prelude.Maps.{nat_eq}
use durable_actors.Executor.{
  Services, ActorExecutorServerMessage, ExecutorReply, invoked, invoke, reply, database_call,
  ready_for_invocation, trim_ascii_end,
}
use durable_actors.Executor.State.{PendingCommand, exchange, ExecutorDriver, new_driver}
use durable_actors.Executor.Driver.{allow_next_invocation, call_database, deliver}
use durable_actors.Executor.Loop.{
  enqueue, handle_command, handle_message, Event, requested, received, database_ended, step, run,
}
use durable_actors.Executor.Moves.{calls_of}
use durable_actors.Executor.Runs.{WellFormed, run-WellFormed}
use durable_actors.Executor.Delivery.{Delivered, reply-Delivered}
use durable_actors.Executor.Specification.{view, SpecStep, step-SpecStep}
use durable_actors.Executor.Trim.{Trimmed, trim_ascii_end-Trimmed}

abbrev numbers : Services
numbers = record {
  Value = ℕ;
  null = 0;
  unavailable_calls = 1;
  DatabaseCall = ℕ;
  DatabaseResult = ℕ;
  ActorCall = ℕ;
  LogLevel = ℕ;
  SocketPublisher = ℕ;
  SocketSource = ℕ;
  Database = ℕ;
  Caller = ℕ;
  LogSink = ℕ;
}

abbrev encode_empty : ActorExecutorServerMessage numbers → Result (List ℕ)
encode_empty message = ok (10 ∷ [])

abbrev increment : PendingCommand numbers
increment = record {
  command = invoke (record { request_id = "r1"; method = "increment"; args = [] });
  database = some 4;
  admission_granted = false;
  reply = 7;
}

abbrev session_events : List (Event numbers encode_empty)
session_events =
    requested (exchange increment)
    ∷ received 0 (database_call 1 (some 1) 5)
    ∷ received 1 (ready_for_invocation 1)
    ∷ database_ended 0 (ok 9)
    ∷ []

abbrev result_of_five : ExecutorReply numbers
result_of_five = invoked 5 none []

-- The driver after the events, and after the reply.
abbrev before_reply : ExecutorDriver numbers
before_reply = record (new_driver numbers) {
  admission = 1;
  pending = (1, record increment { admission_granted = true }) ∷ [];
  next_message_id = 2;
  outbound =
      record { bytes = 10 ∷ []; written = none } ∷ record { bytes = 10 ∷ []; written = none } ∷ [];
}

abbrev after_reply : ExecutorDriver numbers
after_reply = record before_reply { pending = []; replies = (7, ok result_of_five) ∷ [] }

events_run : run numbers encode_empty session_events (new_driver numbers) ≡ ok before_reply
unfolding step handle_command handle_message enqueue call_database allow_next_invocation
events_run = refl

reply_taken :
    step numbers encode_empty (received 2 (reply 1 result_of_five)) before_reply ≡ ok after_reply
unfolding step handle_message deliver
reply_taken = refl

run-WellFormed_example :
    WellFormed numbers encode_empty (increment ∷ []) (calls_of numbers before_reply)
run-WellFormed_example = run-WellFormed numbers encode_empty session_events before_reply events_run

reply-Delivered_example :
    Delivered numbers encode_empty (increment ∷ []) 1 result_of_five before_reply after_reply
reply-Delivered_example =
    reply-Delivered numbers encode_empty session_events 2 1 result_of_five before_reply after_reply
      events_run reply_taken

trim_ascii_end-Trimmed_example : Trimmed (123 ∷ 125 ∷ 13 ∷ 10 ∷ []) (123 ∷ 125 ∷ [])
unfolding trim_ascii_end
trim_ascii_end-Trimmed_example = trim_ascii_end-Trimmed (123 ∷ 125 ∷ 13 ∷ 10 ∷ [])

step-SpecStep_example :
    SpecStep numbers
      (view numbers (calls_of numbers before_reply))
      (view numbers (calls_of numbers after_reply))
step-SpecStep_example =
    step-SpecStep numbers encode_empty session_events (received 2 (reply 1 result_of_five))
      before_reply after_reply events_run reply_taken
