-- ===== src/Executor/Loop.antt =====
-- The loop of `ExecutorDriver::run` in src/actor/executor_connection.rs.
use durable_actors.Prelude.{
  ℕ, String, List, [], ◌∷◌, ◌++◌, Option, none, some, Result, ok, err, out_of_fuel, ◌>>=◌, context,
}
use durable_actors.Prelude.Words.{checked_add}
use durable_actors.Prelude.Maps.{insert, remove, nat_eq}
use durable_actors.Sockets.Operations.{SocketLookup}
use durable_actors.Executor.{
  actor_executor_protocol_version, Services, ActorExecutorServerMessage, actor_result, attached,
  command, ActorExecutorClientMessage, database_call, actor_call, warm, residency, get_connections,
  ready_for_invocation, socket_effects, attach, reply, log,
}
use durable_actors.Executor.State.{
  take_at, PendingCommand, ExecutorRequest, exchange, ready, DatabaseTask, ActorTask, LookupTask,
  ExecutorDriver, release_id,
}
use durable_actors.Executor.Driver.{
  send_write, write, set_residency, allow_next_invocation, call_database, database_outcome,
  result_message, call_actor, actor_outcome, load_connections, lookup_outcome, connections_message,
  publish, log_record, deliver,
}

-- `encode` is `encode_server_message`, the JSON of a message and a newline.
module _ (t : Services) (encode : ActorExecutorServerMessage t → Result (List ℕ)) where
  abbrev pub write_message :
      ActorExecutorServerMessage t → ExecutorDriver t → Result (ExecutorDriver t)
  write_message message d = do bytes ← encode message; write t bytes d

  abbrev pub write_command :
      ℕ → PendingCommand t → Result (List ℕ) → ExecutorDriver t → Result (ExecutorDriver t)
  write_command message_id pending (ok bytes) d = do
    written ← write t bytes d
    ok (record written { pending = insert message_id pending written.pending })
  write_command message_id pending (err e) d =
      ok (record d { replies = d.replies ++ (pending.reply, err e) ∷ [] })
  write_command message_id pending out_of_fuel d = out_of_fuel

  unfoldable pub enqueue : PendingCommand t → ExecutorDriver t → Result (ExecutorDriver t)
  enqueue pending d = do
    next ← context (checked_add d.next_message_id 1) "actor executor message ID overflow"
    write_command d.next_message_id pending (encode (command d.next_message_id pending.command))
        (record d { next_message_id = next })

  abbrev pub or_logs : Option t.LogSink → Option t.LogSink → Option t.LogSink
  or_logs none logs = logs
  or_logs (some sink) logs = some sink

  unfoldable pub handle_command : ExecutorRequest t → ExecutorDriver t → Result (ExecutorDriver t)
  handle_command (exchange pending) d = enqueue pending d
  handle_command (ready actor written publisher sockets database calls logs) d = do
    bytes ← encode (attached actor_executor_protocol_version actor)
    send_write t (record { bytes = bytes; written = some written })
        (record d {
          publisher = publisher;
          sockets = sockets;
          database = database;
          calls = calls;
          logs = or_logs logs d.logs;
        })

  -- The branch for a message of the executor.
  unfoldable pub handle_message :
      ℕ → ActorExecutorClientMessage t → ExecutorDriver t → Result (ExecutorDriver t)
  handle_message now (residency resident) d = ok (set_residency t now resident d)
  handle_message now (ready_for_invocation message_id) d = allow_next_invocation t message_id d
  handle_message now (reply message_id answer) d = deliver t message_id answer d
  handle_message now (socket_effects message_id effects) d = publish t message_id effects d
  handle_message now (database_call call_id message_id call) d =
      call_database t call_id message_id call d
  handle_message now (get_connections message_id query) d = load_connections t message_id query d
  handle_message now (actor_call call_id call) d = ok (call_actor t call_id call d)
  handle_message now (log message_id level message) d = ok (log_record t message_id level message d)
  handle_message now (warm protocol) d = err "customer actor executor attached more than once"
  handle_message now (attach protocol names) d =
      err "customer actor executor attached more than once"

  -- `database_called`, for the task at a position, whose database answers so.
  abbrev pub database_called :
      Result t.DatabaseResult
      → Option (DatabaseTask t × List (DatabaseTask t))
      → ExecutorDriver t
      → Result (ExecutorDriver t)
  database_called answer none d = ok d
  database_called answer (some (task, others)) d =
      write_message (result_message t task.call_id (database_outcome t task.database answer))
        (record d {
          database_calls = others;
          database_ids = release_id task.message_id d.database_ids;
        })

  abbrev pub actor_called :
      t.Value
      → Option (ActorTask t × List (ActorTask t))
      → ExecutorDriver t
      → Result (ExecutorDriver t)
  actor_called answer none d = ok d
  actor_called answer (some (task, others)) d =
      write_message (actor_result task.call_id (actor_outcome t task.calls answer))
        (record d { actor_calls = others })

  abbrev pub connections_loaded :
      Result (SocketLookup t.Value)
      → Option (LookupTask t × List (LookupTask t))
      → ExecutorDriver t
      → Result (ExecutorDriver t)
  connections_loaded answer none d = ok d
  connections_loaded answer (some (task, others)) d =
      write_message (connections_message t task.message_id (lookup_outcome t task.sockets answer))
        (record d {
          loading_connections = others;
          connection_lookup_ids = remove task.message_id d.connection_lookup_ids;
        })

  -- What the loop waits for: a message of the executor, the reader's error, the end of the task at a
  -- position with what the service that it asked answers, the panic of a task, or a command. A task
  -- that does not run does not end.
  pub data Event : Type 0 where
    received : ℕ → ActorExecutorClientMessage t → Event
    reader_failed task_failed : String → Event
    database_ended : ℕ → Result t.DatabaseResult → Event
    actor_ended : ℕ → t.Value → Event
    lookup_ended : ℕ → Result (SocketLookup t.Value) → Event
    requested : ExecutorRequest t → Event

  unfoldable pub step : Event → ExecutorDriver t → Result (ExecutorDriver t)
  step (received now message) d = handle_message now message d
  step (reader_failed e) d = err e
  step (task_failed e) d = err e
  step (database_ended position answer) d =
      database_called answer (take_at position d.database_calls) d
  step (actor_ended position answer) d = actor_called answer (take_at position d.actor_calls) d
  step (lookup_ended position answer) d =
      connections_loaded answer (take_at position d.loading_connections) d
  step (requested request) d = handle_command request d

  -- The loop, until the commands end.
  abbrev pub run : List Event → ExecutorDriver t → Result (ExecutorDriver t)
  run [] d = ok d
  run (event ∷ events) d = step event d >>= λ next. run events next
