-- ===== src/Executor/Driver.antt =====
-- `ExecutorDriver` of src/actor/executor_connection.rs, the calls of a host and the messages of its executor.
use durable_actors.Prelude.{
  ℕ, suc, ◌-◌, String, Bool, true, not, List, [], ◌∷◌, ◌++◌, Option, none, some, Result, ok, err,
  out_of_fuel, ◌>>=◌, ◌>>◌, ensure, context, ltb, if◌then◌else◌,
}
use durable_actors.Prelude.Maps.{get, insert, remove, nat_eq}
use durable_actors.Sockets.{ActorSocketEffect}
use durable_actors.Sockets.Operations.{SocketQuery, SocketLookup}
use durable_actors.Executor.{
  Services, ExecutorReply, ActorExecutorServerMessage, database_result, socket_connections,
  request_id, is_invocation, is_evict, is_connecting,
}
use durable_actors.Executor.State.{insert_id, has_id, PendingCommand, ExecutorWrite, ExecutorDriver}

module _ (t : Services) where
  abbrev pub send_write : ExecutorWrite t → ExecutorDriver t → Result (ExecutorDriver t)
  send_write w d =
      if d.writer_runs
      then ok (record d { outbound = d.outbound ++ w ∷ [] })
      else err "actor executor writer stopped"

  -- `write`
  abbrev pub write : List ℕ → ExecutorDriver t → Result (ExecutorDriver t)
  write bytes d = send_write (record { bytes = bytes; written = none }) d

  abbrev pub is_changed : Option (ℕ × Bool) → Bool → Bool
  is_changed none resident = true
  is_changed (some (at, previous)) resident = if previous then not resident else resident

  -- The executor says whether an actor is resident.
  unfoldable pub set_residency : ℕ → Bool → ExecutorDriver t → ExecutorDriver t
  set_residency now resident d = record d {
    residency = some (now, resident);
    changes = if is_changed d.residency resident then suc d.changes else d.changes;
  }

  -- `resident`, at a time in milliseconds.
  abbrev pub resident : ℕ → Option (ℕ × Bool) → Option Bool
  resident now none = none
  resident now (some (at, value)) = if ltb (now - at) 5000 then some value else none

  unfoldable pub allow_next_invocation : ℕ → ExecutorDriver t → Result (ExecutorDriver t)
  allow_next_invocation message_id d = do
    pending ← context (get message_id d.pending) "invocation admission has no active call"
    ensure (is_invocation t pending.command) "only invocations can admit another call"
    ensure (not pending.admission_granted) "invocation admission was already granted"
    ok (record d {
      pending = insert message_id (record pending { admission_granted = true }) d.pending;
      admission = suc d.admission;
    })

  -- A message of the executor is about a call that is pending, if it is.
  abbrev pub known_call : Option ℕ → List (ℕ × (PendingCommand t)) → Option (ℕ × (PendingCommand t))
  known_call none pending = none
  known_call (some id) pending = elim (get id pending) [ none ↦ none | some p ↦ some (id, p) ]

  abbrev pub begin_database_call :
      ℕ → Option ℕ → Option t.Database → t.DatabaseCall → ExecutorDriver t → ExecutorDriver t
  begin_database_call call_id message_id database call d = record d {
    database_calls =
        d.database_calls
        ++ record { call_id = call_id; message_id = message_id; database = database; call = call }
          ∷ [];
  }

  unfoldable pub call_database :
      ℕ → Option ℕ → t.DatabaseCall → ExecutorDriver t → Result (ExecutorDriver t)
  call_database call_id message_id call d = elim (known_call message_id d.pending) [
    | none ↦ ok (begin_database_call call_id none d.database call d)
    | some (id, p) ↦
        ensure (insert_id id d.database_ids).0 "actor sent concurrent database calls"
        >> ok (
            begin_database_call call_id (some id) p.database call
              (record d { database_ids = (insert_id id d.database_ids).1 }))
  ]

  -- What a task of `call_database` ends with, when the database, if there is one, answers so.
  abbrev pub database_outcome :
      Option t.Database → Result t.DatabaseResult → Result t.DatabaseResult
  database_outcome none answer = err "actor database is unavailable"
  database_outcome (some database) answer = answer

  abbrev pub result_message : ℕ → Result t.DatabaseResult → ActorExecutorServerMessage t
  result_message call_id (ok result) = database_result call_id (some result) none
  result_message call_id (err e) = database_result call_id none (some e)
  result_message call_id out_of_fuel = database_result call_id none (some "")

  unfoldable pub call_actor : ℕ → t.ActorCall → ExecutorDriver t → ExecutorDriver t
  call_actor call_id call d = record d {
    actor_calls = d.actor_calls ++ record { call_id = call_id; calls = d.calls; call = call } ∷ [];
  }

  -- What a task of `call_actor` ends with.
  abbrev pub actor_outcome : Option t.Caller → t.Value → t.Value
  actor_outcome none answer = t.unavailable_calls
  actor_outcome (some calls) answer = answer

  unfoldable pub load_connections : ℕ → SocketQuery → ExecutorDriver t → Result (ExecutorDriver t)
  load_connections message_id query d = do
    pending ← context (get message_id d.pending) "connection lookup has no active actor invocation"
    ensure (not (is_evict t pending.command)) "cannot load connections during eviction"
    ensure (insert_id message_id d.connection_lookup_ids).0
        "actor sent concurrent connection lookups"
    ok (record d {
      connection_lookup_ids = (insert_id message_id d.connection_lookup_ids).1;
      loading_connections =
          d.loading_connections
          ++ record { message_id = message_id; sockets = d.sockets; query = query } ∷ [];
    })

  -- What a task of `load_connections` ends with.
  abbrev pub lookup_outcome :
      Option t.SocketSource → Result (SocketLookup t.Value) → Result (SocketLookup t.Value)
  lookup_outcome none answer = err "actor connection lookup is unavailable"
  lookup_outcome (some sockets) answer = answer

  abbrev pub connections_message : ℕ → Result (SocketLookup t.Value) → ActorExecutorServerMessage t
  connections_message message_id (ok found) = socket_connections message_id found none
  connections_message message_id (err e) =
      socket_connections message_id (SocketLookup.connections []) (some e)
  connections_message message_id out_of_fuel =
      socket_connections message_id (SocketLookup.connections []) (some "")

  unfoldable pub publish :
      ℕ → List (ActorSocketEffect t.Value) → ExecutorDriver t → Result (ExecutorDriver t)
  publish message_id effects d = do
    pending ← context (get message_id d.pending) "socket output has no active actor invocation"
    ok (record d {
      publications =
          d.publications
          ++ record {
            connecting = is_connecting t pending.command;
            publisher = d.publisher;
            effects = effects;
          }
            ∷ [];
    })

  abbrev pub log_request_id : Option (ℕ × (PendingCommand t)) → Option String
  log_request_id none = none
  log_request_id (some (id, p)) = request_id t p.command

  unfoldable pub log_record : Option ℕ → t.LogLevel → String → ExecutorDriver t → ExecutorDriver t
  log_record message_id level message d = record d {
    records =
        d.records
        ++ (
          d.logs,
          record {
            request_id = log_request_id (known_call message_id d.pending);
            level = level;
            message = message;
          },
        )
          ∷ [];
  }

  unfoldable pub deliver : ℕ → ExecutorReply t → ExecutorDriver t → Result (ExecutorDriver t)
  deliver message_id answer d = do
    ensure (not (has_id message_id d.database_ids))
        "actor replied before its database call completed"
    ensure (not (has_id message_id d.connection_lookup_ids))
        "actor completed before connection lookup finished"
    pending ← context (get message_id d.pending) "actor executor replied to unknown message"
    ok (record d {
      pending = remove message_id d.pending;
      replies = d.replies ++ (pending.reply, ok answer) ∷ [];
    })
