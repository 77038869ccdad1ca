-- ===== src/Executor/Rounds.antt =====
-- That each round of the loop of src/actor/executor_connection.rs is one of the moves.
use durable_actors.Prelude.{
  ℕ, ◌+◌, ◌≡◌, refl, inl, inr, true, false, List, [], ◌∷◌, Option, none, some, Result, arith, IfOk,
  Result-cases, ltb, Bool-cases, Option-cases,
}
use durable_actors.Prelude.Words.{u64_mod}
use durable_actors.Prelude.Maps.{get, nat_eq}
use durable_actors.Sockets.Operations.{SocketQuery}
use durable_actors.Sockets.{ActorSocketEffect}
use durable_actors.Executor.{
  Services, ExecutorReply, ActorExecutorServerMessage, command, attached,
  actor_executor_protocol_version, is_evict, is_invocation, ActorExecutorClientMessage,
  database_call, actor_call, warm, residency, get_connections, ready_for_invocation, socket_effects,
  attach, reply, log,
}
use durable_actors.Executor.State.{
  Ids, insert_id, has_id, take_at, PendingCommand, exchange, ready, ExecutorWrite, ExecutorDriver,
}
use durable_actors.Executor.Driver.{
  send_write, set_residency, allow_next_invocation, call_database, call_actor, load_connections,
  publish, log_record, deliver,
}
use durable_actors.Executor.Loop.{
  write_message, enqueue, handle_command, handle_message, Event, received, reader_failed,
  task_failed, database_ended, actor_ended, lookup_ended, requested, step,
}
use durable_actors.Executor.Moves.{
  calls_of, Moves, stays, grants, asks_alone, asks, is_told, looks, finds, delivers, sends, refuses,
  submitted_by,
}

module _ (t : Services) where
  -- What holds of the driver that a round leaves, if it does not fail.
  abbrev pub Moved : List (PendingCommand t) → ExecutorDriver t → Result (ExecutorDriver t) → Type 0
  Moved submitted d done = IfOk (λ d'. Moves t submitted (calls_of t d) (calls_of t d')) done

  send_write-Moved :
      (w : ExecutorWrite t) {submitted : List (PendingCommand t)} (d before : ExecutorDriver t)
      → Moves t submitted (calls_of t before) (calls_of t d)
      → Moved submitted before (send_write t w d)
  send_write-Moved w d before m = elim (Bool-cases d.writer_runs) [
    | inl runs ↦ rw runs m
    | inr stopped ↦ rw stopped tt
  ]

  allow-Moved : (id : ℕ) (d : ExecutorDriver t) → Moved [] d (allow_next_invocation t id d)
  unfolding allow_next_invocation
  allow-Moved id d = elim (Option-cases (get id d.pending)) [
    | inl unknown ↦ rw unknown tt
    | inr (p, found) ↦ elim (Bool-cases (is_invocation t p.command)) [
      | inr other ↦ rw found (rw other tt)
      | inl invocation ↦ elim (Bool-cases p.admission_granted) [
        | inl granted ↦ rw found (rw invocation (rw granted tt))
        | inr first ↦ rw found (rw invocation (rw first (grants id p found invocation first)))
      ]
    ]
  ]

  pub absent_of : (id : ℕ) (ids : Ids) → has_id id ids ≡ false → get id ids ≡ none
  absent_of id ids h = elim (Option-cases (get id ids)) [
    | inl absent ↦ absent
    | inr (u, found) ↦ absurd (ground (arith, found, h))
  ]

  new_of : (id : ℕ) (ids : Ids) → (insert_id id ids).0 ≡ true → get id ids ≡ none
  new_of id ids h = elim (Option-cases (get id ids)) [
    | inl absent ↦ absent
    | inr (u, found) ↦ absurd (ground (arith, found, h))
  ]

  deliver-Moved :
      (id : ℕ) (answer : ExecutorReply t) (d : ExecutorDriver t)
      → Moved [] d (deliver t id answer d)
  unfolding deliver
  deliver-Moved id answer d = elim (Bool-cases (has_id id d.database_ids)) [
    | inl calls ↦ rw calls tt
    | inr no_call ↦ elim (Bool-cases (has_id id d.connection_lookup_ids)) [
      | inl looking ↦ rw no_call (rw looking tt)
      | inr no_lookup ↦ elim (Option-cases (get id d.pending)) [
        | inl unknown ↦ rw no_call (rw no_lookup (rw unknown tt))
        | inr (p, found) ↦ rw no_call (
            rw no_lookup (
              rw found (
                delivers id p answer found (absent_of id d.database_ids no_call)
                  (absent_of id d.connection_lookup_ids no_lookup))))
      ]
    ]
  ]

  call_database-Moved :
      (call_id : ℕ) (message_id : Option ℕ) (call : t.DatabaseCall) (d : ExecutorDriver t)
      → Moved [] d (call_database t call_id message_id call d)
  unfolding call_database
  call_database-Moved call_id none call d = asks_alone _ refl
  call_database-Moved call_id (some id) call d = elim (Option-cases (get id d.pending)) [
    | inl unknown ↦ rw (unknown, call_database) (asks_alone _ refl)
    | inr (p, found) ↦ elim (Bool-cases (insert_id id d.database_ids).0) [
      | inr calls ↦ rw (found, call_database) (rw calls tt)
      | inl free ↦
          rw (found, call_database)
            (rw free (asks id p _ found (new_of id d.database_ids free) refl))
    ]
  ]

  load_connections-Moved :
      (id : ℕ) (query : SocketQuery) (d : ExecutorDriver t)
      → Moved [] d (load_connections t id query d)
  unfolding load_connections
  load_connections-Moved id query d = elim (Option-cases (get id d.pending)) [
    | inl unknown ↦ rw unknown tt
    | inr (p, found) ↦ elim (Bool-cases (is_evict t p.command)) [
      | inl evicts ↦ rw found (rw evicts tt)
      | inr other ↦ elim (Bool-cases (insert_id id d.connection_lookup_ids).0) [
        | inr looking ↦ rw found (rw other (rw looking tt))
        | inl free ↦ rw found (
            rw other (
              rw free (
                looks p (record { message_id = id; sockets = d.sockets; query = query }) found
                  (new_of id d.connection_lookup_ids free))))
      ]
    ]
  ]

  publish-Moved :
      (id : ℕ) (effects : List (ActorSocketEffect t.Value)) (d : ExecutorDriver t)
      → Moved [] d (publish t id effects d)
  unfolding publish
  publish-Moved id effects d = elim (Option-cases (get id d.pending)) [
    | inl unknown ↦ rw unknown tt
    | inr (p, found) ↦ rw found stays
  ]

  module _ (encode : ActorExecutorServerMessage t → Result (List ℕ)) where
    write_message-Moved :
        (message : ActorExecutorServerMessage t) {submitted : List (PendingCommand t)}
        (d before : ExecutorDriver t)
        → Moves t submitted (calls_of t before) (calls_of t d)
        → Moved submitted before (write_message t encode message d)
    write_message-Moved message d before m = elim (Result-cases (encode message)) [
      | inl (bytes, e) ↦ rw e (send_write-Moved _ d before m)
      | inr (inl (e, failed)) ↦ rw failed tt
      | inr (inr stuck) ↦ rw stuck tt
    ]

    enqueue-Moved :
        (p : PendingCommand t) (d : ExecutorDriver t) → Moved (p ∷ []) d (enqueue t encode p d)
    unfolding enqueue
    enqueue-Moved p d = elim (Bool-cases (ltb (d.next_message_id + 1) u64_mod)) [
      | inr full ↦ rw full tt
      | inl fits ↦ elim (Result-cases (encode (command d.next_message_id p.command))) [
        | inl (bytes, e) ↦ elim (Bool-cases d.writer_runs) [
          | inl runs ↦ rw fits (rw e (rw runs (sends p)))
          | inr stopped ↦ rw fits (rw e (rw stopped tt))
        ]
        | inr (inl (e, failed)) ↦ rw fits (rw failed (refuses p e))
        | inr (inr stuck) ↦ rw fits (rw stuck tt)
      ]
    ]

    handle_message-Moved :
        (now : ℕ) (message : ActorExecutorClientMessage t) (d : ExecutorDriver t)
        → Moved [] d (handle_message t encode now message d)
    unfolding handle_message set_residency call_actor log_record
    handle_message-Moved now (residency resident) d = stays
    handle_message-Moved now (ready_for_invocation id) d = allow-Moved id d
    handle_message-Moved now (reply id answer) d = deliver-Moved id answer d
    handle_message-Moved now (socket_effects id effects) d = publish-Moved id effects d
    handle_message-Moved now (database_call call_id id call) d =
        call_database-Moved call_id id call d
    handle_message-Moved now (get_connections id query) d = load_connections-Moved id query d
    handle_message-Moved now (actor_call call_id call) d = stays
    handle_message-Moved now (log id level message) d = stays
    handle_message-Moved now (warm protocol) d = tt
    handle_message-Moved now (attach protocol names) d = tt

    pub step-Moved :
        (event : Event t encode) (d : ExecutorDriver t)
        → Moved (submitted_by t event) d (step t encode event d)
    unfolding step handle_command
    step-Moved (received now message) d = handle_message-Moved now message d
    step-Moved (reader_failed e) d = tt
    step-Moved (task_failed e) d = tt
    step-Moved (database_ended position answer) d =
        elim (Option-cases (take_at position d.database_calls)) [
          | inl none_such ↦ rw none_such stays
          | inr ((task, others), ends) ↦
              rw ends (write_message-Moved _ _ d (is_told position task others ends))
        ]
    step-Moved (actor_ended position answer) d =
        elim (Option-cases (take_at position d.actor_calls)) [
          | inl none_such ↦ rw none_such stays
          | inr ((task, others), ends) ↦ rw ends (write_message-Moved _ _ d stays)
        ]
    step-Moved (lookup_ended position answer) d =
        elim (Option-cases (take_at position d.loading_connections)) [
          | inl none_such ↦ rw none_such stays
          | inr ((task, others), ends) ↦
              rw ends (write_message-Moved _ _ d (finds position task others ends))
        ]
    step-Moved (requested (exchange p)) d = enqueue-Moved p d
    step-Moved (requested (ready actor written publisher sockets database calls logs)) d =
        elim (Result-cases (encode (attached actor_executor_protocol_version actor))) [
          | inl (bytes, e) ↦ rw e (send_write-Moved _ _ d stays)
          | inr (inl (e, failed)) ↦ rw failed tt
          | inr (inr stuck) ↦ rw stuck tt
        ]
