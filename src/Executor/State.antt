-- ===== src/Executor/State.antt =====
-- The state of `ExecutorDriver` in src/actor/executor_connection.rs.
use durable_actors.Prelude.{
  ℕ, suc, String, Bool, true, false, List, [], ◌∷◌, Option, none, some, Result, zero,
}
use durable_actors.Prelude.Maps.{get, insert, remove, nat_eq}
use durable_actors.Ownership.Types.{ActorKey}
use durable_actors.Sockets.{ActorSocketEffect}
use durable_actors.Sockets.Operations.{SocketQuery}
use durable_actors.Executor.{Services, ExecutorCommand, ExecutorReply}

-- A `HashSet<u64>`: a map to the unit type.
abbrev pub Ids : Type 0
Ids = List (ℕ × Unit {0})

-- `ids.insert(id)`, which says whether the identifier is new.
abbrev pub insert_id : ℕ → Ids → Bool × Ids
insert_id id ids = (elim (get id ids) [ none ↦ true | some u ↦ false ], insert id tt ids)

abbrev pub has_id : ℕ → Ids → Bool
has_id id ids = elim (get id ids) [ none ↦ false | some u ↦ true ]

-- The task that ends, at its position, and the others.
abbrev pub take_at {ℓ} : {A : Type ℓ} → ℕ → List A → Option (A × List A)
take_at position [] = none
take_at zero (task ∷ tasks) = some (task, tasks)
take_at (suc position) (task ∷ tasks) = elim (take_at position tasks) [
  | none ↦ none
  | some (found, others) ↦ some (found, task ∷ others)
]

abbrev pub release_id : Option ℕ → Ids → Ids
release_id none ids = ids
release_id (some id) ids = remove id ids

module _ (t : Services) where
  -- The identifier of the `oneshot` channel stands for its sender.
  pub record PendingCommand : Type 0 where
    pub command : ExecutorCommand t
    pub database : Option t.Database
    pub admission_granted : Bool
    pub reply : ℕ

  pub data ExecutorRequest : Type 0 where
    exchange : PendingCommand → ExecutorRequest
    ready :
        ActorKey
        → ℕ
        → Option t.SocketPublisher
        → Option t.SocketSource
        → Option t.Database
        → Option t.Caller
        → Option t.LogSink
        → ExecutorRequest

  pub record ExecutorWrite : Type 0 where
    pub bytes : List ℕ
    pub written : Option ℕ

  pub record DatabaseTask : Type 0 where
    pub call_id : ℕ
    pub message_id : Option ℕ
    pub database : Option t.Database
    pub call : t.DatabaseCall

  pub record ActorTask : Type 0 where
    pub call_id : ℕ
    pub calls : Option t.Caller
    pub call : t.ActorCall

  pub record LookupTask : Type 0 where
    pub message_id : ℕ
    pub sockets : Option t.SocketSource
    pub query : SocketQuery

  -- The task that `publish` spawns.
  pub record Publication : Type 0 where
    pub connecting : Bool
    pub publisher : Option t.SocketPublisher
    pub effects : List (ActorSocketEffect t.Value)

  pub record ActorLogRecord : Type 0 where
    pub request_id : Option String
    pub level : t.LogLevel
    pub message : String

  -- `ExecutorDriver`, then what it has done: the replies that it sent to those who wait for them, the
  -- tasks that publish, and the records that it logged, each with its sink. The sets of tasks are in
  -- the order in which the tasks began. A count stands for a channel that only says that it changed,
  -- and no sink of its own for the standard output.
  pub record ExecutorDriver : Type 0 where
    pub admission : ℕ
    pub changes : ℕ
    pub residency : Option (ℕ × Bool)
    pub pending : List (ℕ × PendingCommand)
    pub next_message_id : ℕ
    pub outbound : List ExecutorWrite
    pub writer_runs : Bool
    pub publisher : Option t.SocketPublisher
    pub sockets : Option t.SocketSource
    pub database : Option t.Database
    pub calls : Option t.Caller
    pub logs : Option t.LogSink
    pub loading_connections : List LookupTask
    pub connection_lookup_ids : Ids
    pub database_calls : List DatabaseTask
    pub database_ids : Ids
    pub actor_calls : List ActorTask
    pub replies : List (ℕ × Result (ExecutorReply t))
    pub publications : List Publication
    pub records : List (Option t.LogSink × ActorLogRecord)

  -- The driver that `run_executor_connection` starts.
  abbrev pub new_driver : ExecutorDriver
  new_driver = record {
    admission = 0;
    changes = 0;
    residency = none;
    pending = [];
    next_message_id = 1;
    outbound = [];
    writer_runs = true;
    publisher = none;
    sockets = none;
    database = none;
    calls = none;
    logs = none;
    loading_connections = [];
    connection_lookup_ids = [];
    database_calls = [];
    database_ids = [];
    actor_calls = [];
    replies = [];
    publications = [];
    records = [];
  }
