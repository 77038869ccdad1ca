-- ===== src/Executor/Moves.antt =====
-- What a round of the loop of src/actor/executor_connection.rs does to the calls and their tasks.
use durable_actors.Prelude.{
  ℕ, suc, ◌+◌, ◌≡◌, String, true, false, List, [], ◌∷◌, ◌++◌, none, some, Result, ok, err,
}
use durable_actors.Prelude.Maps.{get, insert, remove, nat_eq}
use durable_actors.Executor.{Services, ExecutorReply, ActorExecutorServerMessage, is_invocation}
use durable_actors.Executor.State.{
  Ids, take_at, PendingCommand, exchange, DatabaseTask, LookupTask, ExecutorDriver, release_id,
}
use durable_actors.Executor.Loop.{Event, requested}

module _ (t : Services) where
  -- The calls, their tasks and their replies.
  pub record Calls : Type 0 where
    pub admission : ℕ
    pub pending : List (ℕ × PendingCommand t)
    pub next_message_id : ℕ
    pub loading_connections : List (LookupTask t)
    pub connection_lookup_ids : Ids
    pub database_calls : List (DatabaseTask t)
    pub database_ids : Ids
    pub replies : List (ℕ × Result (ExecutorReply t))

  abbrev pub calls_of : ExecutorDriver t → Calls
  calls_of d = record {
    admission = d.admission;
    pending = d.pending;
    next_message_id = d.next_message_id;
    loading_connections = d.loading_connections;
    connection_lookup_ids = d.connection_lookup_ids;
    database_calls = d.database_calls;
    database_ids = d.database_ids;
    replies = d.replies;
  }

  -- A round, with the commands that it takes.
  pub data Moves : List (PendingCommand t) → Calls → Calls → Type 0 where
    stays : {c : Calls} → Moves [] c c
    grants :
        {c : Calls} (id : ℕ) (p : PendingCommand t)
        → get id c.pending ≡ some p
        → is_invocation t p.command ≡ true
        → p.admission_granted ≡ false
        → Moves [] c (record c {
          pending = insert id (record p { admission_granted = true }) c.pending;
          admission = suc c.admission;
        })
    asks_alone :
        {c : Calls} (task : DatabaseTask t)
        → task.message_id ≡ none
        → Moves [] c (record c { database_calls = c.database_calls ++ task ∷ [] })
    asks :
        {c : Calls} (id : ℕ) (p : PendingCommand t) (task : DatabaseTask t)
        → get id c.pending ≡ some p
        → get id c.database_ids ≡ none
        → task.message_id ≡ some id
        → Moves [] c (record c {
          database_calls = c.database_calls ++ task ∷ [];
          database_ids = insert id tt c.database_ids;
        })
    is_told :
        {c : Calls} (position : ℕ) (task : DatabaseTask t) (others : List (DatabaseTask t))
        → take_at position c.database_calls ≡ some (task, others)
        → Moves [] c (record c {
          database_calls = others;
          database_ids = release_id task.message_id c.database_ids;
        })
    looks :
        {c : Calls} (p : PendingCommand t) (task : LookupTask t)
        → get task.message_id c.pending ≡ some p
        → get task.message_id c.connection_lookup_ids ≡ none
        → Moves [] c (record c {
          loading_connections = c.loading_connections ++ task ∷ [];
          connection_lookup_ids = insert task.message_id tt c.connection_lookup_ids;
        })
    finds :
        {c : Calls} (position : ℕ) (task : LookupTask t) (others : List (LookupTask t))
        → take_at position c.loading_connections ≡ some (task, others)
        → Moves [] c (record c {
          loading_connections = others;
          connection_lookup_ids = remove task.message_id c.connection_lookup_ids;
        })
    delivers :
        {c : Calls} (id : ℕ) (p : PendingCommand t) (answer : ExecutorReply t)
        → get id c.pending ≡ some p
        → get id c.database_ids ≡ none
        → get id c.connection_lookup_ids ≡ none
        → Moves [] c (record c {
          pending = remove id c.pending;
          replies = c.replies ++ (p.reply, ok answer) ∷ [];
        })
    sends :
        {c : Calls} (p : PendingCommand t)
        → Moves (p ∷ []) c (record c {
          next_message_id = c.next_message_id + 1;
          pending = insert c.next_message_id p c.pending;
        })
    refuses :
        {c : Calls} (p : PendingCommand t) (e : String)
        → Moves (p ∷ []) c (record c {
          next_message_id = c.next_message_id + 1;
          replies = c.replies ++ (p.reply, err e) ∷ [];
        })

  abbrev pub submitted_by :
      {encode : ActorExecutorServerMessage t → Result (List ℕ)}
      → Event t encode
      → List (PendingCommand t)
  submitted_by (requested (exchange p)) = p ∷ []
  submitted_by event = []
