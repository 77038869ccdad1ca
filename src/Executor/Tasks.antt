-- ===== src/Executor/Tasks.antt =====
-- The tasks that work for the calls of an executor: src/actor/executor_connection.rs.
use durable_actors.Prelude.{ℕ, refl, true, List, Option, some}
use durable_actors.Executor.{Services}
use durable_actors.Executor.State.{PendingCommand, DatabaseTask, LookupTask}
use durable_actors.Executor.Moves.{
  Calls, Moves, stays, grants, asks_alone, asks, is_told, looks, finds, delivers, sends, refuses,
}
use durable_actors.Executor.Owned.{
  Owned, Owned-begin, Owned-begin_alone, Owned-end, Owned-insert, Owned-remove,
}

module _ (t : Services) where
  abbrev pub database_call_of : DatabaseTask t → Option ℕ
  database_call_of task = task.message_id

  abbrev pub lookup_call_of : LookupTask t → Option ℕ
  lookup_call_of task = some task.message_id

  -- A call whose identifier is in a set has one task of that kind, and it is pending.
  pub record Tasks (c : Calls t) : Type 0 where
    pub database : Owned database_call_of c.database_calls c.database_ids c.pending
    pub lookups : Owned lookup_call_of c.loading_connections c.connection_lookup_ids c.pending

  pub Moves-Tasks :
      (more : List (PendingCommand t)) (c c' : Calls t) → Moves t more c c' → Tasks c → Tasks c'
  Moves-Tasks more c c' stays w = w
  Moves-Tasks more c c' (grants id p found invocation first) w =
      let q = record p { admission_granted = true } in
      record {
        database =
            Owned-insert database_call_of c.database_calls c.database_ids c.pending id q w.database;
        lookups =
            Owned-insert lookup_call_of c.loading_connections c.connection_lookup_ids c.pending id q
              w.lookups;
      }
  Moves-Tasks more c c' (asks_alone task alone) w = record {
    database =
        Owned-begin_alone database_call_of c.database_calls task c.database_ids c.pending alone
          w.database;
    lookups = w.lookups;
  }
  Moves-Tasks more c c' (asks id p task found free is_id) w = record {
    database =
        Owned-begin database_call_of c.database_calls task c.database_ids c.pending id p is_id found
          free w.database;
    lookups = w.lookups;
  }
  Moves-Tasks more c c' (is_told position task others ends) w = record {
    database =
        Owned-end database_call_of position c.database_calls task others c.database_ids c.pending
          ends w.database;
    lookups = w.lookups;
  }
  Moves-Tasks more c c' (looks p task found free) w = record {
    database = w.database;
    lookups =
        Owned-begin lookup_call_of c.loading_connections task c.connection_lookup_ids c.pending
          task.message_id p refl found free w.lookups;
  }
  Moves-Tasks more c c' (finds position task others ends) w = record {
    database = w.database;
    lookups =
        Owned-end lookup_call_of position c.loading_connections task others c.connection_lookup_ids
          c.pending ends w.lookups;
  }
  Moves-Tasks more c c' (delivers id p answer found no_call no_lookup) w = record {
    database =
        Owned-remove database_call_of c.database_calls c.database_ids c.pending id no_call
          w.database;
    lookups =
        Owned-remove lookup_call_of c.loading_connections c.connection_lookup_ids c.pending id
          no_lookup w.lookups;
  }
  Moves-Tasks more c c' (sends p) w = record {
    database =
        Owned-insert database_call_of c.database_calls c.database_ids c.pending c.next_message_id p
          w.database;
    lookups =
        Owned-insert lookup_call_of c.loading_connections c.connection_lookup_ids c.pending
          c.next_message_id p w.lookups;
  }
  Moves-Tasks more c c' (refuses p e) w = record { database = w.database; lookups = w.lookups }
