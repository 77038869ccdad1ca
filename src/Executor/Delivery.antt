-- ===== src/Executor/Delivery.antt =====
-- How the replies of an executor reach those who wait for them: src/actor/executor_connection.rs.
use durable_actors.Prelude.{
  ℕ, suc, ◌≡◌, ◌∙◌, refl, inl, inr, List, [], ◌∷◌, ◌++◌, Option, none, some, Result, ok, arith,
  IfOk, IfOk-ok, Bool-cases, Option-cases,
}
use durable_actors.Prelude.Maps.{get, nat_eq, get-remove, All-get}
use durable_actors.Executor.{Services, ExecutorReply, ActorExecutorServerMessage, reply}
use durable_actors.Executor.State.{Ids, has_id, PendingCommand, ExecutorDriver, new_driver}
use durable_actors.Executor.Driver.{deliver}
use durable_actors.Executor.Loop.{Event, step, run, received, handle_message}
use durable_actors.Executor.Rounds.{absent_of}
use durable_actors.Executor.Moves.{calls_of}
use durable_actors.Executor.Owned.{running, Owned, has_absent}
use durable_actors.Executor.Numbering.{nth, IsNumbered}
use durable_actors.Executor.Tasks.{database_call_of, lookup_call_of}
use durable_actors.Executor.Runs.{submitted, WellFormed, run-WellFormed}

module _ (t : Services) (encode : ActorExecutorServerMessage t → Result (List ℕ)) where
  -- A reply is sent to the one who submitted the call of its number, once no task works for it.
  pub record Delivered (taken : List (PendingCommand t)) (id : ℕ) (answer : ExecutorReply t)
      (d d' : ExecutorDriver t) : Type 0 where
    pub place : ℕ
    pub is_place : id ≡ suc place
    pub asker : PendingCommand t
    pub asked : nth place taken ≡ some asker
    pub is_sent : d'.replies ≡ d.replies ++ (asker.reply, ok answer) ∷ []
    pub no_database_call : running (database_call_of t) id d.database_calls ≡ 0
    pub no_lookup : running (lookup_call_of t) id d.loading_connections ≡ 0
    pub is_done : get id d'.pending ≡ none

  no_task {ℓ κ} :
      {A : Type ℓ} {V : Type κ} (call_of : A → Option ℕ) (tasks : List A) (ids : Ids)
      (pending : List (ℕ × V)) (id : ℕ)
      → Owned call_of tasks ids pending
      → get id ids ≡ none
      → running call_of id tasks ≡ 0
  no_task call_of tasks ids pending id owned absent = (owned id).0 ∙ has_absent id ids absent

  deliver-Delivered :
      (taken : List (PendingCommand t)) (id : ℕ) (answer : ExecutorReply t) (d : ExecutorDriver t)
      → WellFormed t encode taken (calls_of t d)
      → IfOk (Delivered taken id answer d) (deliver t id answer d)
  unfolding deliver
  deliver-Delivered taken id answer d w = elim (Bool-cases (has_id id d.database_ids)) [
    | inl calls ↦ rw calls tt
    | inr no_call ↦ elim (Bool-cases (has_id id d.connection_lookup_ids)) [
      | inl looking ↦ rw no_call (rw looking tt)
      | inr unlooked ↦ elim (Option-cases (get id d.pending)) [
        | inl unknown ↦ rw no_call (rw unlooked (rw unknown tt))
        | inr (p, found) ↦
            let (n, is_n, q, at, same_command, same_reply) =
              All-get (IsNumbered t taken) id p d.pending w.numbering.numbered found in
            rw no_call (
              rw unlooked (
                rw found (record {
                  place = n;
                  is_place = is_n;
                  asker = q;
                  asked = at;
                  is_sent = rw same_reply refl;
                  no_database_call =
                      no_task (database_call_of t) d.database_calls d.database_ids d.pending id
                        w.tasks.database (absent_of t id d.database_ids no_call);
                  no_lookup =
                      no_task (lookup_call_of t) d.loading_connections d.connection_lookup_ids
                        d.pending id w.tasks.lookups
                        (absent_of t id d.connection_lookup_ids unlooked);
                  is_done = ground (arith, get-remove id id d.pending);
                })))
      ]
    ]
  ]

  -- After any run, a reply that the driver takes under a number goes to the channel of the call that
  -- was submitted under that number, counted from 1; at that time no database call and no lookup of
  -- connections of that call runs, and the call is not pending any more.
  pub reply-Delivered :
      (events : List (Event t encode)) (now id : ℕ) (answer : ExecutorReply t)
      (d d' : ExecutorDriver t)
      → run t encode events (new_driver t) ≡ ok d
      → step t encode (received now (reply id answer)) d ≡ ok d'
      → Delivered (submitted t encode events) id answer d d'
  unfolding step handle_message
  reply-Delivered events now id answer d d' ran taken =
      IfOk-ok (Delivered (submitted t encode events) id answer d) (deliver t id answer d)
        (deliver-Delivered (submitted t encode events) id answer d
          (run-WellFormed t encode events d ran))
        taken
