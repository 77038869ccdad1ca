-- ===== src/Executor/Runs.antt =====
-- What holds after any run of the driver of an executor: src/actor/executor_connection.rs.
use durable_actors.Prelude.{
  ℕ, ◌≡◌, refl, sym, List, [], ◌∷◌, ◌++◌, Result, ok, append_assoc, append-nil, arith, IfOk-ok,
  >>=-eq-ok,
}
use durable_actors.Prelude.Maps.{nat_eq}
use durable_actors.Executor.{Services, ActorExecutorServerMessage}
use durable_actors.Executor.State.{PendingCommand, ExecutorDriver, new_driver}
use durable_actors.Executor.Loop.{Event, step, run}
use durable_actors.Executor.Rounds.{step-Moved}
use durable_actors.Executor.Moves.{Calls, calls_of, Moves, submitted_by}
use durable_actors.Executor.Numbering.{Numbered, Moves-Numbered}
use durable_actors.Executor.Tasks.{Tasks, Moves-Tasks}
use durable_actors.Executor.Answers.{Answered, Moves-Answered}

module _ (t : Services) (encode : ActorExecutorServerMessage t → Result (List ℕ)) where
  -- The calls that a run's events submit, in their order.
  abbrev pub submitted : List (Event t encode) → List (PendingCommand t)
  submitted [] = []
  submitted (event ∷ events) = submitted_by t event ++ submitted events

  pub record WellFormed (taken : List (PendingCommand t)) (c : Calls t) : Type 0 where
    pub numbering : Numbered t taken c.pending c.next_message_id
    pub tasks : Tasks t c
    pub answered : Answered t taken c.pending c.admission c.replies

  Moves-WellFormed :
      (taken more : List (PendingCommand t)) (c c' : Calls t)
      → Moves t more c c'
      → WellFormed taken c
      → WellFormed (taken ++ more) c'
  Moves-WellFormed taken more c c' m w = record {
    numbering = Moves-Numbered t taken more c c' m w.numbering;
    tasks = Moves-Tasks t more c c' m w.tasks;
    answered = Moves-Answered t taken more c c' m w.numbering w.answered;
  }

  pub step-Moves :
      (event : Event t encode) (d : ExecutorDriver t) {d' : ExecutorDriver t}
      → step t encode event d ≡ ok d'
      → Moves t (submitted_by t event) (calls_of t d) (calls_of t d')
  step-Moves event d h =
      IfOk-ok (λ d'. Moves t (submitted_by t event) (calls_of t d) (calls_of t d'))
        (step t encode event d) (step-Moved t encode event d) h

  run-WellFormed_from :
      (taken : List (PendingCommand t)) (events : List (Event t encode)) (d : ExecutorDriver t)
      {d' : ExecutorDriver t}
      → run t encode events d ≡ ok d'
      → WellFormed taken (calls_of t d)
      → WellFormed (taken ++ submitted events) (calls_of t d')
  run-WellFormed_from taken [] d h w =
      IfOk-ok (λ d'. WellFormed (taken ++ []) (calls_of t d')) (ok d) (rw (append-nil taken) w) h
  run-WellFormed_from taken (event ∷ events) d h w =
      let (next, stepped, rest) = >>=-eq-ok (step t encode event d) (run t encode events) h in
      rw (sym (append_assoc taken (submitted_by t event) (submitted events))) (
        run-WellFormed_from (taken ++ submitted_by t event) events next rest (
          Moves-WellFormed taken (submitted_by t event) (calls_of t d) (calls_of t next)
            (step-Moves event d stepped) w))

  -- After any run, calls are numbered in the order in which they were submitted; a call that the driver
  -- notes as having a database call, or a lookup of connections, has one such task and is pending, and no other call has a
  -- task of that kind; the commands that wait on a channel and the replies sent on it are
  -- as many as the commands submitted with it; and no more admissions are given than invocations submitted.
  pub run-WellFormed :
      (events : List (Event t encode)) (d : ExecutorDriver t)
      → run t encode events (new_driver t) ≡ ok d
      → WellFormed (submitted events) (calls_of t d)
  run-WellFormed events d h = run-WellFormed_from [] events (new_driver t) h (record {
    numbering = record { next = refl; unique = tt; numbered = tt };
    tasks = record { database = λ id. (refl, omega arith); lookups = λ id. (refl, omega arith) };
    answered = record { admissions = omega arith; answers = λ channel. refl };
  })
