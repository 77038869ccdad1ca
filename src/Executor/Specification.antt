-- ===== src/Executor/Specification.antt =====
-- What the driver of an executor promises about each call: src/actor/executor_connection.rs.
use durable_actors.Prelude.{
  ℕ, ◌+◌, ◌<◌, ◌≡◌, refl, sym, ap, inl, inr, Bool, true, false, ◌&&◌, String, List, [], ◌∷◌, ◌++◌,
  Option, none, some, Result, ok, err, ltb, ◌==◌, arith, Bool-cases,
}
use durable_actors.Prelude.Maps.{
  get, insert, nat_eq, get-insert, get-remove, All-get, beq_refl, beq_ne,
}
use durable_actors.Executor.{Services, ExecutorReply, ActorExecutorServerMessage}
use durable_actors.Executor.State.{PendingCommand, ExecutorDriver, new_driver}
use durable_actors.Executor.Loop.{Event, step, run}
use durable_actors.Executor.Moves.{
  Calls, calls_of, Moves, stays, grants, asks_alone, asks, is_told, looks, finds, delivers, sends,
  refuses, submitted_by,
}
use durable_actors.Executor.Numbering.{nth-lt, IsNumbered, Numbered, next_is_new}
use durable_actors.Executor.Runs.{submitted, step-Moves, run-WellFormed}

-- What becomes of the call of a number. A call that waits has the channel of the one who asked.
pub data Phase : Type 0 where
  unused done : Phase
  waiting : ℕ → Phase

module _ (t : Services) where
  pub record Spec : Type 0 where
    pub phase : ℕ → Phase
    pub sent : List (ℕ × Result (ExecutorReply t))

  abbrev pub phase_of : Option (PendingCommand t) → Bool → Phase
  phase_of (some p) used = waiting p.reply
  phase_of none true = done
  phase_of none false = unused

  abbrev pub is_used : ℕ → ℕ → Bool
  is_used next id = ltb 0 id && ltb id next

  -- The specification's view of a driver.
  abbrev pub view : Calls t → Spec
  view c = record {
    phase = λ id. phase_of (get id c.pending) (is_used c.next_message_id id);
    sent = c.replies;
  }

  pub record ChangesAt (id : ℕ) (before after : Phase) (s s' : Spec) : Type 0 where
    pub was : s.phase id ≡ before
    pub becomes : s'.phase id ≡ after
    pub others : (other : ℕ) → (other == id) ≡ false → s'.phase other ≡ s.phase other

  -- A call is submitted once, and is answered once on the channel of the one who asked; a call that
  -- cannot be written is answered at once.
  pub data SpecStep (s s' : Spec) : Type 0 where
    quiet : ((id : ℕ) → s'.phase id ≡ s.phase id) → s'.sent ≡ s.sent → SpecStep s s'
    submits :
        (id channel : ℕ)
        → ChangesAt id unused (waiting channel) s s'
        → s'.sent ≡ s.sent
        → SpecStep s s'
    rejects :
        (id channel : ℕ) (e : String)
        → ChangesAt id unused done s s'
        → s'.sent ≡ s.sent ++ (channel, err e) ∷ []
        → SpecStep s s'
    answers :
        (id channel : ℕ) (answer : ExecutorReply t)
        → ChangesAt id (waiting channel) done s s'
        → s'.sent ≡ s.sent ++ (channel, ok answer) ∷ []
        → SpecStep s s'

  is_used-next : (next id : ℕ) → (id == next) ≡ false → is_used (next + 1) id ≡ is_used next id
  is_used-next next id other = ground arith

  phase-insert :
      (id k : ℕ) (p q : PendingCommand t) (pending : List (ℕ × PendingCommand t)) (used : Bool)
      → get k pending ≡ some p
      → q.reply ≡ p.reply
      → phase_of (get id (insert k q pending)) used ≡ phase_of (get id pending) used
  phase-insert id k p q pending used found same = elim (Bool-cases (k == id)) [
    | inl is_id ↦
        let e : k ≡ id = ground (arith, is_id) in
        let found_id : get id pending ≡ some p = rw (sym e) found in
        rw (get-insert id k q pending) (rw (is_id, found_id) (ap waiting same))
    | inr other ↦ rw (get-insert id k q pending) (rw other refl)
  ]

  is_used_of :
      (taken : List (PendingCommand t)) (c : Calls t) (id : ℕ) (p : PendingCommand t)
      → Numbered t taken c.pending c.next_message_id
      → get id c.pending ≡ some p
      → is_used c.next_message_id id ≡ true
  is_used_of taken c id p n found =
      let (place, is_place, q, at, same_command, same_reply) =
        All-get (IsNumbered t taken) id p c.pending n.numbered found in
      ground (arith, nth-lt place taken q at, is_place, n.next)

  unused_next : (next : ℕ) → is_used next next ≡ false
  unused_next next = ground arith

  used_next : (next : ℕ) → 0 < next → is_used (next + 1) next ≡ true
  used_next next positive = ground (arith, positive)

  Moves-SpecStep :
      (taken more : List (PendingCommand t)) (c c' : Calls t)
      → Moves t more c c'
      → Numbered t taken c.pending c.next_message_id
      → SpecStep (view c) (view c')
  Moves-SpecStep taken more c c' stays n = quiet (λ id. refl) refl
  Moves-SpecStep taken more c c' (grants id p found invocation first) n =
      quiet
        (λ other.
          phase-insert other id p (record p { admission_granted = true }) c.pending
            (is_used c.next_message_id other) found refl)
        refl
  Moves-SpecStep taken more c c' (asks_alone task alone) n = quiet (λ id. refl) refl
  Moves-SpecStep taken more c c' (asks id p task found free is_id) n = quiet (λ id. refl) refl
  Moves-SpecStep taken more c c' (is_told position task others ends) n = quiet (λ id. refl) refl
  Moves-SpecStep taken more c c' (looks p task found free) n = quiet (λ id. refl) refl
  Moves-SpecStep taken more c c' (finds position task others ends) n = quiet (λ id. refl) refl
  Moves-SpecStep taken more c c' (delivers id p answer found no_call no_lookup) n =
      answers id p.reply answer
        (record {
          was = rw found refl;
          becomes =
              rw (get-remove id id c.pending, is_used_of taken c id p n found)
                (rw (beq_refl id) refl);
          others = λ other differs.
              rw (get-remove other id c.pending) (rw (beq_ne other id differs) refl);
        })
        refl
  Moves-SpecStep taken more c c' (sends p) n =
      submits c.next_message_id p.reply
        (record {
          was = rw (next_is_new t taken c n) (rw (unused_next c.next_message_id) refl);
          becomes =
              rw (get-insert c.next_message_id c.next_message_id p c.pending)
                (rw (beq_refl c.next_message_id) refl);
          others = λ other differs.
              rw
                (
                  get-insert other c.next_message_id p c.pending,
                  is_used-next c.next_message_id other differs,
                )
                (rw (beq_ne other c.next_message_id differs) refl);
        })
        refl
  Moves-SpecStep taken more c c' (refuses p e) n =
      rejects c.next_message_id p.reply e
        (record {
          was = rw (next_is_new t taken c n) (rw (unused_next c.next_message_id) refl);
          becomes =
              rw (next_is_new t taken c n)
                (rw (used_next c.next_message_id (omega (arith, n.next))) refl);
          others = λ other differs. rw (is_used-next c.next_message_id other differs) refl;
        })
        refl

-- After any run, a further round of the driver is a step of the specification, or leaves its view as it
-- is: a call goes from unused to waiting to done, at the number that it has, and no reply is sent
-- without a call going to done.
pub step-SpecStep :
    (t : Services) (encode : ActorExecutorServerMessage t → Result (List ℕ))
    (events : List (Event t encode)) (event : Event t encode) (d d' : ExecutorDriver t)
    → run t encode events (new_driver t) ≡ ok d
    → step t encode event d ≡ ok d'
    → SpecStep t (view t (calls_of t d)) (view t (calls_of t d'))
step-SpecStep t encode events event d d' ran stepped =
    Moves-SpecStep t (submitted t encode events) (submitted_by t event) (calls_of t d)
      (calls_of t d') (step-Moves t encode event d stepped)
      (run-WellFormed t encode events d ran).numbering
