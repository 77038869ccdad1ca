-- ===== src/Executor/Answers.antt =====
-- How often the calls of an executor are answered, and admit others: src/actor/executor_connection.rs.
use durable_actors.Prelude.{
  ℕ, ◌+◌, ◌≤◌, ◌≡◌, Bool, true, false, not, ◌&&◌, List, [], ◌∷◌, ◌++◌, Result, ok, err, ◌==◌,
  if◌then◌else◌, append-nil, arith,
}
use durable_actors.Prelude.Maps.{
  nat_eq, count_by, count_by-insert_new, count_by-insert_old, count_by-remove,
}
use durable_actors.Executor.{Services, ExecutorReply, is_invocation}
use durable_actors.Executor.State.{PendingCommand}
use durable_actors.Executor.Moves.{
  Calls, Moves, stays, grants, asks_alone, asks, is_told, looks, finds, delivers, sends, refuses,
}
use durable_actors.Executor.Numbering.{count_in, count_in-append, Numbered, next_is_new}

module _ (t : Services) where
  abbrev pub may_admit : PendingCommand t → Bool
  may_admit p = is_invocation t p.command && not p.admission_granted

  abbrev pub is_call : PendingCommand t → Bool
  is_call p = is_invocation t p.command

  -- The call waits on a channel.
  abbrev pub waits_on : ℕ → PendingCommand t → Bool
  waits_on channel p = p.reply == channel

  abbrev pub sent_on : ℕ → ℕ × Result (ExecutorReply t) → Bool
  sent_on channel (reply, answer) = reply == channel

  may_admit-le :
      (p : PendingCommand t) → (if may_admit p then 1 else 0) ≤ (if is_call p then 1 else 0)
  may_admit-le p = ground arith

  pub record Answered (submitted : List (PendingCommand t)) (pending : List (ℕ × PendingCommand t))
      (admission : ℕ) (replies : List (ℕ × Result (ExecutorReply t))) : Type 0 where
    pub admissions : admission + count_by may_admit pending ≤ count_in is_call submitted
    pub answers :
        (channel : ℕ)
        → count_in (waits_on channel) submitted
          ≡ count_by (waits_on channel) pending + count_in (sent_on channel) replies

  pub Moves-Answered :
      (submitted more : List (PendingCommand t)) (c c' : Calls t)
      → Moves t more c c'
      → Numbered t submitted c.pending c.next_message_id
      → Answered submitted c.pending c.admission c.replies
      → Answered (submitted ++ more) c'.pending c'.admission c'.replies
  Moves-Answered submitted [] c c' stays n w = rw (append-nil submitted) w
  Moves-Answered submitted [] c c' (grants id p found invocation first) n w =
      rw (append-nil submitted) (record {
        admissions =
            let changed =
              count_by-insert_old may_admit id (record p { admission_granted = true }) p c.pending
                found in
            let admits : may_admit p ≡ true = ground (arith, invocation, first) in
            let admitted : may_admit (record p { admission_granted = true }) ≡ false =
              ground arith in
            ground (arith, changed, admits, admitted, w.admissions);
        answers = λ channel.
            let before = w.answers channel in
            let changed =
              count_by-insert_old (waits_on channel) id (record p { admission_granted = true }) p
                c.pending found in
            omega (arith, before, changed);
      })
  Moves-Answered submitted [] c c' (asks_alone task alone) n w = rw (append-nil submitted) w
  Moves-Answered submitted [] c c' (asks id p task found free is_id) n w =
      rw (append-nil submitted) w
  Moves-Answered submitted [] c c' (is_told position task others ends) n w =
      rw (append-nil submitted) w
  Moves-Answered submitted [] c c' (looks p task found free) n w = rw (append-nil submitted) w
  Moves-Answered submitted [] c c' (finds position task others ends) n w =
      rw (append-nil submitted) w
  Moves-Answered submitted [] c c' (delivers id p answer found no_call no_lookup) n w =
      rw (append-nil submitted) (record {
        admissions =
            omega (arith, w.admissions, count_by-remove may_admit id p c.pending n.unique found);
        answers = λ channel.
            let before = w.answers channel in
            let removed = count_by-remove (waits_on channel) id p c.pending n.unique found in
            let added = count_in-append (sent_on channel) c.replies ((p.reply, ok answer) ∷ []) in
            omega (arith, before, removed, added);
      })
  Moves-Answered submitted more c c' (sends p) n w =
      let new = next_is_new t submitted c n in
      record {
        admissions =
            let inserted = count_by-insert_new may_admit c.next_message_id p c.pending new in
            let added = count_in-append is_call submitted (p ∷ []) in
            ground (arith, inserted, added, may_admit-le p, w.admissions);
        answers = λ channel.
            let before = w.answers channel in
            let inserted =
              count_by-insert_new (waits_on channel) c.next_message_id p c.pending new in
            let added = count_in-append (waits_on channel) submitted (p ∷ []) in
            omega (arith, before, inserted, added);
      }
  Moves-Answered submitted more c c' (refuses p e) n w = record {
    admissions = omega (arith, w.admissions, count_in-append is_call submitted (p ∷ []));
    answers = λ channel.
        let before = w.answers channel in
        let replied = count_in-append (sent_on channel) c.replies ((p.reply, err e) ∷ []) in
        let added = count_in-append (waits_on channel) submitted (p ∷ []) in
        omega (arith, before, replied, added);
  }
