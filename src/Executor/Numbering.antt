-- ===== src/Executor/Numbering.antt =====
-- How the calls of an executor are numbered: src/actor/executor_connection.rs.
use durable_actors.Prelude.{
  ℕ, zero, suc, ◌+◌, ◌<◌, ◌≡◌, refl, inl, inr, Bool, true, List, [], ◌∷◌, ◌++◌, Option, none, some,
  if◌then◌else◌, length, length-append, All, append-nil, arith, Option-cases,
}
use durable_actors.Prelude.Maps.{
  get, nat_eq, Unique, insert-Unique, remove-Unique, All-get, All-insert, All-remove,
}
use durable_actors.Executor.{Services}
use durable_actors.Executor.State.{PendingCommand}
use durable_actors.Executor.Moves.{
  Calls, Moves, stays, grants, asks_alone, asks, is_told, looks, finds, delivers, sends, refuses,
}

module _ {ℓ} {A : Type ℓ} where
  abbrev pub nth : ℕ → List A → Option A
  nth n [] = none
  nth zero (a ∷ xs) = some a
  nth (suc n) (a ∷ xs) = nth n xs

  nth-append : (n : ℕ) (xs ys : List A) (a : A) → nth n xs ≡ some a → nth n (xs ++ ys) ≡ some a
  nth-append n [] ys a h = absurd (ground (arith, h))
  nth-append zero (b ∷ xs) ys a h = h
  nth-append (suc n) (b ∷ xs) ys a h = nth-append n xs ys a h

  pub nth_last : (xs : List A) (a : A) → nth (length xs) (xs ++ a ∷ []) ≡ some a
  nth_last [] a = refl
  nth_last (b ∷ xs) a = nth_last xs a

  pub nth-lt : (n : ℕ) (xs : List A) (a : A) → nth n xs ≡ some a → n < length xs
  nth-lt n [] a h = absurd (ground (arith, h))
  nth-lt zero (b ∷ xs) a h = omega arith
  nth-lt (suc n) (b ∷ xs) a h = omega (arith, nth-lt n xs a h)

  -- How many elements pass a test.
  abbrev pub count_in : (A → Bool) → List A → ℕ
  count_in test [] = 0
  count_in test (a ∷ xs) = (if test a then 1 else 0) + count_in test xs

  pub count_in-append :
      (test : A → Bool) (xs ys : List A)
      → count_in test (xs ++ ys) ≡ count_in test xs + count_in test ys
  count_in-append test [] ys = omega arith
  count_in-append test (a ∷ xs) ys = omega (arith, count_in-append test xs ys)

module _ (t : Services) where
  -- Calls are numbered in the order in which they are submitted, from 1. A pending call has the command
  -- and the channel of the call that was submitted under its number.
  abbrev pub IsNumbered : List (PendingCommand t) → ℕ × PendingCommand t → Type 0
  IsNumbered submitted (id, p) =
      (n : ℕ) × (id ≡ suc n)
      × (q : PendingCommand t) × (nth n submitted ≡ some q)
      × (q.command ≡ p.command)
      × (q.reply ≡ p.reply)

  pub record Numbered (submitted : List (PendingCommand t)) (pending : List (ℕ × PendingCommand t))
      (next_message_id : ℕ) : Type 0 where
    pub next : next_message_id ≡ length submitted + 1
    pub unique : Unique pending
    pub numbered : All (IsNumbered submitted) pending

  IsNumbered-append :
      (submitted more : List (PendingCommand t)) (pending : List (ℕ × PendingCommand t))
      → All (IsNumbered submitted) pending
      → All (IsNumbered (submitted ++ more)) pending
  IsNumbered-append submitted more [] all = tt
  IsNumbered-append submitted more ((id, p) ∷ pending)
        ((n, e, q, at, same_command, same_reply), all) =
      (
        (n, e, q, nth-append n submitted more q at, same_command, same_reply),
        IsNumbered-append submitted more pending all,
      )

  pub next_is_new :
      (submitted : List (PendingCommand t)) (c : Calls t)
      → Numbered submitted c.pending c.next_message_id
      → get c.next_message_id c.pending ≡ none
  next_is_new submitted c w = elim (Option-cases (get c.next_message_id c.pending)) [
    | inl absent ↦ absent
    | inr (p, found) ↦
        let (n, e, q, at, same_command, same_reply) =
          All-get (IsNumbered submitted) c.next_message_id p c.pending w.numbered found in
        absurd (omega (arith, nth-lt n submitted q at, e, w.next))
  ]

  pub Moves-Numbered :
      (submitted more : List (PendingCommand t)) (c c' : Calls t)
      → Moves t more c c'
      → Numbered submitted c.pending c.next_message_id
      → Numbered (submitted ++ more) c'.pending c'.next_message_id
  Moves-Numbered submitted [] c c' stays w = rw (append-nil submitted) w
  Moves-Numbered submitted [] c c' (grants id p found invocation first) w =
      rw (append-nil submitted) (record {
        next = w.next;
        unique = insert-Unique id (record p { admission_granted = true }) c.pending w.unique;
        numbered =
            All-insert (IsNumbered submitted) id (record p { admission_granted = true }) c.pending
              (All-get (IsNumbered submitted) id p c.pending w.numbered found) w.numbered;
      })
  Moves-Numbered submitted [] c c' (asks_alone task alone) w = rw (append-nil submitted) w
  Moves-Numbered submitted [] c c' (asks id p task found free is_id) w = rw (append-nil submitted) w
  Moves-Numbered submitted [] c c' (is_told position task others ends) w =
      rw (append-nil submitted) w
  Moves-Numbered submitted [] c c' (looks p task found free) w = rw (append-nil submitted) w
  Moves-Numbered submitted [] c c' (finds position task others ends) w = rw (append-nil submitted) w
  Moves-Numbered submitted [] c c' (delivers id p answer found no_call no_lookup) w =
      rw (append-nil submitted) (record {
        next = w.next;
        unique = remove-Unique id c.pending w.unique;
        numbered = All-remove (IsNumbered submitted) id c.pending w.numbered;
      })
  Moves-Numbered submitted more c c' (sends p) w = record {
    next = ground (arith, length-append submitted (p ∷ []), w.next);
    unique = insert-Unique c.next_message_id p c.pending w.unique;
    numbered =
        All-insert (IsNumbered (submitted ++ p ∷ [])) c.next_message_id p c.pending
          (length submitted, ground (arith, w.next), p, nth_last submitted p, refl, refl)
          (IsNumbered-append submitted (p ∷ []) c.pending w.numbered);
  }
  Moves-Numbered submitted more c c' (refuses p e) w = record {
    next = ground (arith, length-append submitted (p ∷ []), w.next);
    unique = w.unique;
    numbered = IsNumbered-append submitted (p ∷ []) c.pending w.numbered;
  }
