-- ===== src/Executor/Owned.antt =====
-- Tasks that work for a call, and the set of the calls that have one: src/actor/executor_connection.rs.
use durable_actors.Prelude.{
  ℕ, zero, suc, ◌+◌, ◌≤◌, ◌≡◌, ◌∙◌, refl, sym, inl, inr, List, [], ◌∷◌, ◌++◌, Option, none, some,
  ◌==◌, if◌then◌else◌, arith, Bool-cases, Option-cases,
}
use durable_actors.Prelude.Maps.{get, insert, remove, nat_eq, get-insert, get-remove}
use durable_actors.Executor.State.{Ids, release_id, take_at}

abbrev pub present {ℓ} : {V : Type ℓ} → Option V → ℕ
present none = 0
present (some v) = 1

present-le {ℓ} : {V : Type ℓ} (found : Option V) → present found ≤ 1
present-le none = omega arith
present-le (some v) = omega arith

abbrev pub has {ℓ} : {V : Type ℓ} → ℕ → List (ℕ × V) → ℕ
has id m = present (get id m)

abbrev pub is_for : ℕ → Option ℕ → ℕ
is_for id none = 0
is_for id (some k) = if k == id then 1 else 0

has-insert {ℓ} :
    {V : Type ℓ} (id k : ℕ) (v : V) (m : List (ℕ × V))
    → has id (insert k v m) ≡ (if k == id then 1 else has id m)
has-insert id k v m = elim (Bool-cases (k == id)) [
  | inl same ↦ rw (get-insert id k v m, has) (rw same refl)
  | inr other ↦ rw (get-insert id k v m, has) (rw other refl)
]

has-remove {ℓ} :
    {V : Type ℓ} (id k : ℕ) (m : List (ℕ × V))
    → has id (remove k m) ≡ (if k == id then 0 else has id m)
has-remove id k m = elim (Bool-cases (k == id)) [
  | inl same ↦ rw (get-remove id k m, has) (rw same refl)
  | inr other ↦ rw (get-remove id k m, has) (rw other refl)
]

has_of {ℓ} : {V : Type ℓ} (id : ℕ) (v : V) (m : List (ℕ × V)) → get id m ≡ some v → has id m ≡ 1
has_of id v m found = rw (found, has) refl

pub has_absent {ℓ} : {V : Type ℓ} (id : ℕ) (m : List (ℕ × V)) → get id m ≡ none → has id m ≡ 0
has_absent id m absent = rw (absent, has) refl

module _ {ℓ} {A : Type ℓ} (call_of : A → Option ℕ) where
  -- How many tasks work for a call.
  abbrev pub running : ℕ → List A → ℕ
  running id [] = 0
  running id (task ∷ tasks) = is_for id (call_of task) + running id tasks

  running-append :
      (id : ℕ) (tasks : List A) (task : A)
      → running id (tasks ++ task ∷ []) ≡ running id tasks + is_for id (call_of task)
  running-append id [] task = omega arith
  running-append id (first ∷ tasks) task = omega (arith, running-append id tasks task)

  running-take_at :
      (id position : ℕ) (tasks : List A) (task : A) (others : List A)
      → take_at position tasks ≡ some (task, others)
      → running id tasks ≡ is_for id (call_of task) + running id others
  running-take_at id position [] task others h = absurd (ground arith)
  running-take_at id zero (first ∷ tasks) task others h =
      let one : first ≡ task = ground (arith, h) in
      let rest : tasks ≡ others = ground (arith, h) in rw (one, rest) refl
  running-take_at id (suc position) (first ∷ tasks) task others h =
      elim (Option-cases (take_at position tasks)) [
        | inl absent ↦ absurd (ground (arith, h, absent))
        | inr ((found, left), e) ↦
            let one : found ≡ task = ground (arith, h, e) in
            let rest : first ∷ left ≡ others = ground (arith, h, e) in
            let before = running-take_at id position tasks found left e in
            rw (sym rest, sym one) (omega (arith, before))
      ]

  -- Each call that is in the set has one task, and no other call has one; and it is pending.
  abbrev pub Owned {κ} : {V : Type κ} → List A → Ids → List (ℕ × V) → Type 0
  Owned tasks ids pending =
      (id : ℕ) → (running id tasks ≡ has id ids) × (has id ids ≤ has id pending)

  pub Owned-begin {κ} :
      {V : Type κ} (tasks : List A) (task : A) (ids : Ids) (pending : List (ℕ × V)) (k : ℕ) (v : V)
      → call_of task ≡ some k
      → get k pending ≡ some v
      → get k ids ≡ none
      → Owned tasks ids pending
      → Owned (tasks ++ task ∷ []) (insert k tt ids) pending
  Owned-begin tasks task ids pending k v is_k found free owned id = elim (Bool-cases (k == id)) [
    | inl same ↦
        let is_id : k ≡ id = ground (arith, same) in
        let free_id = has_absent id ids (rw (sym is_id) free) in
        let found_id = has_of id v pending (rw (sym is_id) found) in
        rw (running-append id tasks task, has-insert id k tt ids, is_k)
          (rw (same, found_id) (omega (arith, (owned id).0, free_id), omega arith))
    | inr other ↦
        rw (running-append id tasks task, has-insert id k tt ids, is_k)
          (rw other (omega (arith, (owned id).0), (owned id).1))
  ]

  pub Owned-begin_alone {κ} :
      {V : Type κ} (tasks : List A) (task : A) (ids : Ids) (pending : List (ℕ × V))
      → call_of task ≡ none
      → Owned tasks ids pending
      → Owned (tasks ++ task ∷ []) ids pending
  Owned-begin_alone tasks task ids pending alone owned id =
      (running-append id tasks task ∙ rw alone (omega (arith, (owned id).0)), (owned id).1)

  pub Owned-end {κ} :
      {V : Type κ} (position : ℕ) (tasks : List A) (task : A) (others : List A) (ids : Ids)
      (pending : List (ℕ × V))
      → take_at position tasks ≡ some (task, others)
      → Owned tasks ids pending
      → Owned others (release_id (call_of task) ids) pending
  Owned-end position tasks task others ids pending ends owned id =
      let split = running-take_at id position tasks task others ends in
      elim (Option-cases (call_of task)) [
        | inl alone ↦
            rw (alone, release_id) (ground (arith, split, (owned id).0, alone), (owned id).1)
        | inr (k, is_k) ↦ elim (Bool-cases (k == id)) [
          | inl same ↦
              rw (is_k, release_id)
                (rw (has-remove id k ids) (
                  rw same (
                    ground (arith, split, (owned id).0, is_k, same, present-le (get id ids)),
                    omega arith,
                  )))
          | inr other ↦
              rw (is_k, release_id)
                (rw (has-remove id k ids)
                  (rw other (ground (arith, split, (owned id).0, is_k, other), (owned id).1)))
        ]
      ]

  pub Owned-insert {κ} :
      {V : Type κ} (tasks : List A) (ids : Ids) (pending : List (ℕ × V)) (k : ℕ) (v : V)
      → Owned tasks ids pending
      → Owned tasks ids (insert k v pending)
  Owned-insert tasks ids pending k v owned id = (
    (owned id).0,
    rw (has-insert id k v pending) (ground (arith, (owned id).1, present-le (get id ids))),
  )

  pub Owned-remove {κ} :
      {V : Type κ} (tasks : List A) (ids : Ids) (pending : List (ℕ × V)) (k : ℕ)
      → get k ids ≡ none
      → Owned tasks ids pending
      → Owned tasks ids (remove k pending)
  Owned-remove tasks ids pending k free owned id = elim (Bool-cases (k == id)) [
    | inl same ↦
        let is_id : k ≡ id = ground (arith, same) in
        let free_id = has_absent id ids (rw (sym is_id) free) in
        ((owned id).0, rw (has-remove id k pending) (rw same (omega (arith, free_id))))
    | inr other ↦ ((owned id).0, rw (has-remove id k pending) (rw other (owned id).1))
  ]
