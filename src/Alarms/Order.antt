-- ===== src/Alarms/Order.antt =====
-- The order in which src/control_plane/alarms.rs claims what is due, which `sort_due` makes.
use mathlib.Core.List.{Memᴰ}
use durable_actors.Prelude.{
  ℕ, zero, suc, ◌≤◌, ◌≡◌, ◌⊎◌, refl, ap, inl, inr, List, [], ◌∷◌, leb, length, take, arith, All,
  Bool-cases,
}
use durable_actors.Ownership.Types.{ActorKey}
use durable_actors.Alarms.{insert_due, sort_due}
use durable_actors.Alarms.Due.{All-insert_due}

abbrev pub Sorted : List (ℕ × ActorKey) → Type 0
Sorted [] = Unit
Sorted (c ∷ due) = All (λ d. c.0 ≤ d.0) due × Sorted due

All-le :
    (m n : ℕ) (due : List (ℕ × ActorKey)) → m ≤ n → All (λ d. n ≤ d.0) due → All (λ d. m ≤ d.0) due
All-le m n [] h all = tt
All-le m n (d ∷ due) h (e, all) = (omega (arith, h, e), All-le m n due h all)

insert_due-Sorted :
    (c : ℕ × ActorKey) (due : List (ℕ × ActorKey)) → Sorted due → Sorted (insert_due c due)
unfolding insert_due
insert_due-Sorted c [] h = (tt, tt)
insert_due-Sorted c (f ∷ due) (above, h) = elim (Bool-cases (leb c.0 f.0)) [
  | inl e ↦
      let le : c.0 ≤ f.0 = ground (arith, e) in rw e ((le, All-le c.0 f.0 due le above), (above, h))
  | inr e ↦
      let le : f.0 ≤ c.0 = ground (arith, e) in
      rw e (All-insert_due (λ d. f.0 ≤ d.0) c due le above, insert_due-Sorted c due h)
]

pub sort_due-Sorted : (due : List (ℕ × ActorKey)) → Sorted (sort_due due)
unfolding sort_due
sort_due-Sorted [] = tt
sort_due-Sorted (c ∷ due) = insert_due-Sorted c (sort_due due) (sort_due-Sorted due)

swapped_member :
    (x c f : ℕ × ActorKey) (due due' : List (ℕ × ActorKey))
    → (Memᴰ x (c ∷ due) → Memᴰ x due')
    → Memᴰ x (c ∷ f ∷ due)
    → Memᴰ x (f ∷ due')
swapped_member x c f due due' insert (Memᴰ.head same) = Memᴰ.tail (insert (Memᴰ.head same))
swapped_member x c f due due' insert (Memᴰ.tail (Memᴰ.head same)) = Memᴰ.head same
swapped_member x c f due due' insert (Memᴰ.tail (Memᴰ.tail rest)) =
    Memᴰ.tail (insert (Memᴰ.tail rest))

insert_due-member :
    (x c : ℕ × ActorKey) (due : List (ℕ × ActorKey)) → Memᴰ x (c ∷ due) → Memᴰ x (insert_due c due)
unfolding insert_due
insert_due-member x c [] m = m
insert_due-member x c (f ∷ due) m = elim (Bool-cases (leb c.0 f.0)) [
  | inl e ↦ rw e m
  | inr e ↦ rw e (swapped_member x c f due (insert_due c due) (insert_due-member x c due) m)
]

pub sort_due-member :
    (x : ℕ × ActorKey) (due : List (ℕ × ActorKey)) → Memᴰ x due → Memᴰ x (sort_due due)
unfolding sort_due
sort_due-member x [] m = elim m [ ]
sort_due-member x (c ∷ due) (Memᴰ.head e) = insert_due-member x c (sort_due due) (Memᴰ.head e)
sort_due-member x (c ∷ due) (Memᴰ.tail m) =
    insert_due-member x c (sort_due due) (Memᴰ.tail (sort_due-member x due m))

All-member :
    (n : ℕ) (x : ℕ × ActorKey) (due : List (ℕ × ActorKey))
    → All (λ d. n ≤ d.0) due
    → Memᴰ x due
    → n ≤ x.0
All-member n x [] all m = elim m [ ]
All-member n x (d ∷ due) (h, all) (Memᴰ.head e) = rw e h
All-member n x (d ∷ due) (h, all) (Memᴰ.tail m) = All-member n x due all m

-- What is due is among the first ones, or they are as many as wanted, and none of them is later.
pub taken_or_full :
    (n : ℕ) (x : ℕ × ActorKey) (due : List (ℕ × ActorKey))
    → Sorted due
    → Memᴰ x due
    → Memᴰ x (take n due) ⊎ ((length (take n due) ≡ n) × All (λ c. c.0 ≤ x.0) (take n due))
taken_or_full zero x due h m = inr (refl, tt)
taken_or_full (suc n) x [] h m = elim m [ ]
taken_or_full (suc n) x (c ∷ due) (above, h) (Memᴰ.head e) = inl (Memᴰ.head e)
taken_or_full (suc n) x (c ∷ due) (above, h) (Memᴰ.tail m) = elim (taken_or_full n x due h m) [
  | inl taken ↦ inl (Memᴰ.tail taken)
  | inr (full, all) ↦ inr (ap suc full, (All-member c.0 x due above m, all))
]
