-- ===== src/Ownership/Bucket.antt =====
-- One object of a bucket: src/bucket/file.rs, `compare_and_swap`, and src/bucket.rs, `replace`. The
-- file lock makes the comparison and the write one step.
use durable_actors.Prelude.{
  ℕ, ◌+◌, ◌<◌, ◌^◌, ◌≡◌, ◌≢◌, refl, ◌⊎◌, inl, String, Bool, true, false, List, Option, none, some,
  arith, ltb, ◌==◌, if◌then◌else◌, Result, ok, err, out_of_fuel, ◌>>=◌,
}
use durable_actors.Rapid.Frame.{same_bytes}
use durable_actors.Rapid.Frame.Laws.{same_bytes_refl}

pub record BucketObject : Type 0 where
  pub generation : ℕ
  pub bytes : List ℕ

abbrev pub Cell : Type 0
Cell = Option BucketObject

abbrev pub generation : Cell → Option ℕ
generation none = none
generation (some o) = some o.generation

abbrev pub same_generation : Option ℕ → Option ℕ → Bool
same_generation none none = true
same_generation none (some b) = false
same_generation (some a) none = false
same_generation (some a) (some b) = a == b

abbrev pub unwrap_or_zero : Option ℕ → ℕ
unwrap_or_zero none = 0
unwrap_or_zero (some n) = n

-- `checked_add(1)` on i64
abbrev pub next_generation : Option ℕ → Option ℕ
next_generation g =
    if ltb (unwrap_or_zero g + 1) (2 ^ 63) then some (unwrap_or_zero g + 1) else none

unfoldable pub compare_and_swap : Cell → Option ℕ → List ℕ → Result Bool × Cell
compare_and_swap cell expected bytes =
    if same_generation (generation cell) expected
    then elim (next_generation (generation cell)) [
      | none ↦ (err "bucket generation overflow", cell)
      | some next ↦ (ok true, some (record { generation = next; bytes = bytes }))
    ]
    else (ok false, cell)

abbrev holds_bytes : Cell → List ℕ → Bool
holds_bytes none bytes = false
holds_bytes (some o) bytes = same_bytes o.bytes bytes

-- What the caller is told of a compare-and-swap: its result, an error although it ran, or the result
-- of a second request that the transport sent after the first one had run.
pub data Delivery : Type 0 where
  exact : Delivery
  lost : String → Delivery
  retried : Delivery

abbrev pub deliver : Delivery → Cell → Option ℕ → List ℕ → Result Bool × Cell
deliver exact cell expected bytes = compare_and_swap cell expected bytes
deliver (lost e) cell expected bytes = (err e, (compare_and_swap cell expected bytes).1)
deliver retried cell expected bytes =
    compare_and_swap (compare_and_swap cell expected bytes).1 expected bytes

abbrev settle_replace : Result Bool → List ℕ → Result Cell → Result Bool
settle_replace result bytes read = do
  object ← read
  if holds_bytes object bytes then ok true else result

abbrev read_back : Option String → Cell → Result Cell
read_back none cell = ok cell
read_back (some e) cell = err e

-- `others` is what the rest of the world does to the object before it is read back, and `fails` whether
-- that read fails.
unfoldable pub replace :
    Delivery → (Cell → Cell) → Option String → Cell → Option ℕ → List ℕ → Result Bool × Cell
replace delivery others fails cell expected bytes =
    let (result, written) = deliver delivery cell expected bytes in
    let seen = others written in
    let read = read_back fails seen in
    elim result [
      | ok true ↦ (ok true, written)
      | ok false ↦ (settle_replace (ok false) bytes read, seen)
      | err e ↦ (settle_replace (err e) bytes read, seen)
      | out_of_fuel ↦ (settle_replace out_of_fuel bytes read, seen)
    ]

-- What anybody may do to the object: compare-and-swaps, one after another.
pub data Changes (c : Cell) : Cell → Type 0 where
  unchanged : Changes c c
  swapped :
      {d : Cell} (expected : Option ℕ) (bytes : List ℕ)
      → Changes c d
      → Changes c (compare_and_swap d expected bytes).1

-- One swap leaves the object alone or raises its generation.
compare_and_swap-cases :
    (d : Cell) (expected : Option ℕ) (bytes : List ℕ)
    → ((compare_and_swap d expected bytes).1 ≡ d)
      ⊎ (unwrap_or_zero (generation d)
          < unwrap_or_zero (generation (compare_and_swap d expected bytes).1))
unfolding compare_and_swap
compare_and_swap-cases d expected bytes = ground arith

Changes-generation :
    {c d : Cell}
    → Changes c d
    → (c ≡ d) ⊎ (unwrap_or_zero (generation c) < unwrap_or_zero (generation d))
Changes-generation unchanged = inl refl
Changes-generation {c} (swapped {d} expected bytes changes) =
    ground (arith, Changes-generation changes, compare_and_swap-cases d expected bytes)

-- A read and a later swap that names the generation that was read are one step: whatever others swapped
-- in between, if the swap succeeds then the object still was what had been read.
pub swap_is_atomic :
    (c d : Cell) (bytes : List ℕ)
    → Changes c d
    → (compare_and_swap d (generation c) bytes).0 ≡ ok true
    → d ≡ c
unfolding compare_and_swap
swap_is_atomic c d bytes changes h = ground (arith, Changes-generation changes)

-- A swap that took place left the bytes there, and the same request again fails.
swap-split :
    (c : Cell) (expected : Option ℕ) (bytes : List ℕ)
    → (((compare_and_swap c expected bytes).0 ≡ ok true)
        × (holds_bytes (compare_and_swap c expected bytes).1 bytes ≡ true)
        × (compare_and_swap (compare_and_swap c expected bytes).1 expected bytes
            ≡ (ok false, (compare_and_swap c expected bytes).1)))
      ⊎ (((compare_and_swap c expected bytes).0 ≢ ok true)
          × ((compare_and_swap c expected bytes).1 ≡ c))
unfolding compare_and_swap
swap-split c expected bytes = ground (arith, same_bytes_refl bytes)

replace_sound :
    (delivery : Delivery) (others : Cell → Cell) (fails : Option String) (c : Cell)
    (expected : Option ℕ) (bytes : List ℕ)
    → holds_bytes c bytes ≡ false
    → ((d : Cell) → holds_bytes (others d) bytes ≡ true → holds_bytes d bytes ≡ true)
    → (replace delivery others fails c expected bytes).0 ≡ ok true
    → (compare_and_swap c expected bytes).0 ≡ ok true
unfolding replace
replace_sound exact others fails c expected bytes fresh unseen h =
    ground (arith, swap-split c expected bytes, unseen (compare_and_swap c expected bytes).1)
replace_sound delivery others fails c expected bytes fresh unseen h =
    ground (arith, swap-split c expected bytes, unseen (compare_and_swap c expected bytes).1)

replace_complete :
    (delivery : Delivery) (others : Cell → Cell) (fails : Option String) (c : Cell)
    (expected : Option ℕ) (bytes : List ℕ)
    → fails ≡ none
    → ((d : Cell) → others d ≡ d)
    → (compare_and_swap c expected bytes).0 ≡ ok true
    → (replace delivery others fails c expected bytes).0 ≡ ok true
unfolding replace
replace_complete exact others fails c expected bytes reads idle h =
    ground (arith, swap-split c expected bytes, idle (compare_and_swap c expected bytes).1)
replace_complete delivery others fails c expected bytes reads idle h =
    ground (arith, swap-split c expected bytes, idle (compare_and_swap c expected bytes).1)

-- `replace` under a transport that may lose the answer or send the request twice, for bytes that the
-- object did not hold and nobody else writes: `ok true` is said only if the swap took place, and it is
-- said whenever it took place, others leave the object alone meanwhile, and reading back works.
pub replace-swapped :
    (delivery : Delivery) (others : Cell → Cell) (fails : Option String) (c : Cell)
    (expected : Option ℕ) (bytes : List ℕ)
    → holds_bytes c bytes ≡ false
    → ((d : Cell) → holds_bytes (others d) bytes ≡ true → holds_bytes d bytes ≡ true)
    → ((replace delivery others fails c expected bytes).0 ≡ ok true
        → (compare_and_swap c expected bytes).0 ≡ ok true)
      × ((fails ≡ none)
          → ((d : Cell) → others d ≡ d)
          → (compare_and_swap c expected bytes).0 ≡ ok true
          → (replace delivery others fails c expected bytes).0 ≡ ok true)
replace-swapped delivery others fails c expected bytes fresh unseen = (
  replace_sound delivery others fails c expected bytes fresh unseen,
  replace_complete delivery others fails c expected bytes,
)
