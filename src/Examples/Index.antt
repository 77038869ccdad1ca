-- ===== src/Examples/Index.antt =====
-- Two records in an archived batch: src/bucket/rapid/index.rs.
use durable_actors.Prelude.{ℕ, ◌≤◌, ◌≡◌, refl, ◌⊎◌, List, [], ◌∷◌, ◌++◌, arith, take, drop, All, ok}
use durable_actors.Rapid.Frame.{Record, encode, encode_all, checksum, prefix, decode}
use durable_actors.Rapid.Index.{Index, index_batch, validate, range}
use durable_actors.Rapid.Index.Slice.{index_batch-range}
use durable_actors.Examples.Frame.{no_digest, first, second, framed, first_bytes}

abbrev both_bytes : List ℕ
both_bytes = first_bytes ++ framed 1 8 (4 ∷ [])

encode_all-both : encode_all no_digest (first ∷ second ∷ []) ≡ ok both_bytes
unfolding encode_all encode prefix checksum
encode_all-both = refl

index_batch-range_example :
    (index : Index) × (from : ℕ) × (to : ℕ) × (start : ℕ) × (length' : ℕ) × (added : List Record)
    × (index_batch no_digest "b" both_bytes ≡ ok (index, from, to))
    × (validate (200, 300) index ≡ ok tt)
    × (range 7 8 1_000 index ≡ ok (start, length'))
    × (decode no_digest (take length' (drop start both_bytes)) ≡ ok (added ++ second ∷ []))
    × All (λ q. 7 ≤ q.version) added
    × ((added ≡ []) ⊎ (length' ≤ 1_000))
index_batch-range_example =
    index_batch-range no_digest (λ b. refl) "b" (first ∷ []) second [] both_bytes 200 7 1_000
      encode_all-both (omega arith, (omega arith, tt)) (refl, (refl, tt)) (omega arith)
