-- ===== src/Rapid/Merge/Laws.antt =====
-- What the merge of two lists of records holds: src/bucket/rapid/reader.rs.
use mathlib.Core.List.{Memᴰ}
use durable_actors.Prelude.{
  ℕ, ◌<◌, ◌≤◌, ◌≡◌, ◌≢◌, ◌↔◌, ◌⊎◌, inl, inr, sym, ap, ◌∙◌, true, List, [], ◌∷◌, ◌++◌, Option, none,
  some, ◌==◌, ok, arith, Bool-cases,
}
use durable_actors.Rapid.Frame.{Record}
use durable_actors.Rapid.Replicas.{same_record-eq}
use durable_actors.Rapid.Merge.{find_version, put_record, is_consistent, merge_onto, merge}

-- Versions that go up, from above a bound.
abbrev pub Above : ℕ → List Record → Type 0
Above n [] = Unit {0}
Above n (r ∷ records) = (n < r.version) × Above r.version records

abbrev pub Ascending : List Record → Type 0
Ascending [] = Unit {0}
Ascending (r ∷ records) = Above r.version records

Above-mono : (n k : ℕ) (records : List Record) → n ≤ k → Above k records → Above n records
Above-mono n k [] h a = tt
Above-mono n k (r ∷ records) h (b, a) = (omega (arith, b, h), a)

put_record-Above :
    (r : Record) (merged : List Record) (n : ℕ)
    → n < r.version
    → Above n merged
    → Above n (put_record r merged)
unfolding put_record
put_record-Above r [] n h a = ground arith
put_record-Above r (m ∷ merged) n h a =
    ground (arith, put_record-Above r merged m.version, Above-mono r.version m.version merged)

put_record-Ascending :
    (r : Record) (merged : List Record) → Ascending merged → Ascending (put_record r merged)
unfolding put_record
put_record-Ascending r [] a = tt
put_record-Ascending r (m ∷ merged) a =
    ground (arith, put_record-Above r merged m.version, Above-mono r.version m.version merged)

find-put_same :
    (r : Record) (merged : List Record) → find_version r.version (put_record r merged) ≡ some r
unfolding put_record
find-put_same r [] = ground arith
find-put_same r (m ∷ merged) = ground (arith, find-put_same r merged)

find-put_other :
    (r : Record) (v : ℕ) (merged : List Record)
    → v ≢ r.version
    → find_version v (put_record r merged) ≡ find_version v merged
unfolding put_record
find-put_other r v [] h = ground arith
find-put_other r v (m ∷ merged) h = ground (arith, find-put_other r v merged h)

find-version :
    (v : ℕ) (merged : List Record) (x : Record) → find_version v merged ≡ some x → x.version ≡ v
find-version v [] x h = ground arith
find-version v (m ∷ merged) x h = ground (arith, find-version v merged x)

is_consistent-eq :
    (r x : Record) (prior : Option Record) → is_consistent r prior ≡ true → prior ≡ some x → x ≡ r
unfolding is_consistent
is_consistent-eq r x none h e = ground arith
is_consistent-eq r x (some p) h e = let same : p ≡ r = same_record-eq p r h in ground arith

merge_step :
    (merged : List Record) (r : Record) (records result : List Record)
    → merge_onto merged (r ∷ records) ≡ ok result
    → (is_consistent r (find_version r.version merged) ≡ true)
      × (merge_onto (put_record r merged) records ≡ ok result)
unfolding merge_onto
merge_step merged r records result h = ground arith

-- What is found before a record is put is found after it.
keep_found :
    (r : Record) (merged : List Record) (x : Record)
    → is_consistent r (find_version r.version merged) ≡ true
    → find_version x.version merged ≡ some x
    → find_version x.version (put_record r merged) ≡ some x
keep_found r merged x h e = elim (Bool-cases (x.version == r.version)) [
  | inl same ↦
      let v : x.version ≡ r.version = ground arith in
      let is_r : x ≡ r = is_consistent-eq r x _ h (ap (λ k. find_version k merged) (sym v) ∙ e) in
      rw is_r (find-put_same r merged)
  | inr other ↦ find-put_other r x.version merged (ground arith) ∙ e
]

merge_onto-found :
    (records merged result : List Record) (x : Record)
    → merge_onto merged records ≡ ok result
    → find_version x.version merged ≡ some x
    → find_version x.version result ≡ some x
unfolding merge_onto
merge_onto-found [] merged result x h e = ground arith
merge_onto-found (r ∷ records) merged result x h e =
    let (consistent, next) = merge_step merged r records result h in
    merge_onto-found records (put_record r merged) result x next
      (keep_found r merged x consistent e)

merge_onto-all :
    (records merged result : List Record) (x : Record)
    → merge_onto merged records ≡ ok result
    → Memᴰ x records
    → find_version x.version result ≡ some x
merge_onto-all [] merged result x h m = elim m [ ]
merge_onto-all (r ∷ records) merged result x h (Memᴰ.head e) =
    let (consistent, next) = merge_step merged r records result h in
    rw e (merge_onto-found records (put_record r merged) result r next (find-put_same r merged))
merge_onto-all (r ∷ records) merged result x h (Memᴰ.tail m) =
    merge_onto-all records (put_record r merged) result x (merge_step merged r records result h).1 m

put_found :
    (r : Record) (merged : List Record) (x : Record)
    → find_version x.version (put_record r merged) ≡ some x
    → (x ≡ r) ⊎ (find_version x.version merged ≡ some x)
put_found r merged x h = elim (Bool-cases (x.version == r.version)) [
  | inl same ↦
      let v : x.version ≡ r.version = ground arith in
      let found : some x ≡ some r =
        sym h ∙ (ap (λ k. find_version k (put_record r merged)) v ∙ find-put_same r merged) in
      inl (ground arith)
  | inr other ↦ inr (sym (find-put_other r x.version merged (ground arith)) ∙ h)
]

merge_onto-only :
    (records merged result : List Record) (x : Record)
    → merge_onto merged records ≡ ok result
    → find_version x.version result ≡ some x
    → (find_version x.version merged ≡ some x) ⊎ Memᴰ x records
unfolding merge_onto
merge_onto-only [] merged result x h e = inl (ground arith)
merge_onto-only (r ∷ records) merged result x h e =
    elim (merge_onto-only records (put_record r merged) result x
      (merge_step merged r records result h).1 e) [
        | inl found ↦ elim (put_found r merged x found) [
          | inl same ↦ inr (Memᴰ.head same)
          | inr before ↦ inl before
        ]
        | inr m ↦ inr (Memᴰ.tail m)
      ]

merge_onto-Ascending :
    (records merged result : List Record)
    → merge_onto merged records ≡ ok result
    → Ascending merged
    → Ascending result
unfolding merge_onto
merge_onto-Ascending [] merged result h a = ground arith
merge_onto-Ascending (r ∷ records) merged result h a =
    merge_onto-Ascending records (put_record r merged) result
      (merge_step merged r records result h).1 (put_record-Ascending r merged a)

-- A merge that succeeds has the versions in ascending order, and a record is found in it by its version
-- if and only if it is a record of the archive or of the zones.
pub merge-Ascending :
    (archived rapid result : List Record) (x : Record)
    → merge archived rapid ≡ ok result
    → Ascending result × ((find_version x.version result ≡ some x) ↔ Memᴰ x (archived ++ rapid))
unfolding merge
merge-Ascending archived rapid result x h = (
  merge_onto-Ascending (archived ++ rapid) [] result h tt,
  (
    λ found. elim (merge_onto-only (archived ++ rapid) [] result x h found) [
      | inl e ↦ ground arith
      | inr m ↦ m
    ],
    merge_onto-all (archived ++ rapid) [] result x h,
  ),
)
