-- ===== src/Rapid/Merge.antt =====
-- src/bucket/rapid/reader.rs, `read_segment`: one list out of the records of the archive and those of
-- the zones. The `BTreeMap` by version is a list in the order of its keys.
pub mod Laws
use durable_actors.Prelude.{
  ℕ, ◌<◌, Bool, true, false, List, [], ◌∷◌, ◌++◌, Option, none, some, ltb, ◌==◌, if◌then◌else◌,
  Result, ok, ◌>>=◌, ◌>>◌, ensure,
}
use durable_actors.Rapid.Frame.{Record}
use durable_actors.Rapid.Replicas.{same_record}

-- `merged.get(&version)`
abbrev pub find_version : ℕ → List Record → Option Record
find_version v [] = none
find_version v (m ∷ merged) = if m.version == v then some m else find_version v merged

-- `merged.insert(record.version, record)`
unfoldable pub put_record : Record → List Record → List Record
put_record r [] = r ∷ []
put_record r (m ∷ merged) =
    let rest = put_record r merged in
    if ltb r.version m.version
    then r ∷ m ∷ merged
    else (if m.version == r.version then r ∷ merged else m ∷ rest)

-- `is_none_or(|prior| prior == &record)`
unfoldable pub is_consistent : Record → Option Record → Bool
is_consistent r none = true
is_consistent r (some prior) = same_record prior r

unfoldable pub merge_onto : List Record → List Record → Result (List Record)
merge_onto merged [] = ok merged
merge_onto merged (r ∷ records) = do
  ensure (is_consistent r (find_version r.version merged)) "conflicting archived record"
  merge_onto (put_record r merged) records

unfoldable pub merge : List Record → List Record → Result (List Record)
merge archived rapid = merge_onto [] (archived ++ rapid)
