-- ===== src/Examples/Merge.antt =====
-- An archive that lags behind the zones: src/bucket/rapid/reader.rs.
use durable_actors.Prelude.{◌≡◌, ◌↔◌, refl, List, [], ◌∷◌, ◌++◌, some}
use mathlib.Core.List.{Memᴰ}
use durable_actors.Rapid.Frame.{Record}
use durable_actors.Rapid.Replicas.{same_record}
use durable_actors.Rapid.Merge.{find_version, put_record, is_consistent, merge_onto, merge}
use durable_actors.Rapid.Merge.Laws.{Ascending, merge-Ascending}

abbrev first_record : Record
first_record = record { version = 4; state = 1 ∷ 2 ∷ [] }

abbrev second_record : Record
second_record = record { version = 5; state = 3 ∷ [] }

abbrev in_archive : List Record
in_archive = first_record ∷ []

abbrev in_zones : List Record
in_zones = first_record ∷ second_record ∷ []

merge-Ascending_example :
    Ascending in_zones
    × ((find_version 5 in_zones ≡ some second_record) ↔ Memᴰ second_record (in_archive ++ in_zones))
unfolding same_record put_record is_consistent merge_onto merge
merge-Ascending_example = merge-Ascending in_archive in_zones in_zones second_record refl
