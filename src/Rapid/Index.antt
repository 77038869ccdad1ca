-- ===== src/Rapid/Index.antt =====
-- src/bucket/rapid/index.rs: the index of an archived batch, with which a reader downloads the range of
-- a few records only. The offsets that the batch's name states are an argument; the store that holds
-- indexes and batches is left out.
pub mod Laws
pub mod Find
pub mod Range
pub mod Slice
use durable_actors.Prelude.{
  ℕ, suc, ◌+◌, ◌-◌, String, Bool, true, false, ◌&&◌, ◌||◌, List, [], ◌∷◌, Option, none, some, ltb,
  leb, ◌==◌, if◌then◌else◌, length, Result, ok, err, out_of_fuel, ◌>>=◌, ◌>>◌, ensure, context,
}
use durable_actors.Prelude.Words.{u32_mod, checked_add, checked_sub}
use durable_actors.Rapid.Frame.{Record, header_size, follows, decode}

pub record Entry : Type 0 where
  pub version : ℕ
  pub start : ℕ
  pub length : ℕ

pub record Index : Type 0 where
  pub batch : String
  pub records : List Entry

-- `frame::HEADER + record.state.len()`
abbrev pub frame_size : Record → ℕ
frame_size r = header_size + length r.state

abbrev pub entry_at : ℕ → Record → Entry
entry_at start r = record { version = r.version; start = start; length = frame_size r }

-- The loop of `index_batch`: the entries, and the offset after them.
abbrev pub entries_from : ℕ → List Record → List Entry × ℕ
entries_from start [] = ([], start)
entries_from start (r ∷ rs) =
    let (entries, end) = entries_from (start + frame_size r) rs in (entry_at start r ∷ entries, end)

abbrev pub last_entry : Entry → List Entry → Entry
last_entry e [] = e
last_entry e (f ∷ entries) = last_entry f entries

abbrev pub bounds : List Entry → Option (ℕ × ℕ)
bounds [] = none
bounds (e ∷ entries) = some (e.version, (last_entry e entries).version)

-- `index_batch` up to the write: the index, with the first and the last version, which name it.
unfoldable pub index_batch : (List ℕ → List ℕ) → String → List ℕ → Result (Index × ℕ × ℕ)
index_batch sha256 batch bytes = do
  records ← decode sha256 bytes
  let (entries, end) = entries_from 0 records
  ensure (end == length bytes) "incomplete indexed batch"
  (first, last) ← context (bounds entries) "empty indexed batch"
  ok (record { batch = batch; records = entries }, first, last)

abbrev pub valid_entry : ℕ → Option ℕ → Entry → Bool
valid_entry offset previous entry =
    entry.start == offset
    && leb header_size entry.length
    && leb entry.length (header_size + (u32_mod - 1))
    && follows previous entry.version

-- The loop of `validate`: the offset after the last entry.
unfoldable pub check_entries : ℕ → Option ℕ → List Entry → Result ℕ
check_entries offset previous [] = ok offset
check_entries offset previous (entry ∷ entries) = do
  ensure (valid_entry offset previous entry) "invalid archive index entry"
  next ← context (checked_add offset entry.length) "indexed offset overflow"
  check_entries next (some entry.version) entries

abbrev pub has_entries : List Entry → Bool
has_entries [] = false
has_entries (e ∷ entries) = true

-- `validate`, with the start and the end that the batch's name states.
unfoldable pub validate : ℕ × ℕ → Index → Result (Unit {0})
validate (start, end) index = do
  size ← context (checked_sub end start) "invalid indexed batch boundary"
  offset ← check_entries 0 none index.records
  ensure (has_entries index.records && offset == size) "incomplete archive index"

-- The binary search for a version; the entries before it come out in reverse. A validated index is
-- sorted by version and has each version once.
abbrev pub find_entry : ℕ → List Entry → List Entry → Option (List Entry × Entry)
find_entry version before [] = none
find_entry version before (entry ∷ entries) =
    let rest = find_entry version (entry ∷ before) entries in
    if entry.version == version then some (before, entry) else rest

-- The loop of `range`, over the entries before, the nearest first.
abbrev pub extend_back : ℕ → ℕ → ℕ → ℕ → List Entry → ℕ
extend_back first limit end start [] = start
extend_back first limit end start (entry ∷ entries) =
    let rest = extend_back first limit end entry.start entries in
    if ltb entry.version first || ltb limit (end - entry.start) then start else rest

-- A start and a length.
unfoldable pub range : ℕ → ℕ → ℕ → Index → Result (ℕ × ℕ)
range first version limit index = do
  (before, entry) ← context (find_entry version [] index.records) "archive index record missing"
  let end = entry.start + entry.length
  let start = extend_back first limit end entry.start before
  ok (start, end - start)
