-- ===== src/Rapid/Frame.antt =====
-- src/bucket/rapid/frame.rs: one log record as bytes, and the log as its records. The SHA-256 digest is a parameter; it is fed
-- the header and then the state, which is their concatenation. The spool that collects the bytes is
-- a list.
pub mod Laws
pub mod Total
pub mod RoundTrip
pub mod Soundness
use durable_actors.Prelude.{
  ℕ, zero, suc, ◌≡◌, Bool, ◌&&◌, List, [], ◌∷◌, ◌++◌, Option, none, some, ltb, leb, ◌==◌,
  if◌then◌else◌, length, take, drop, Result, ok, out_of_fuel, ◌>>=◌, ◌>>◌, ensure, context,
}
use durable_actors.Prelude.Words.{u32_mod, checked_add, to_u32, to_le_bytes, from_le_bytes}

abbrev pub header_size : ℕ
header_size = 48

pub record Record : Type 0 where
  pub version : ℕ
  pub state : List ℕ

-- b"RLG1"
abbrev pub magic : List ℕ
magic = b'R' ∷ b'L' ∷ b'G' ∷ b'1' ∷ []

abbrev pub same_bytes : List ℕ → List ℕ → Bool
same_bytes [] [] = Bool.true
same_bytes [] (y ∷ ys) = Bool.false
same_bytes (x ∷ xs) [] = Bool.false
same_bytes (x ∷ xs) (y ∷ ys) = x == y && same_bytes xs ys

-- `length`: the size of the whole frame that a header announces.
pub frame_length : List ℕ → Result ℕ
frame_length header = do
  ensure (leb header_size (length header) && same_bytes (take 4 header) magic)
      "invalid record header"
  context (checked_add header_size (from_le_bytes (take 4 (drop 4 header))))
      "record length overflow"

-- `previous.version.checked_add(1) == Some(version)`, which the first record passes.
abbrev pub follows : Option ℕ → ℕ → Bool
follows none version = Bool.true
follows (some previous) version = elim (checked_add previous 1) [
  | none ↦ Bool.false
  | some next ↦ next == version
]

-- The versions of a log, after `previous`: each one more than the one before it.
abbrev pub Consecutive : Option ℕ → List Record → Type 0
Consecutive previous [] = Unit {0}
Consecutive previous (r ∷ rs) =
    (follows previous r.version ≡ Bool.true) × Consecutive (some r.version) rs

-- The end of a round of `decode`: leave the loop, or push the record and go on.
abbrev pub push_next :
    (ℕ → Option ℕ → List ℕ → Result (List Record))
    → Option (Record × ℕ × List ℕ)
    → Result (List Record)
push_next go_on none = ok []
push_next go_on (some (r, end, remaining)) = do
  records ← go_on end (some r.version) remaining
  ok (r ∷ records)

module _ (sha256 : List ℕ → List ℕ) where
  unfoldable pub checksum : List ℕ → List ℕ → List ℕ
  checksum header state = sha256 (header ++ state)

  unfoldable pub prefix : ℕ → ℕ → List ℕ
  prefix size version = magic ++ to_le_bytes 4 size ++ to_le_bytes 8 version

  unfoldable pub encode : Record → Result (List ℕ)
  encode r = do
    ensure (ltb 0 r.version) "invalid state version"
    size ← context (to_u32 (length r.state)) "record length overflow"
    let start = prefix size r.version
    ok (start ++ checksum start r.state ++ r.state)

  -- The log that holds these records: the bytes of one `encode` after another.
  unfoldable pub encode_all : List Record → Result (List ℕ)
  encode_all [] = ok []
  encode_all (r ∷ rs) = do frame ← encode r; frames ← encode_all rs; ok (frame ++ frames)

  -- The rest of a round, once its header announces a frame of `size` bytes that ends at `end`.
  pub take_frame : ℕ → ℕ → Option ℕ → List ℕ → Result (Option (Record × ℕ × List ℕ))
  take_frame size end previous rest =
      let version = from_le_bytes (take 8 (drop 8 rest)) in
      let state = drop header_size (take size rest) in
      let checked = do
        ensure (ltb 0 version) "invalid state version"
        ensure (follows previous version) "nonconsecutive state versions"
        ensure (same_bytes (checksum (take 16 rest) state) (take 32 (drop 16 rest)))
            "corrupt log record"
        ok (some (record { version = version; state = state }, end, drop size rest))
      in if ltb (length rest) size then ok none else checked

  -- One round of the loop in `decode`; `rest` holds the bytes from `offset` on, and `previous` the
  -- version of the last record. `none` leaves the loop, at the end or at an incomplete frame.
  -- Otherwise: the record, the next offset, and the bytes from there on.
  pub next_record : ℕ → Option ℕ → List ℕ → Result (Option (Record × ℕ × List ℕ))
  next_record offset previous rest =
      let read = do
        size ← frame_length (take header_size rest)
        end ← context (checked_add offset size) "record offset overflow"
        take_frame size end previous rest
      in if ltb (length rest) header_size then ok none else read

  pub decode_from : ℕ → ℕ → Option ℕ → List ℕ → Result (List Record)
  decode_from zero offset previous rest = out_of_fuel
  decode_from (suc fuel) offset previous rest =
      next_record offset previous rest >>= push_next (decode_from fuel)

  -- Each round takes a header at least, so one round more than there are bytes is enough.
  pub decode : List ℕ → Result (List Record)
  decode bytes = decode_from (suc (length bytes)) 0 none bytes
