-- ===== src/Rapid/Frame/RoundTrip.antt =====
-- What `decode` makes of a log that was written by `encode`, the last write perhaps cut short.
use durable_actors.Prelude.{
  ℕ, zero, suc, ◌+◌, ◌≤◌, ◌<◌, ◌≡◌, ap, ◌∙◌, List, [], ◌∷◌, ◌++◌, Option, none, some, arith, length,
  take, All, ok, >>=-eq-ok, append_assoc, append-nil, length-append,
}
use durable_actors.Prelude.Words.{u64_mod}
use durable_actors.Rapid.Frame.{
  Record, header_size, encode, encode_all, decode_from, decode, Consecutive,
}
use durable_actors.Rapid.Frame.Laws.{
  frame, encode-eq-ok, encode-frame, length-frame, next_record-frame, next_record-torn,
}

-- A version is a u64.
abbrev pub HasWord : Record → Type 0
HasWord r = r.version < u64_mod

module _ (sha256 : List ℕ → List ℕ) (sha256-length : (b : List ℕ) → length (sha256 b) ≡ 32) where
  encode_all-cons :
      (r : Record) (records : List Record) {bytes : List ℕ}
      → encode_all sha256 (r ∷ records) ≡ ok bytes
      → (more : List ℕ) × (encode sha256 r ≡ ok (frame sha256 r))
        × (encode_all sha256 records ≡ ok more)
        × (bytes ≡ frame sha256 r ++ more)
  unfolding encode_all
  encode_all-cons r records h =
      let (f, e, h') = >>=-eq-ok (encode sha256 r) _ h in
      let (more, es, h'') = >>=-eq-ok (encode_all sha256 records) _ h' in
      let (_, _, ef) = encode-eq-ok sha256 r e in (more, cc, es, cc)

  -- A frame is no shorter than its header, so there are no more records than bytes.
  encode_all-length :
      (records : List Record) (bytes : List ℕ)
      → encode_all sha256 records ≡ ok bytes
      → length records ≤ length bytes
  encode_all-length [] bytes h = omega arith
  encode_all-length (r ∷ records) bytes h =
      let (more, _, es, split) = encode_all-cons r records h in
      omega (
        arith,
        encode_all-length records more es,
        ap length split,
        length-append (frame sha256 r) more,
        length-frame sha256 sha256-length r,
      )

  module _ (next : Record) (k : ℕ) (encoded : encode sha256 next ≡ ok (frame sha256 next))
      (torn : k < length (frame sha256 next)) where
    decode_from-encode_all :
        (records : List Record) (fuel offset : ℕ) (previous : Option ℕ) (bytes : List ℕ)
        → length records < fuel
        → encode_all sha256 records ≡ ok bytes
        → All HasWord records
        → Consecutive previous records
        → offset + length bytes + length (frame sha256 next) < u64_mod
        → decode_from sha256 fuel offset previous (bytes ++ take k (frame sha256 next)) ≡ ok records
    unfolding decode_from
    decode_from-encode_all records zero offset previous bytes room h words c fits =
        absurd (omega arith)
    decode_from-encode_all [] (suc fuel) offset previous bytes room h words c fits =
        let empty : bytes ≡ [] = unfold encode_all in cc in
        rw (
          empty,
          next_record-torn sha256 sha256-length next offset k previous
              (encode-eq-ok sha256 next encoded).1 (omega arith) torn,
        )
    decode_from-encode_all (r ∷ records) (suc fuel) offset previous bytes room h words c fits =
        let (more, e, es, split) = encode_all-cons r records h in
        let (positive, small, _) = encode-eq-ok sha256 r e in
        let total = length-append (frame sha256 r) more in
        let ih =
          decode_from-encode_all records fuel (offset + length (frame sha256 r)) (some r.version)
            more (omega arith) es words.1 c.1 (omega (arith, total, ap length split)) in
        rw (
          split,
          append_assoc (frame sha256 r) more (take k (frame sha256 next)),
          next_record-frame sha256 sha256-length r (more ++ take k (frame sha256 next)) offset
              previous positive words.0 small c.0 (omega (arith, total, ap length split)),
          ih,
        )

  -- A crash in the middle of an append costs only the record that was being appended. The records
  -- before it were written one `encode` after another, with consecutive versions, and are in the log
  -- with any proper part of the next frame, none of it included, behind them: `decode` gives them
  -- back, all and unchanged, and nothing else. The log with that frame is below 2^64 bytes long.
  pub decode-encode_all :
      (records : List Record) (next : Record) (bytes frame' : List ℕ) (k : ℕ)
      → encode_all sha256 records ≡ ok bytes
      → encode sha256 next ≡ ok frame'
      → k < length frame'
      → All HasWord records
      → Consecutive none records
      → length bytes + length frame' < u64_mod
      → decode sha256 (bytes ++ take k frame') ≡ ok records
  unfolding decode
  decode-encode_all records next bytes frame' k written encoded torn words consecutive fits =
      let (_, _, e) = encode-eq-ok sha256 next encoded in
      rw e (
        decode_from-encode_all next k (encoded ∙ ap ok e) (rw e at torn) records
          (suc (length (bytes ++ take k (frame sha256 next)))) 0 none bytes
          (omega (
            arith,
            encode_all-length records bytes written,
            length-append bytes (take k (frame sha256 next)),
          ))
          written words consecutive (omega (arith, ap length e)))

  -- The smallest frame.
  abbrev least : Record
  least = record { version = 1; state = [] }

  -- A log that ends with a whole frame.
  pub decode-encode_all_whole :
      (records : List Record) (bytes : List ℕ)
      → encode_all sha256 records ≡ ok bytes
      → All HasWord records
      → Consecutive none records
      → length bytes + header_size < u64_mod
      → decode sha256 bytes ≡ ok records
  decode-encode_all_whole records bytes written words consecutive fits =
      let size = length-frame sha256 sha256-length least in
      rw append-nil at (
        decode-encode_all records least bytes (frame sha256 least) 0 written
          (encode-frame sha256 least (omega arith) (omega arith)) (omega (arith, size)) words
          consecutive (omega (arith, size)))
