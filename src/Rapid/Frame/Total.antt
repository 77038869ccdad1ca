-- ===== src/Rapid/Frame/Total.antt =====
-- The loop of `decode` ends: a round takes a header's length off the input at least.
use durable_actors.Prelude.{
  ℕ, zero, suc, ◌<◌, ◌≡◌, ◌≢◌, ap, List, Option, none, some, arith, length, take,
  >>=-ne-out_of_fuel, ok, out_of_fuel, length-drop,
}
use durable_actors.Rapid.Frame.{
  Record, header_size, frame_length, next_record, take_frame, decode_from, decode,
}
use durable_actors.Rapid.Frame.Soundness.{next_record-Found, frame_length-eq-ok}

frame_length-ne-out_of_fuel : (header : List ℕ) → frame_length header ≢ out_of_fuel
unfolding frame_length
frame_length-ne-out_of_fuel header h = ground arith

module _ (sha256 : List ℕ → List ℕ) where
  next_record-ne-out_of_fuel :
      (offset : ℕ) (previous : Option ℕ) (rest : List ℕ)
      → next_record sha256 offset previous rest ≢ out_of_fuel
  unfolding next_record take_frame
  next_record-ne-out_of_fuel offset previous rest h =
      ground (arith, frame_length-ne-out_of_fuel (take header_size rest))

  length-remaining :
      (offset : ℕ) (previous : Option ℕ) (rest : List ℕ) (r : Record) (end : ℕ) (remaining : List ℕ)
      → next_record sha256 offset previous rest ≡ ok (some (r, end, remaining))
      → length remaining < length rest
  length-remaining offset previous rest r end remaining h =
      let (size, header, at, long, found) =
        next_record-Found sha256 offset previous rest r end remaining h in
      omega (arith, (frame_length-eq-ok _ size header).1, ap length found.5, length-drop size rest)

  decode_from-ne-out_of_fuel :
      (fuel offset : ℕ) (previous : Option ℕ) (rest : List ℕ)
      → length rest < fuel
      → decode_from sha256 fuel offset previous rest ≢ out_of_fuel
  unfolding decode_from
  decode_from-ne-out_of_fuel zero offset previous rest room = absurd (omega arith)
  decode_from-ne-out_of_fuel (suc fuel) offset previous rest room =
      >>=-ne-out_of_fuel (next_record sha256 offset previous rest) _
        (next_record-ne-out_of_fuel offset previous rest)
        (elim [
          | none ↦ λ read h. cc
          | some (r, end, remaining) ↦ λ read.
              let shorter = length-remaining offset previous rest r end remaining read in
              >>=-ne-out_of_fuel (decode_from sha256 fuel end (some r.version) remaining) _
                (decode_from-ne-out_of_fuel fuel end (some r.version) remaining (omega arith))
                (λ records _ h. cc)
        ])

  -- Whatever the input, the fuel of `decode` is enough.
  pub decode-ne-out_of_fuel : (bytes : List ℕ) → decode sha256 bytes ≢ out_of_fuel
  unfolding decode
  decode-ne-out_of_fuel bytes =
      decode_from-ne-out_of_fuel (suc (length bytes)) 0 _ bytes (omega arith)
