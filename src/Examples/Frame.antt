-- ===== src/Examples/Frame.antt =====
-- Two records of src/bucket/rapid/frame.rs, with a digest of 32 zeros.
use durable_actors.Prelude.{
  ℕ, zero, suc, ◌≡◌, refl, List, [], ◌∷◌, ◌++◌, none, arith, take, All, ok, out_of_fuel, ltb, Bool,
  true, ◌&&◌, ◌≢◌,
}
use durable_actors.Prelude.Words.{IsByte}
use durable_actors.Rapid.Frame.{Record, checksum, prefix, encode, encode_all, decode, Consecutive}
use durable_actors.Rapid.Frame.RoundTrip.{decode-encode_all, decode-encode_all_whole}
use durable_actors.Rapid.Frame.Soundness.{decode_sound}
use durable_actors.Rapid.Frame.Total.{decode-ne-out_of_fuel}

abbrev zeros : ℕ → List ℕ
zeros zero = []
zeros (suc n) = 0 ∷ zeros n

abbrev pub no_digest : List ℕ → List ℕ
no_digest bytes = zeros 32

abbrev pub first : Record
first = record { version = 7; state = 1 ∷ 2 ∷ 3 ∷ [] }

abbrev pub second : Record
second = record { version = 8; state = 4 ∷ [] }

abbrev pub framed : ℕ → ℕ → List ℕ → List ℕ
framed size version state =
    82 ∷ 76 ∷ 71 ∷ 49 ∷ size ∷ 0 ∷ 0 ∷ 0 ∷ version ∷ zeros 7 ++ zeros 32 ++ state

abbrev pub first_bytes : List ℕ
first_bytes = framed 3 7 (1 ∷ 2 ∷ 3 ∷ [])

encode-first : encode no_digest first ≡ ok first_bytes
unfolding encode prefix checksum
encode-first = refl

encode_all-first : encode_all no_digest (first ∷ []) ≡ ok first_bytes
unfolding encode_all encode prefix checksum
encode_all-first = refl

encode-second : encode no_digest second ≡ ok (framed 1 8 (4 ∷ []))
unfolding encode prefix checksum
encode-second = refl

decode-encode_all_example :
    decode no_digest (first_bytes ++ take 10 (framed 1 8 (4 ∷ []))) ≡ ok (first ∷ [])
decode-encode_all_example =
    decode-encode_all no_digest (λ b. refl) (first ∷ []) second first_bytes (framed 1 8 (4 ∷ [])) 10
      encode_all-first encode-second (omega arith) (omega arith, tt) (refl, tt) (omega arith)

abbrev all_bytes : List ℕ → Bool
all_bytes [] = true
all_bytes (b ∷ bytes) = ltb b 256 && all_bytes bytes

all_bytes-IsByte : (bytes : List ℕ) → all_bytes bytes ≡ true → All IsByte bytes
all_bytes-IsByte [] h = tt
all_bytes-IsByte (b ∷ bytes) h = ground (arith, all_bytes-IsByte bytes)

decode-first : decode no_digest first_bytes ≡ ok (first ∷ [])
decode-first =
    decode-encode_all_whole no_digest (λ b. refl) (first ∷ []) first_bytes encode_all-first
      (omega arith, tt) (refl, tt) (omega arith)

decode_sound_example :
    (written : List ℕ) × (tail : List ℕ) × (encode_all no_digest (first ∷ []) ≡ ok written)
    × (first_bytes ≡ written ++ tail)
    × Consecutive none (first ∷ [])
decode_sound_example =
    decode_sound no_digest first_bytes (first ∷ []) (all_bytes-IsByte first_bytes refl) decode-first

decode-ne-out_of_fuel_example : decode no_digest (71 ∷ []) ≢ out_of_fuel
decode-ne-out_of_fuel_example = decode-ne-out_of_fuel no_digest (71 ∷ [])
