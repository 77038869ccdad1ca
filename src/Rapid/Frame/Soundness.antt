-- ===== src/Rapid/Frame/Soundness.antt =====
-- What `decode` accepts: nothing but frames that `encode` writes.
use mathlib.Core.Path.{ap₂}
use durable_actors.Prelude.{
  ℕ, zero, suc, ◌+◌, ◌≤◌, ◌<◌, ◌≡◌, refl, sym, ap, ◌∙◌, true, List, [], ◌∷◌, ◌++◌, Option, none,
  some, arith, length, take, drop, All, Result, ok, >>=-eq-ok, append_assoc, length-take,
  length-drop, take-append-drop, take_add, take-take, take-drop-take, All-take, All-drop,
}
use durable_actors.Prelude.Words.{
  u32_mod, IsByte, to_le_bytes, from_le_bytes, to_le_bytes-from, from_le_bytes-lt_u32,
}
use durable_actors.Rapid.Frame.{
  Record, header_size, magic, frame_length, follows, checksum, prefix, encode, next_record,
  take_frame, encode_all, decode_from, decode, push_next, Consecutive,
}
use durable_actors.Rapid.Frame.Laws.{same_bytes-eq, frame, encode-frame}

pub frame_length-eq-ok :
    (header : List ℕ) (size : ℕ)
    → frame_length header ≡ ok size
    → (take 4 header ≡ magic) × (size ≡ header_size + from_le_bytes (take 4 (drop 4 header)))
unfolding frame_length
frame_length-eq-ok header size h = ground (arith, same_bytes-eq (take 4 header) magic)

-- A field of a header, read as a number and written again.
field_again :
    (w n : ℕ) (rest : List ℕ)
    → All IsByte rest
    → n + w ≤ length rest
    → to_le_bytes w (from_le_bytes (take w (drop n rest))) ≡ take w (drop n rest)
field_again w n rest bytes long =
    let field = take w (drop n rest) in
    let wide : length field ≡ w = omega (arith, length-take w (drop n rest), length-drop n rest) in
    ap (λ k. to_le_bytes k (from_le_bytes field)) (sym wide)
    ∙ to_le_bytes-from field (All-take IsByte w (drop n rest) (All-drop IsByte n rest bytes))

-- The first 48 bytes in their four fields.
header_fields : (rest : List ℕ) → take header_size rest ≡ take 16 rest ++ take 32 (drop 16 rest)
header_fields rest = take_add 16 32 header_size rest refl

start_fields :
    (rest : List ℕ) → take 16 rest ≡ take 4 rest ++ take 4 (drop 4 rest) ++ take 8 (drop 8 rest)
start_fields rest = rw (take_add 8 8 16 rest refl, take_add 4 4 8 rest refl)

module _ (sha256 : List ℕ → List ℕ) where
  -- What a round that reads a record has found.
  abbrev pub Found : ℕ → ℕ → Option ℕ → List ℕ → Record → List ℕ → Type 0
  Found size end previous rest r remaining =
      (size ≤ length rest)
      × (0 < r.version)
      × (follows previous r.version ≡ true)
      × (r.version ≡ from_le_bytes (take 8 (drop 8 rest)))
      × (r.state ≡ drop header_size (take size rest))
      × (remaining ≡ drop size rest)
      × (checksum sha256 (take 16 rest) r.state ≡ take 32 (drop 16 rest))

  take_frame-Found :
      (size end : ℕ) (previous : Option ℕ) (rest : List ℕ) (r : Record) (end' : ℕ)
      (remaining : List ℕ)
      → take_frame sha256 size end previous rest ≡ ok (some (r, end', remaining))
      → (end' ≡ end) × Found size end previous rest r remaining
  unfolding take_frame
  take_frame-Found size end previous rest r end' remaining h =
      ground
        (arith, same_bytes-eq (checksum sha256 (take 16 rest) r.state) (take 32 (drop 16 rest)))

  next_record-eq-some :
      (offset : ℕ) (previous : Option ℕ) (rest : List ℕ) (next : Record × ℕ × List ℕ)
      → next_record sha256 offset previous rest ≡ ok (some next)
      → (size : ℕ) × (frame_length (take header_size rest) ≡ ok size)
        × (header_size ≤ length rest)
        × (take_frame sha256 size (offset + size) previous rest ≡ ok (some next))
  unfolding next_record
  next_record-eq-some offset previous rest next h = ground arith

  pub next_record-Found :
      (offset : ℕ) (previous : Option ℕ) (rest : List ℕ) (r : Record) (end : ℕ) (remaining : List ℕ)
      → next_record sha256 offset previous rest ≡ ok (some (r, end, remaining))
      → (size : ℕ) × (frame_length (take header_size rest) ≡ ok size)
        × (end ≡ offset + size)
        × (header_size ≤ length rest)
        × Found size end previous rest r remaining
  next_record-Found offset previous rest r end remaining h =
      let (size, header, long, e) =
        next_record-eq-some offset previous rest (r, end, remaining) h in
      let (at, found) = take_frame-Found size (offset + size) previous rest r end remaining e in
      (size, header, at, long, found)

  -- The start of the frame is what `encode` writes for the record that was read.
  start-eq-prefix :
      (rest : List ℕ) (n v : ℕ)
      → All IsByte rest
      → header_size ≤ length rest
      → take 4 rest ≡ magic
      → n ≡ from_le_bytes (take 4 (drop 4 rest))
      → v ≡ from_le_bytes (take 8 (drop 8 rest))
      → take 16 rest ≡ prefix sha256 n v
  unfolding prefix
  start-eq-prefix rest n v bytes long m en ev =
      let size : take 4 (drop 4 rest) ≡ to_le_bytes 4 n =
        sym (ap (to_le_bytes 4) en ∙ field_again 4 4 rest bytes (omega arith)) in
      let version : take 8 (drop 8 rest) ≡ to_le_bytes 8 v =
        sym (ap (to_le_bytes 8) ev ∙ field_again 8 8 rest bytes (omega arith)) in
      rw (start_fields rest, m, size, version)

  -- The frame that such a round read, and the bytes that it left, are the bytes that it was given.
  pub next_record_sound :
      (offset : ℕ) (previous : Option ℕ) (rest : List ℕ) (r : Record) (end : ℕ) (remaining : List ℕ)
      → All IsByte rest
      → next_record sha256 offset previous rest ≡ ok (some (r, end, remaining))
      → (length r.state < u32_mod) × (rest ≡ frame sha256 r ++ remaining)
  unfolding frame
  next_record_sound offset previous rest r end remaining bytes h =
      let (size, header, at, long, found) =
        next_record-Found offset previous rest r end remaining h in
      let (m, sized) = frame_length-eq-ok (take header_size rest) size header in
      let n : length r.state ≡ from_le_bytes (take 4 (drop 4 rest)) = omega (
        arith,
        ap length found.4,
        length-drop header_size (take size rest),
        length-take size rest,
        found.0,
        sized,
        ap from_le_bytes (take-drop-take 4 4 header_size rest (omega arith)),
      ) in
      let small : length r.state < u32_mod = omega (
        arith,
        n,
        from_le_bytes-lt_u32 (take 4 (drop 4 rest))
            (omega (arith, length-take 4 (drop 4 rest), length-drop 4 rest))
            (All-take IsByte 4 (drop 4 rest) (All-drop IsByte 4 rest bytes)),
      ) in
      let start : take 16 rest ≡ prefix sha256 (length r.state) r.version =
        start-eq-prefix rest (length r.state) r.version bytes long
          (sym (take-take 4 header_size rest (omega arith)) ∙ m) n found.3 in
      let digest : take 32 (drop 16 rest)
          ≡ checksum sha256 (prefix sha256 (length r.state) r.version) r.state =
        sym found.6 ∙ ap (λ p. checksum sha256 p r.state) start in
      let head : take header_size (take size rest)
          ≡ prefix sha256 (length r.state) r.version
            ++ checksum sha256 (prefix sha256 (length r.state) r.version) r.state =
        take-take header_size size rest (omega arith)
        ∙ header_fields rest
        ∙ ap₂ ◌++◌ start digest in
      let whole : take size rest ≡ frame sha256 r =
        sym (take-append-drop header_size (take size rest)) ∙ ap₂ ◌++◌ head (sym found.4) in
      (small, sym (take-append-drop size rest) ∙ ap₂ ◌++◌ whole (sym found.5))

  -- The part of the input after the bytes that the records were read from.
  abbrev Accepts : Option ℕ → List ℕ → List Record → Type 0
  Accepts previous bytes records =
      (written : List ℕ) × (tail : List ℕ) × (encode_all sha256 records ≡ ok written)
      × (bytes ≡ written ++ tail)
      × Consecutive previous records

  Accepts-cons :
      (previous : Option ℕ) (bytes remaining : List ℕ) (r : Record) (records : List Record)
      → encode sha256 r ≡ ok (frame sha256 r)
      → follows previous r.version ≡ true
      → bytes ≡ frame sha256 r ++ remaining
      → Accepts (some r.version) remaining records
      → Accepts previous bytes (r ∷ records)
  unfolding encode_all
  Accepts-cons previous bytes remaining r records e f split (written, tail, es, splits, c) = (
    frame sha256 r ++ written,
    tail,
    rw (e, es),
    rw (split, splits) (sym (append_assoc (frame sha256 r) written tail)),
    (f, c),
  )

  push_next-Accepts :
      (go_on : ℕ → Option ℕ → List ℕ → Result (List Record)) (offset : ℕ) (previous : Option ℕ)
      (rest : List ℕ) (next : Option (Record × ℕ × List ℕ)) (records : List Record)
      → All IsByte rest
      → next_record sha256 offset previous rest ≡ ok next
      → ((r : Record) (end : ℕ) (remaining : List ℕ) (more : List Record)
          → All IsByte remaining
          → go_on end (some r.version) remaining ≡ ok more
          → Accepts (some r.version) remaining more)
      → push_next go_on next ≡ ok records
      → Accepts previous rest records
  push_next-Accepts go_on offset previous rest none [] bytes read hyp h =
      ([], rest, unfold encode_all in refl, refl, tt)
  push_next-Accepts go_on offset previous rest none (r ∷ records) bytes read hyp h = cc
  push_next-Accepts go_on offset previous rest (some (r, end, remaining)) records bytes read hyp h =
      let (small, split) = next_record_sound offset previous rest r end remaining bytes read in
      let (_, _, _, _, found) = next_record-Found offset previous rest r end remaining read in
      let later : All IsByte remaining = rw found.5 (All-drop IsByte _ rest bytes) in
      let (more, following, e) = >>=-eq-ok (go_on end (some r.version) remaining) _ h in
      let e' : r ∷ more ≡ records = cc in
      rw (← e') (
        Accepts-cons previous rest remaining r more (encode-frame sha256 r found.1 small) found.2
          split (hyp r end remaining more later following))

  decode_from-Accepts :
      (fuel offset : ℕ) (previous : Option ℕ) (rest : List ℕ) (records : List Record)
      → All IsByte rest
      → decode_from sha256 fuel offset previous rest ≡ ok records
      → Accepts previous rest records
  unfolding decode_from
  decode_from-Accepts zero offset previous rest records bytes h = cc
  decode_from-Accepts (suc fuel) offset previous rest records bytes h =
      let (next, read, pushed) = >>=-eq-ok (next_record sha256 offset previous rest) _ h in
      push_next-Accepts (decode_from sha256 fuel) offset previous rest next records bytes read
        (λ r end remaining more later e.
          decode_from-Accepts fuel end (some r.version) remaining more later e)
        pushed

  -- `decode` reads back only what `encode` wrote: the input begins with the encodings of the records
  -- that come out, one after another, and their versions are consecutive.
  pub decode_sound :
      (bytes : List ℕ) (records : List Record)
      → All IsByte bytes
      → decode sha256 bytes ≡ ok records
      → (written : List ℕ) × (tail : List ℕ) × (encode_all sha256 records ≡ ok written)
        × (bytes ≡ written ++ tail)
        × Consecutive none records
  unfolding decode
  decode_sound bytes records h e = decode_from-Accepts (suc (length bytes)) 0 none bytes records h e
