-- ===== src/Rapid/Frame/Laws.antt =====
-- The bytes of one frame: where its fields lie, and what one round of `decode` does with it.
use durable_actors.Prelude.{
  ℕ, ◌+◌, ◌<◌, ◌≡◌, refl, sym, ap, ◌∙◌, true, false, List, [], ◌∷◌, ◌++◌, Option, none, some, arith,
  length, take, drop, ok, length-append, append_assoc, length-take, take-append, drop-append,
  append-nil, take-take, inl, inr, Bool-cases, ltb, leb, lt→ltb, le→leb,
}
use durable_actors.Prelude.Words.{
  u32_mod, u64_mod, checked_add, to_le_bytes, from_le_bytes, from_le_bytes-to_u32,
  from_le_bytes-to_u64,
}
use durable_actors.Rapid.Frame.{
  Record, header_size, magic, same_bytes, frame_length, follows, checksum, prefix, encode,
  next_record, take_frame,
}

pub same_bytes_refl : (xs : List ℕ) → same_bytes xs xs ≡ true
same_bytes_refl [] = refl
same_bytes_refl (x ∷ xs) = ground (arith, same_bytes_refl xs)

pub same_bytes-eq : (xs ys : List ℕ) → same_bytes xs ys ≡ true → xs ≡ ys
same_bytes-eq [] [] h = refl
same_bytes-eq [] (y ∷ ys) h = cc
same_bytes-eq (x ∷ xs) [] h = cc
same_bytes-eq (x ∷ xs) (y ∷ ys) h = ground (arith, same_bytes-eq xs ys)

module _ (sha256 : List ℕ → List ℕ) where
  -- The whole frame of a record, total where `encode` refuses.
  unfoldable pub frame : Record → List ℕ
  frame r =
      prefix sha256 (length r.state) r.version
      ++ checksum sha256 (prefix sha256 (length r.state) r.version) r.state
      ++ r.state

  pub encode-eq-ok :
      (r : Record) {f : List ℕ}
      → encode sha256 r ≡ ok f
      → (0 < r.version) × (length r.state < u32_mod) × (f ≡ frame r)
  unfolding encode frame
  encode-eq-ok r h = ground arith

  pub encode-frame :
      (r : Record) → 0 < r.version → length r.state < u32_mod → encode sha256 r ≡ ok (frame r)
  unfolding encode frame
  encode-frame r p q = ground arith

  pub length-prefix : (n v : ℕ) → length (prefix sha256 n v) ≡ 16
  unfolding prefix
  length-prefix n v = refl

  -- The fields of a frame, whatever follows it.
  module _ (r : Record) (tail : List ℕ) where
    take-frame-magic : take 4 (take header_size (frame r ++ tail)) ≡ magic
    unfolding frame prefix
    take-frame-magic = refl

    take-frame_size :
        take 4 (drop 4 (take header_size (frame r ++ tail))) ≡ to_le_bytes 4 (length r.state)
    unfolding frame prefix
    take-frame_size = refl

    pub take-frame_version : take 8 (drop 8 (frame r ++ tail)) ≡ to_le_bytes 8 r.version
    unfolding frame prefix
    take-frame_version = refl

    pub take-frame-prefix : take 16 (frame r ++ tail) ≡ prefix sha256 (length r.state) r.version
    unfolding frame prefix
    take-frame-prefix = refl

    drop-frame-prefix :
        drop 16 (frame r ++ tail)
        ≡ (checksum sha256 (prefix sha256 (length r.state) r.version) r.state ++ r.state) ++ tail
    unfolding frame prefix
    drop-frame-prefix = refl

  module _ (sha256-length : (b : List ℕ) → length (sha256 b) ≡ 32) where
    length-checksum : (a b : List ℕ) → length (checksum sha256 a b) ≡ 32
    unfolding checksum
    length-checksum a b = sha256-length (a ++ b)

    pub length-frame : (r : Record) → length (frame r) ≡ header_size + length r.state
    unfolding frame prefix
    length-frame r =
        let p = prefix sha256 (length r.state) r.version in
        let c = checksum sha256 p r.state in
        omega (
          arith,
          length-append p (c ++ r.state),
          length-append c r.state,
          length-prefix (length r.state) r.version,
          length-checksum p r.state,
        )

    drop-frame : (r : Record) → drop header_size (frame r) ≡ r.state
    unfolding frame prefix
    drop-frame r =
        let p = prefix sha256 (length r.state) r.version in
        let c = checksum sha256 p r.state in
        ap (drop header_size) (sym (append_assoc p c r.state))
        ∙ (drop-append (p ++ c) r.state 48 (
            omega (
              arith,
              length-append p c,
              length-prefix (length r.state) r.version,
              length-checksum p r.state,
            )))

    module _ (r : Record) (tail : List ℕ) where
      take-frame-checksum :
          take 32 (drop 16 (frame r ++ tail))
          ≡ checksum sha256 (prefix sha256 (length r.state) r.version) r.state
      take-frame-checksum =
          rw (drop-frame-prefix r tail, append_assoc)
            (take-append _ _ 32 (sym (length-checksum _ _)))

      frame_length-frame :
          length r.state < u32_mod
          → frame_length (take header_size (frame r ++ tail)) ≡ ok (header_size + length r.state)
      unfolding frame_length
      frame_length-frame h =
          let long : leb header_size (length (take header_size (frame r ++ tail))) ≡ true =
            le→leb _ _ (
              omega (
                arith,
                length-take header_size (frame r ++ tail),
                length-frame r,
                length-append (frame r) tail,
              )) in
          rw (
            long,
            take-frame-magic r tail,
            take-frame_size r tail,
            from_le_bytes-to_u32 _ h,
            lt→ltb (header_size + length r.state) u64_mod (omega arith),
          )

      -- A round that starts at a frame reads it, and leaves what follows it.
      pub next_record-frame :
          (offset : ℕ) (previous : Option ℕ)
          → 0 < r.version
          → r.version < u64_mod
          → length r.state < u32_mod
          → follows previous r.version ≡ true
          → offset + length (frame r) < u64_mod
          → next_record sha256 offset previous (frame r ++ tail)
            ≡ ok (some (r, offset + length (frame r), tail))
      unfolding next_record take_frame
      next_record-frame offset previous positive fits small next room =
          let size = header_size + length r.state in
          let all = frame r ++ tail in
          let len : length all ≡ size + length tail =
            omega (arith, length-frame r, length-append (frame r) tail) in
          let whole : take size all ≡ frame r =
            take-append (frame r) tail size (sym (length-frame r)) in
          let state : drop header_size (frame r) ≡ r.state = drop-frame r in
          let after : drop size all ≡ tail =
            drop-append (frame r) tail size (sym (length-frame r)) in
          let long : ltb (length all) header_size ≡ false = ground arith in
          let complete : ltb (length all) size ≡ false = ground arith in
          let version : from_le_bytes (take 8 (drop 8 all)) ≡ r.version =
            ap from_le_bytes (take-frame_version r tail) ∙ from_le_bytes-to_u64 r.version fits in
          let end : checked_add offset size ≡ some (offset + size) =
            ground (arith, length-frame r) in
          rw (
            long,
            frame_length-frame small,
            end,
            complete,
            version,
            lt→ltb 0 _ positive,
            next,
            whole,
            state,
            take-frame-prefix r tail,
            take-frame-checksum,
            same_bytes_refl (checksum sha256 (prefix sha256 (length r.state) r.version) r.state),
            after,
            length-frame r,
          )

    -- A round that starts at a frame whose last bytes are missing leaves the loop.
    pub next_record-torn :
        (r : Record) (offset k : ℕ) (previous : Option ℕ)
        → length r.state < u32_mod
        → offset + length (frame r) < u64_mod
        → k < length (frame r)
        → next_record sha256 offset previous (take k (frame r)) ≡ ok none
    unfolding next_record take_frame
    next_record-torn r offset k previous small room short =
        let cut = length-take k (frame r) in
        elim (Bool-cases (ltb (length (take k (frame r))) header_size)) [
          | inl early ↦ rw early
          | inr enough ↦
              let header : take header_size (take k (frame r)) ≡ take header_size (frame r) =
                take-take header_size k (frame r) (ground arith) in
              let size : frame_length (take header_size (frame r))
                  ≡ ok (header_size + length r.state) =
                ap (λ f. frame_length (take header_size f)) (sym (append-nil (frame r)))
                ∙ frame_length-frame r [] small in
              let end : checked_add offset (header_size + length r.state)
                  ≡ some (offset + (header_size + length r.state)) =
                ground (arith, length-frame r) in
              let missing : ltb (length (take k (frame r))) (header_size + length r.state) ≡ true =
                lt→ltb _ _ (omega (arith, length-frame r)) in
              rw (enough, header, size, end, missing)
        ]
