-- ===== src/Rapid/Durability/Invariant.antt =====
-- What holds of a log and its zones after any writes.
use durable_actors.Prelude.{
  ℕ, ◌+◌, ◌≤◌, ◌<◌, ◌≡◌, refl, sym, ap, Bool, true, false, List, [], ◌∷◌, ◌++◌, Option, none, some,
  arith, length, take, map, All, All-append, Result, ok, err, out_of_fuel, >>=-eq-ok, append_assoc,
  append-nil, length-append, take-length,
}
use durable_actors.Prelude.Words.{u64_mod}
use durable_actors.Rapid.Frame.{Record, encode, encode_all, follows, Consecutive}
use durable_actors.Rapid.Frame.RoundTrip.{HasWord}
use durable_actors.Rapid.Segment.{
  Segment, start_append, finish_append, start_append-eq-ok, finish_append-Finished, Finished,
  AllReplied, acknowledged, uncertain,
}
use durable_actors.Rapid.Durability.System.{
  Log, new_log, empty_copies, ZoneWrite, Honest, persist, flush, full, last_version, settle, write,
  writes, Reach, start, next,
}

Consecutive-append_one :
    (previous : Option ℕ) (rs : List Record) (r : Record)
    → Consecutive previous rs
    → follows (last_version previous rs) r.version ≡ true
    → Consecutive previous (rs ++ r ∷ [])
Consecutive-append_one previous [] r c f = (f, tt)
Consecutive-append_one previous (q ∷ rs) r c f =
    (c.0, Consecutive-append_one (some q.version) rs r c.1 f)

flush-eq-some :
    (timed_out : Bool) (zones : List ZoneWrite) (replies : List (Result ℕ))
    → flush timed_out zones ≡ some replies
    → map (λ z. z.reply) zones ≡ replies
flush-eq-some true zones replies h = cc
flush-eq-some false zones replies h = cc

module _ (sha256 : List ℕ → List ℕ) where
  pub encode_all-append_one :
      (rs : List Record) (r : Record) (written frame : List ℕ)
      → encode_all sha256 rs ≡ ok written
      → encode sha256 r ≡ ok frame
      → encode_all sha256 (rs ++ r ∷ []) ≡ ok (written ++ frame)
  unfolding encode_all
  encode_all-append_one [] r written frame h e =
      let empty : written ≡ [] = cc in rw (e, empty) (ap ok (append-nil frame))
  encode_all-append_one (q ∷ rs) r written frame h e =
      let (f, ef, h') = >>=-eq-ok (encode sha256 q) _ h in
      let (more, es, h'') = >>=-eq-ok (encode_all sha256 rs) _ h' in
      let split : f ++ more ≡ written = cc in
      rw (ef, encode_all-append_one rs r more frame es e, ← split)
        (ap ok (sym (append_assoc f more frame)))

  -- A zone holds the acknowledged frames, and of the uncertain frame a part or the whole.
  abbrev pub Holds : List ℕ → Option Record → List ℕ → Type 0
  Holds written none copy = copy ≡ written
  Holds written (some p) copy =
      (frame : List ℕ) × (kept : ℕ) × (encode sha256 p ≡ ok frame)
      × (kept ≤ length frame)
      × (copy ≡ written ++ take kept frame)

  pub record Inv (l : Log) (written : List ℕ) : Type 0 where
    pub stored : encode_all sha256 l.acked ≡ ok written
    pub offset : l.segment.offset ≡ length written
    pub consecutive : Consecutive none (full l.acked l.pending)
    pub words : All HasWord (full l.acked l.pending)
    pub settled : l.segment.healthy ≡ true → l.pending ≡ none
    pub copies : All (Holds written l.pending) l.copies

  new_log-Inv : (zones : ℕ) → Inv (new_log zones) []
  new_log-Inv zones = record {
    stored = unfold encode_all in refl;
    offset = refl;
    consecutive = tt;
    words = tt;
    settled = λ _. refl;
    copies = empty zones;
  }
    where
      empty : (n : ℕ) → All (Holds [] none) (empty_copies n)
      empty ℕ.zero = tt
      empty (ℕ.suc n) = (refl, empty n)

  persist-uncertain :
      (r : Record) (written frame : List ℕ) (copies : List (List ℕ)) (zones : List ZoneWrite)
      → encode sha256 r ≡ ok frame
      → Honest copies frame zones
      → All (Holds written none) copies
      → All (Holds written (some r)) (persist frame copies zones)
  persist-uncertain r written frame [] zones e honest held = tt
  persist-uncertain r written frame (c ∷ copies) [] e honest held = absurd honest
  persist-uncertain r written frame (c ∷ copies) (z ∷ zones) e honest held = (
    (frame, z.kept, e, honest.0.0, rw held.0),
    persist-uncertain r written frame copies zones e honest.1 held.1,
  )

  persist-acknowledged :
      (written frame : List ℕ) (copies : List (List ℕ)) (zones : List ZoneWrite)
      → Honest copies frame zones
      → AllReplied sha256 (length written + length frame) (map (λ z. z.reply) zones)
      → All (Holds written none) copies
      → All (Holds (written ++ frame) none) (persist frame copies zones)
  persist-acknowledged written frame [] zones honest replied held = tt
  persist-acknowledged written frame (c ∷ copies) [] honest replied held = absurd honest
  persist-acknowledged written frame (c ∷ copies) (z ∷ zones) honest replied held =
      let whole : z.kept ≡ length frame =
        omega (arith, honest.0.1 (length written + length frame) replied.0, ap length held.0) in
      (
        rw (held.0, whole, take-length frame),
        persist-acknowledged written frame copies zones honest.1 replied.1 held.1,
      )

  module _ (l : Log) (written : List ℕ) (inv : Inv l written) (r : Record)
      (fits : r.version < u64_mod) (follow : follows (last_version none l.acked) r.version ≡ true)
      (frame : List ℕ) (expected : ℕ) (zones : List ZoneWrite)
      (honest : Honest l.copies frame zones) where
    -- With nothing pending, the records are the acknowledged ones.
    acked_words : l.pending ≡ none → All HasWord l.acked
    acked_words none_left = rw none_left at inv.words

    acked-Consecutive : l.pending ≡ none → Consecutive none l.acked
    acked-Consecutive none_left = rw none_left at inv.consecutive

    held : l.pending ≡ none → All (Holds written none) l.copies
    held none_left = rw none_left at inv.copies

    pending-Inv :
        l.pending ≡ none
        → encode sha256 r ≡ ok frame
        → Inv
            (record {
              segment = record { offset = l.segment.offset; healthy = false };
              copies = persist frame l.copies zones;
              acked = l.acked;
              pending = some r;
            })
            written
    pending-Inv none_left e = record {
      stored = inv.stored;
      offset = inv.offset;
      consecutive = Consecutive-append_one none l.acked r (acked-Consecutive none_left) follow;
      words = All-append HasWord l.acked (r ∷ []) (acked_words none_left) (fits, tt);
      settled = λ h. cc;
      copies = persist-uncertain r written frame l.copies zones e honest (held none_left);
    }

    settle-Inv :
        (timed_out : Bool) (outcome : Result (List ℕ) × Segment)
        → l.pending ≡ none
        → encode sha256 r ≡ ok frame
        → expected ≡ l.segment.offset + length frame
        → Finished sha256 l.segment frame expected (flush timed_out zones) outcome
        → (written' : List ℕ) × Inv (settle l r (persist frame l.copies zones) outcome) written'
    settle-Inv timed_out outcome none_left e at (acknowledged replies flushed replied) = (
      written ++ frame,
      record {
        stored = encode_all-append_one l.acked r written frame inv.stored e;
        offset = omega (arith, at, inv.offset, length-append written frame);
        consecutive = Consecutive-append_one none l.acked r (acked-Consecutive none_left) follow;
        words = All-append HasWord l.acked (r ∷ []) (acked_words none_left) (fits, tt);
        settled = λ _. refl;
        copies =
            persist-acknowledged written frame l.copies zones honest
              (rw (flush-eq-some timed_out zones replies flushed, ← inv.offset, ← at) replied)
              (held none_left);
      },
    )
    settle-Inv timed_out outcome none_left e at (uncertain (ok f) failed) = absurd (failed f refl)
    settle-Inv timed_out outcome none_left e at (uncertain (err m) failed) =
        (written, pending-Inv none_left e)
    settle-Inv timed_out outcome none_left e at (uncertain out_of_fuel failed) =
        (written, pending-Inv none_left e)

  write-Inv :
      (l : Log) (written : List ℕ) (r : Record) (timed_out : Bool) (zones : List ZoneWrite)
      → Inv l written
      → r.version < u64_mod
      → follows (last_version none l.acked) r.version ≡ true
      → ((frame : List ℕ) (expected : ℕ)
          → start_append sha256 l.segment r ≡ ok (frame, expected)
          → Honest l.copies frame zones)
      → (written' : List ℕ) × Inv (write sha256 l r timed_out zones) written'
  unfolding write
  write-Inv l written r timed_out zones inv fits follow honest =
      go (start_append sha256 l.segment r) refl
    where
      go :
          (started : Result (List ℕ × ℕ))
          → start_append sha256 l.segment r ≡ started
          → (written' : List ℕ) × Inv
              (elim started [
                | ok (frame, expected) ↦
                    settle l r
                      (persist frame l.copies zones)
                      (finish_append sha256 l.segment frame expected (flush timed_out zones))
                | err e ↦ l
                | out_of_fuel ↦ l
              ])
              written'
      go (err m) e = (written, inv)
      go out_of_fuel e = (written, inv)
      go (ok (frame, expected)) e =
          let (healthy, encoded, at) = start_append-eq-ok sha256 l.segment r frame expected e in
          settle-Inv l written inv r fits follow frame expected zones (honest frame expected e)
            timed_out _ (inv.settled healthy) encoded at
            (finish_append-Finished sha256 l.segment frame expected _)

  pub Reach-Inv : {n : ℕ} {l : Log} → Reach sha256 n l → (written : List ℕ) × Inv l written
  Reach-Inv {n} start = ([], new_log-Inv n)
  Reach-Inv (next reach (writes r timed_out zones fits follow honest)) =
      let (written, inv) = Reach-Inv reach in
      write-Inv _ written r timed_out zones inv fits follow honest
