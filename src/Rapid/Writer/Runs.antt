-- ===== src/Rapid/Writer/Runs.antt =====
-- Any writes and rotations of a session: src/bucket/rapid/writer.rs.
use durable_actors.Prelude.{
  ℕ, suc, ◌+◌, ◌≡◌, All, String, List, [], ◌∷◌, Option, none, some, if◌then◌else◌, length, Result,
  ok, err, out_of_fuel,
}
use durable_actors.Rapid.Writer.{
  Reference, Session, Preparation, Env, is_cached, open_session, rotate, put,
}
use durable_actors.Rapid.Writer.Stored.{IsStored}

pub record Write : Type 0 where
  pub version : ℕ
  pub object : String
  pub bytes : List ℕ
  pub env : Env

-- The write of a reference, in an environment.
abbrev pub noted : List Write → Env → Result Reference → String → List ℕ → List Write
noted acked env (ok reference) object bytes =
    record { version = reference.state_version; object = object; bytes = bytes; env = env } ∷ acked
noted acked env (err e) object bytes = acked
noted acked env out_of_fuel object bytes = acked

-- What the callers know to be written, the newest first: a `put` that succeeds, but for a retry, with the
-- version that its reference names.
abbrev pub note :
    List Write → Env → Session → Result Reference → String → List ℕ → Result (Unit {0}) → List Write
note acked env s encoded object bytes (ok u) =
    if is_cached s.latest object bytes then acked else noted acked env encoded object bytes
note acked env s encoded object bytes (err e) = acked
note acked env s encoded object bytes out_of_fuel = acked

abbrev pub Numbered : ℕ → List Write → Type 0
Numbered base [] = Unit {0}
Numbered base (w ∷ acked) = (w.version ≡ base + suc (length acked)) × Numbered base acked

abbrev pub last_write : List Write → Option (String × List ℕ)
last_write [] = none
last_write (w ∷ acked) = some (w.object, w.bytes)

module _ (sha256 : List ℕ → List ℕ) where
  pub data Writes (base : ℕ) : List Write → Session → Type 0 where
    opens : (now : ℕ) (s : Session) → open_session base now ≡ ok s → Writes base [] s
    rotates :
        {acked : List Write} {s : Session} (now : ℕ) (ended : Option (Result (Unit {0})))
        (prepared : Option Preparation)
        → Writes base acked s
        → Writes base acked (rotate s now ended prepared)
    puts :
        {acked : List Write} {s : Session} (env : Env) (encoded : Result Reference)
        (object : String) (bytes : List ℕ)
        → Writes base acked s
        → Writes base
            (note acked env s encoded object bytes (put sha256 env s encoded object bytes).0)
            (put sha256 env s encoded object bytes).1

  abbrev pub Agrees : ℕ → List Write → Session → Type 0
  Agrees base acked s =
      (s.version ≡ base + length acked)
      × Numbered base acked
      × All (λ w. IsStored sha256 w.env w.version w.object w.bytes) acked
      × (s.latest ≡ last_write acked)
