-- ===== src/Rapid/Writer/Laws.antt =====
-- What the operations of src/bucket/rapid/writer.rs do to the versions of a session.
use text.Mathlib.Text.{◌==◌ as str_eq}
use durable_actors.Prelude.{ℕ, ◌+◌, ◌≡◌, ◌≢◌, String, true, false, List, some, Result, ok}
use durable_actors.Rapid.Segment.{Segment}
use durable_actors.Rapid.Writer.{Reference, Session, is_cached, Env}
use durable_actors.Rapid.Writer.Stored.{IsStored}

-- How a `put` may end.
pub data Outcome (sha256 : List ℕ → List ℕ) (env : Env) (s : Session) (encoded : Result Reference)
    (object : String) (bytes : List ℕ) : Result (Unit {0}) × Session → Type 0 where
  cached :
      is_cached s.latest object bytes ≡ true → Outcome sha256 env s encoded object bytes (ok tt, s)
  refused : (r : Result (Unit {0})) → r ≢ ok tt → Outcome sha256 env s encoded object bytes (r, s)
  written :
      (s' : Session) (reference : Reference)
      → is_cached s.latest object bytes ≡ false
      → encoded ≡ ok reference
      → s'.version ≡ reference.state_version
      → s'.version ≡ s.version + 1
      → IsStored sha256 env s'.version object bytes
      → s'.latest ≡ some (object, bytes)
      → s'.healthy ≡ true
      → Outcome sha256 env s encoded object bytes (ok tt, s')
  uncertain :
      (r : Result (Unit {0})) (s' : Session)
      → r ≢ ok tt
      → s'.version ≡ s.version
      → s'.latest ≡ s.latest
      → s'.healthy ≡ false
      → Outcome sha256 env s encoded object bytes (r, s')

-- A session during a write.
record Writing (s s' : Session) : Type 0 where
  version : s'.version ≡ s.version
  latest : s'.latest ≡ s.latest
  unhealthy : s'.healthy ≡ false

module _ (sha256 : List ℕ → List ℕ) (env : Env) (s : Session) (encoded : Result Reference)
    (object : String) (bytes : List ℕ) where
  abbrev Ends : Result (Unit {0}) × Session → Type 0
  Ends = Outcome sha256 env s encoded object bytes

  -- A put of this version may go on: it is the one that the reference names, and the next.
  record May (version : ℕ) : Type 0 where
    new : is_cached s.latest object bytes ≡ false
    reference : Reference
    is_encoded : encoded ≡ ok reference
    its : version ≡ reference.state_version
    next : version ≡ s.version + 1
