-- ===== src/Rapid/Writer/Stored.antt =====
-- That a write in src/bucket/rapid/writer.rs which succeeds stores the state.
use durable_actors.Prelude.{
  ℕ, ◌≡◌, refl, String, Bool, true, false, List, Option, none, some, if◌then◌else◌, Result, ok, err,
  out_of_fuel,
}
use durable_actors.Rapid.Segment.{Segment, append}
use durable_actors.Rapid.Writer.{Session, Env, with_segment, write_log, write_state}

-- A state has been written: the Standard bucket took it under its name, or the log took a frame with it
-- and its version, which its zones acknowledged.
pub data IsStored (sha256 : List ℕ → List ℕ) (env : Env) (version : ℕ) (object : String)
    (bytes : List ℕ) : Type 0 where
  in_standard : env.standard_put object bytes ≡ ok tt → IsStored sha256 env version object bytes
  in_log :
      (segment : Segment) (frame : List ℕ)
      → (append sha256 segment (record { version = version; state = bytes }) env.flush).0 ≡ ok frame
      → IsStored sha256 env version object bytes

module _ (sha256 : List ℕ → List ℕ) (env : Env) (object : String) (bytes : List ℕ) where
  with_segment-IsStored :
      (version : ℕ) (s' : Session) (segment : Segment) (done : Result (List ℕ) × Segment)
      → append sha256 segment (record { version = version; state = bytes }) env.flush ≡ done
      → (with_segment s' done).0 ≡ ok tt
      → IsStored sha256 env version object bytes
  with_segment-IsStored version s' segment (ok frame, segment') e done =
      in_log segment frame (rw e refl)
  with_segment-IsStored version s' segment (err m, segment') e done = absurd cc
  with_segment-IsStored version s' segment (out_of_fuel, segment') e done = absurd cc

  write_log-IsStored :
      (version : ℕ) (s' : Session) (segment : Option Segment)
      → (write_log sha256 env s' (record { version = version; state = bytes }) segment).0 ≡ ok tt
      → IsStored sha256 env version object bytes
  write_log-IsStored version s' none done = absurd cc
  write_log-IsStored version s' (some segment) done =
      with_segment-IsStored version s' segment
        (append sha256 segment (record { version = version; state = bytes }) env.flush) refl done

  pub write_state-IsStored :
      (version : ℕ) (s' : Session)
      → (write_state sha256 env s' object (record { version = version; state = bytes })).0 ≡ ok tt
      → IsStored sha256 env version object bytes
  write_state-IsStored version s' = go s'.standard
    where
      go :
          (standard : Bool)
          → (if standard
              then (env.standard_put object bytes, s')
              else write_log sha256 env s'
                  (record { version = version; state = bytes })
                  s'.segment).0
            ≡ ok tt
          → IsStored sha256 env version object bytes
      go true done = in_standard done
      go false done = write_log-IsStored version s' s'.segment done
