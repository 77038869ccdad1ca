-- ===== src/Rapid/Writer.antt =====
-- src/bucket/rapid/writer.rs: the session that writes the states of one stream. What the zones, the
-- Standard bucket, the preparation of segments and the archive workers answer is the environment's. A
-- segment is its offset and its health; checkpoints and the live records are left out, which no
-- result of these operations depends on.
pub mod Same
pub mod Stored
pub mod Laws
pub mod Runs
use text.Mathlib.Text.{◌==◌ as str_eq}
use durable_actors.Prelude.{
  ℕ, ◌+◌, ◌-◌, String, Bool, true, false, not, ◌&&◌, ◌||◌, List, Option, none, some, ltb, ◌==◌,
  if◌then◌else◌, Result, ok, err, out_of_fuel, ◌>>=◌, ◌>>◌, ensure, context,
}
use durable_actors.Prelude.Words.{checked_add}
use durable_actors.Rapid.Frame.{Record, same_bytes}
use durable_actors.Rapid.Segment.{Segment, Flush, append}

-- The reference that the stream makes of a state's bytes.
pub record Reference : Type 0 where
  pub object : String
  pub state_version : ℕ

pub record Session : Type 0 where
  pub segment : Option Segment
  pub preparing : Bool
  pub next : Bool
  pub retired : Bool
  pub retirement_error : Option String
  pub latest : Option (String × List ℕ)
  pub version : ℕ
  pub installed_at : ℕ
  pub standard : Bool
  pub healthy : Bool
  pub rotated : ℕ

-- What a prepared segment comes to: `none` is Standard storage.
abbrev pub Preparation : Type 0
Preparation = Result (Option Segment)

abbrev pub rotation_interval : ℕ
rotation_interval = 60_000

unfoldable pub open_session : ℕ → ℕ → Result Session
open_session base_version now = do
  first_version ← context (checked_add base_version 1) "state version overflow"
  ok (record {
    segment = none;
    preparing = true;
    next = false;
    retired = false;
    retirement_error = none;
    latest = none;
    version = base_version;
    installed_at = base_version;
    standard = false;
    healthy = true;
    rotated = now;
  })

abbrev pub is_none : Option Segment → Bool
is_none none = true
is_none (some s) = false

abbrev pub install : Session → Option Segment → Session
install s segment = record s {
  standard = is_none segment;
  installed_at = s.version;
  segment = segment;
}

-- `cached(object) == Some(bytes)`
abbrev pub is_cached : Option (String × List ℕ) → String → List ℕ → Bool
is_cached none object bytes = false
is_cached (some (key, cached)) object bytes = str_eq key object && same_bytes cached bytes

-- The end of the retired archive worker, if it has ended by now.
abbrev pub settle_retired : Session → Option (Result (Unit {0})) → Session
settle_retired s none = s
settle_retired s (some (ok u)) = if s.retired then record s { retired = false } else s
settle_retired s (some (err e)) =
    if s.retired then record s { retired = false; retirement_error = some e } else s
settle_retired s (some out_of_fuel) = s

abbrev pub may_rotate : Session → ℕ → Bool
may_rotate s now =
    s.healthy
    && not s.standard
    && not s.retired
    && not (ltb (now - s.rotated) rotation_interval)
    && not (s.version == s.installed_at)

-- The next segment: not ready yet, or what its preparation came to.
abbrev pub take_next : Session → ℕ → Option Preparation → Session
take_next s now none = record s { next = true }
take_next s now (some (ok (some segment))) =
    record (install (record s { next = false; retired = true }) (some segment)) { rotated = now }
take_next s now (some (ok none)) = record s { next = false; rotated = now }
take_next s now (some (err e)) = record s { next = false; rotated = now }
take_next s now (some out_of_fuel) = record s { next = false; rotated = now }

abbrev pub rotate_settled : Session → ℕ → Option Preparation → Session
rotate_settled s now prepared =
    if may_rotate s now
    then elim (checked_add s.version 1) [ none ↦ s | some first_version ↦ take_next s now prepared ]
    else s

unfoldable pub rotate : Session → ℕ → Option (Result (Unit {0})) → Option Preparation → Session
rotate s now ended prepared = rotate_settled (settle_retired s ended) now prepared

-- The version of a state that is not the last one again.
unfoldable pub new_version : Bool → Session → Reference → Result (Option ℕ)
new_version true s reference = ok none
new_version false s reference = do
  next ← context (checked_add s.version 1) "nonconsecutive state version"
  ensure (next == reference.state_version) "nonconsecutive state version"
  ok (some reference.state_version)

-- `put` up to the rotation: the version, or `none` if the state is the last one again.
unfoldable pub check_put : Session → Result Reference → String → List ℕ → Result (Option ℕ)
check_put s encoded object bytes = do
  ensure s.healthy "uncertain write requires activation recovery"
  reference ← encoded
  ensure (str_eq reference.object object) "snapshot belongs to another stream"
  new_version (is_cached s.latest object bytes) s reference

-- The environment of one `put`.
pub record Env : Type 0 where
  pub now : ℕ
  pub ended : Option (Result (Unit {0}))
  pub next_prepared : Option Preparation
  pub prepared : Preparation
  pub standard_put : String → List ℕ → Result (Unit {0})
  pub flush : List ℕ → Flush

-- The session waits for its first segment.
abbrev pub install_prepared : Session → Preparation → Result (Unit {0}) × Session
install_prepared s (ok segment) = (ok tt, install (record s { preparing = false }) segment)
install_prepared s (err e) = (err e, record s { preparing = false })
install_prepared s out_of_fuel = (out_of_fuel, record s { preparing = false })

abbrev pub prepare_segment : Session → Preparation → Result (Unit {0}) × Session
prepare_segment s prepared = if s.preparing then install_prepared s prepared else (ok tt, s)

abbrev pub with_segment : Session → Result (List ℕ) × Segment → Result (Unit {0}) × Session
with_segment s (ok frame, segment) = (ok tt, record s { segment = some segment })
with_segment s (err e, segment) = (err e, record s { segment = some segment })
with_segment s (out_of_fuel, segment) = (out_of_fuel, record s { segment = some segment })

abbrev pub write_log :
    (List ℕ → List ℕ) → Env → Session → Record → Option Segment → Result (Unit {0}) × Session
write_log sha256 env s r none = (err "Rapid stream missing", s)
write_log sha256 env s r (some segment) = with_segment s (append sha256 segment r env.flush)

-- The write itself, to Standard or to the log.
abbrev pub write_state :
    (List ℕ → List ℕ) → Env → Session → String → Record → Result (Unit {0}) × Session
write_state sha256 env s object r =
    if s.standard then (env.standard_put object r.state, s) else write_log sha256 env s r s.segment

abbrev pub acknowledge : Session → ℕ → String → List ℕ → Session
acknowledge s version object bytes = record s {
  version = version;
  latest = some (object, bytes);
  healthy = true;
}

abbrev pub after_write :
    ℕ → String → List ℕ → Result (Unit {0}) × Session → Result (Unit {0}) × Session
after_write version object bytes (ok u, s) = (ok tt, acknowledge s version object bytes)
after_write version object bytes (err e, s) = (err e, s)
after_write version object bytes (out_of_fuel, s) = (out_of_fuel, s)

abbrev pub after_prepare :
    (List ℕ → List ℕ)
    → Env
    → ℕ
    → String
    → List ℕ
    → Result (Unit {0}) × Session
    → Result (Unit {0}) × Session
after_prepare sha256 env version object bytes (ok u, s) =
    after_write version object bytes
      (write_state sha256 env s object (record { version = version; state = bytes }))
after_prepare sha256 env version object bytes (err e, s) = (err e, s)
after_prepare sha256 env version object bytes (out_of_fuel, s) = (out_of_fuel, s)

-- The session is unhealthy from before the preparation until the write has been acknowledged.
unfoldable pub write_put :
    (List ℕ → List ℕ) → Env → Session → ℕ → String → List ℕ → Result (Unit {0}) × Session
write_put sha256 env s version object bytes =
    let rotated = rotate s env.now env.ended env.next_prepared in
    after_prepare sha256 env version object bytes
      (prepare_segment (record rotated { healthy = false }) env.prepared)

unfoldable pub put :
    (List ℕ → List ℕ)
    → Env
    → Session
    → Result Reference
    → String
    → List ℕ
    → Result (Unit {0}) × Session
put sha256 env s encoded object bytes = elim (check_put s encoded object bytes) [
  | ok none ↦ (ok tt, s)
  | ok (some version) ↦ write_put sha256 env s version object bytes
  | err e ↦ (err e, s)
  | out_of_fuel ↦ (out_of_fuel, s)
]
