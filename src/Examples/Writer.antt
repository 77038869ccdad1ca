-- ===== src/Examples/Writer.antt =====
-- A session that stores one state in Standard storage, then loses one: src/bucket/rapid/writer.rs.
use durable_actors.Prelude.{◌≡◌, refl, true, false, [], ◌∷◌, none, Result, ok, err}
use durable_actors.Rapid.Writer.{
  Reference, Session, Env, put, check_put, new_version, write_put, rotate,
}
use durable_actors.Examples.Frame.{no_digest}

abbrev new_session : Session
new_session = record {
  segment = none;
  preparing = true;
  next = false;
  retired = false;
  retirement_error = none;
  latest = none;
  version = 6;
  installed_at = 6;
  standard = false;
  healthy = true;
  rotated = 100;
}

abbrev answers : Result (Unit {0}) → Env
answers standard = record {
  now = 200;
  ended = none;
  next_prepared = none;
  prepared = ok none;
  standard_put = λ object bytes. standard;
  flush = λ frame. none;
}

abbrev reference : Reference
reference = record { object = "s/7.json"; state_version = 7 }

abbrev result : Result (Unit {0}) → Result (Unit {0}) × Session
result standard = put no_digest (answers standard) new_session (ok reference) "s/7.json" (1 ∷ [])

stored : (result (ok tt)).0 ≡ ok tt
unfolding put check_put new_version write_put rotate
stored = refl

unhealthy_after_loss : (result (err "unavailable")).1.healthy ≡ false
unfolding put check_put new_version write_put rotate
unhealthy_after_loss = refl
