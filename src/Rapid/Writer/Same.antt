-- ===== src/Rapid/Writer/Same.antt =====
-- That a rotation in src/bucket/rapid/writer.rs writes nothing.
use durable_actors.Prelude.{
  ℕ, ◌≡◌, refl, ◌∙◌, Bool, true, false, Option, none, some, arith, if◌then◌else◌, Result, ok, err,
  out_of_fuel,
}
use durable_actors.Prelude.Words.{checked_add}
use durable_actors.Rapid.Writer.{
  Session, Preparation, settle_retired, take_next, rotate_settled, rotate, may_rotate,
}

-- The two sessions have written the same, and are of the same health.
pub record Same (s s' : Session) : Type 0 where
  pub version : s'.version ≡ s.version
  pub latest : s'.latest ≡ s.latest
  pub healthy : s'.healthy ≡ s.healthy

same : (s : Session) → Same s s
same s = record { version = refl; latest = refl; healthy = refl }

settle_retired-Same :
    (s : Session) (ended : Option (Result (Unit {0}))) → Same s (settle_retired s ended)
settle_retired-Same s none = same s
settle_retired-Same s (some (ok u)) = record {
  version = ground arith;
  latest = ground arith;
  healthy = ground arith;
}
settle_retired-Same s (some (err e)) = record {
  version = ground arith;
  latest = ground arith;
  healthy = ground arith;
}
settle_retired-Same s (some out_of_fuel) = same s

take_next-Same :
    (s : Session) (now : ℕ) (prepared : Option Preparation) → Same s (take_next s now prepared)
take_next-Same s now none = record { version = refl; latest = refl; healthy = refl }
take_next-Same s now (some (ok (some segment))) = record {
  version = refl;
  latest = refl;
  healthy = refl;
}
take_next-Same s now (some (ok none)) = record { version = refl; latest = refl; healthy = refl }
take_next-Same s now (some (err e)) = record { version = refl; latest = refl; healthy = refl }
take_next-Same s now (some out_of_fuel) = record { version = refl; latest = refl; healthy = refl }

rotate_settled-Same :
    (s : Session) (now : ℕ) (prepared : Option Preparation) → Same s (rotate_settled s now prepared)
rotate_settled-Same s now prepared = go (may_rotate s now) (checked_add s.version 1)
  where
    go :
        (may : Bool) (next : Option ℕ)
        → Same s (
            if may
            then elim next [ none ↦ s | some first_version ↦ take_next s now prepared ]
            else s)
    go false next = same s
    go true none = same s
    go true (some first_version) = take_next-Same s now prepared

pub rotate-Same :
    (s : Session) (now : ℕ) (ended : Option (Result (Unit {0}))) (prepared : Option Preparation)
    → Same s (rotate s now ended prepared)
unfolding rotate
rotate-Same s now ended prepared =
    let a = settle_retired-Same s ended in
    let b = rotate_settled-Same (settle_retired s ended) now prepared in
    record {
      version = b.version ∙ a.version;
      latest = b.latest ∙ a.latest;
      healthy = b.healthy ∙ a.healthy;
    }
