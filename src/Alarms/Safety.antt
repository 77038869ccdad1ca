-- ===== src/Alarms/Safety.antt =====
-- What holds of the alarms after any updates, claims and ends of deliveries:
-- src/control_plane/alarms.rs.
use mathlib.Core.List.{Memᴰ}
use mathlib.Core.Path.{subst}
use durable_actors.Prelude.{
  ℕ, ◌+◌, ◌-◌, ◌≤◌, ◌≡◌, ◌⊎◌, inl, inr, refl, sym, ◌∙◌, List, [], ◌∷◌, ◌++◌, Option, none, some,
  All, Result, ok, arith,
}
use durable_actors.Prelude.Maps.{get, beq_refl}
use durable_actors.Ownership.Types.{ActorKey, actor_eq}
use durable_actors.Alarms.{
  ClaimedAlarm, MemoryAlarm, Alarms, queued_timeout_ms, timestamp_of, get_alarm, claim_due_at,
  claim_due,
}
use durable_actors.Alarms.Due.{Claims, claim_due_at-Claims}
use durable_actors.Alarms.Runs.{
  Sets, ClaimLog, at_clock, Runs, starts, updates, claims, finishes, count_sets, last_set, is_set,
  delivered, Fits, ApartFrom, Apart, Good,
}
use durable_actors.Alarms.Runs.Steps.{update-Good, Claims-Good, finish-Good, All-Memᴰ}

claim_due-eq-ok :
    (clock_ms limit : ℕ) (alarms : Alarms) (out : List ClaimedAlarm × Alarms)
    → claim_due clock_ms limit alarms ≡ ok out
    → claim_due_at (at_clock clock_ms) (at_clock clock_ms - queued_timeout_ms) limit alarms ≡ ok out
unfolding claim_due
claim_due-eq-ok clock_ms limit alarms out h = ground arith

ok_pair {ℓ κ} :
    {A : Type ℓ} {B : Type κ} (a a' : A) (b b' : B)
    → ◌≡◌ {A = Result (A × B)} (ok (a, b)) (ok (a', b'))
    → (a ≡ a') × (b ≡ b')
ok_pair a a' b b' h = (cc, cc)

claim_due-Claims :
    (sets : Sets) (log : ClaimLog) (clock_ms limit : ℕ) (alarms : Alarms)
    (claimed : List ClaimedAlarm) (alarms' : Alarms)
    → claim_due clock_ms limit alarms ≡ ok (claimed, alarms')
    → Good sets log alarms
    → Claims (at_clock clock_ms) (at_clock clock_ms - queued_timeout_ms) claimed alarms alarms'
claim_due-Claims sets log clock_ms limit alarms claimed alarms' h good =
    let (claimed2, alarms2, e, run, size) =
      claim_due_at-Claims (at_clock clock_ms) (at_clock clock_ms - queued_timeout_ms) limit alarms
        good.unique in
    let (same, same') =
      ok_pair claimed2 claimed alarms2 alarms'
        (sym e ∙ claim_due-eq-ok clock_ms limit alarms (claimed, alarms') h) in
    rw (sym same, sym same') run

pub Runs-Good :
    {sets : Sets} {log : ClaimLog} {alarms : Alarms} → Runs sets log alarms → Good sets log alarms
Runs-Good starts = record { unique = tt; fits = λ k. (refl, refl, tt); apart = tt }
Runs-Good (updates {sets} {log} {alarms} {alarms'} actor t e r) =
    update-Good sets log alarms alarms' actor t e (Runs-Good r)
Runs-Good (claims {sets} {log} {alarms} {alarms'} {claimed} clock_ms limit e r) =
    Claims-Good (at_clock clock_ms) (at_clock clock_ms - queued_timeout_ms) sets log (omega arith)
      (claim_due-Claims sets log clock_ms limit alarms claimed alarms' e (Runs-Good r))
      (Runs-Good r)
Runs-Good (finishes {sets} {log} {alarms} claimed at m r) =
    finish-Good sets log alarms claimed at m (Runs-Good r)

get_alarm-Fits :
    (actor : ActorKey) (sets : Sets) (log : ClaimLog) (t : ℕ) (o : Option MemoryAlarm)
    → last_set actor sets ≡ some (some t)
    → Fits actor sets log o
    → (timestamp_of o ≡ some t)
      ⊎ ((at : ℕ) × (t ≤ at)
          × Memᴰ (record { actor = actor; revision = count_sets actor sets }, at) log)
get_alarm-Fits actor sets log t none e (count, fresh, others) = absurd (ground arith)
get_alarm-Fits actor sets log t (some alarm) e (revision, is_set p, earlier) = inl (ground arith)
get_alarm-Fits actor sets log t (some alarm) e (revision, delivered u at p le m n, earlier) = inr (
  at,
  ground arith,
  subst (λ r. Memᴰ (record { actor = actor; revision = r }, at) log) revision m,
)

-- An alarm is not lost. After any updates, claims and ends of deliveries, if the last update of an
-- actor set its alarm to some time, then that time is still its alarm, or that update was claimed, at
-- its own revision and not before its time. So the end of an older delivery does not clear it. The
-- revision is the number of updates of the actor.
pub get_alarm_or_claimed :
    {sets : Sets} {log : ClaimLog} {alarms : Alarms} (actor : ActorKey) (t : ℕ)
    → Runs sets log alarms
    → last_set actor sets ≡ some (some t)
    → (get_alarm alarms actor ≡ some t)
      ⊎ ((at : ℕ) × (t ≤ at)
          × Memᴰ (record { actor = actor; revision = count_sets actor sets }, at) log)
unfolding get_alarm
get_alarm_or_claimed {sets} {log} {alarms} actor t r e =
    get_alarm-Fits actor sets log t (get actor alarms) e ((Runs-Good r).fits actor)

Apart-append : (newer log : ClaimLog) → Apart (newer ++ log) → Apart log
Apart-append [] log h = h
Apart-append (c ∷ newer) log h = Apart-append newer log h.1

apart_member :
    (claimed : ClaimedAlarm) (later at : ℕ) (log : ClaimLog)
    → All (ApartFrom claimed later) log
    → Memᴰ (claimed, at) log
    → at + queued_timeout_ms ≤ later
apart_member claimed later at log all m = elim (All-Memᴰ (ApartFrom claimed later) log all m) [
  | inl e ↦ absurd (ground (arith, beq_refl claimed.actor))
  | inr (inl lt) ↦ absurd (omega arith)
  | inr (inr le) ↦ le
]

-- Two claims of one revision of an actor's alarm are apart by the queue timeout at least, after any
-- updates, claims and ends of deliveries, whatever their clocks say.
pub claim_due_apart :
    {sets : Sets} {log : ClaimLog} {alarms : Alarms} (claimed : ClaimedAlarm) (later at : ℕ)
    (newer older : ClaimLog)
    → Runs sets log alarms
    → log ≡ newer ++ ((claimed, later) ∷ older)
    → Memᴰ (claimed, at) older
    → at + queued_timeout_ms ≤ later
claim_due_apart claimed later at newer older r e m =
    let apart : Apart (newer ++ ((claimed, later) ∷ older)) = subst Apart e (Runs-Good r).apart in
    apart_member claimed later at older (Apart-append newer ((claimed, later) ∷ older) apart).0 m
