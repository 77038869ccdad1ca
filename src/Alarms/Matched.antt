-- ===== src/Alarms/Matched.antt =====
-- The claims that src/control_plane/alarms.rs makes of what is due, one for each.
use mathlib.Core.List.{Memᴰ}
use durable_actors.Prelude.{
  ℕ, suc, ◌≡◌, refl, sym, ◌∙◌, ap, inl, inr, List, [], ◌∷◌, some, length, arith, All, Bool-cases,
  Option-cases, ok,
}
use durable_actors.Prelude.Maps.{get, insert, beq-eq}
use durable_actors.Ownership.Types.{ActorKey, actor_eq}
use durable_actors.Alarms.{
  ClaimedAlarm, MemoryAlarm, Alarms, due_at, all_due, mark_queued, claim_one, claim_each,
}
use durable_actors.Alarms.Due.{Claimable, after_mark, transfer}

some-injective : {a b : MemoryAlarm} → some a ≡ some b → a ≡ b
some-injective h = cc

module _ (now expired : ℕ) where
  pub all_due_member :
      (actor : ActorKey) (alarm : MemoryAlarm) (t : ℕ) (alarms : Alarms)
      → get actor alarms ≡ some alarm
      → due_at now expired alarm ≡ some t
      → Memᴰ (t, actor) (all_due now expired alarms)
  unfolding all_due
  all_due_member actor alarm t [] found d = absurd cc
  all_due_member actor alarm t ((k, first) ∷ alarms) found d =
      elim (Bool-cases (actor_eq.beq k actor)) [
        | inl same ↦
            let is_first : first ≡ alarm = ground (arith, found, same) in
            let is_due : due_at now expired first ≡ some t = rw is_first d in
            rw is_due (Memᴰ.head (ap (λ j. (t, j)) (sym (beq-eq k actor same))))
        | inr other ↦
            let rest = all_due_member actor alarm t alarms (ground (arith, found, other)) d in
            elim (Option-cases (due_at now expired first)) [
              | inl e ↦ rw e rest
              | inr (t', e) ↦ rw e (Memᴰ.tail rest)
            ]
      ]

  -- The claim of an alarm, as it was before the poll.
  pub record Hit (alarms : Alarms) (c : ℕ × ActorKey) (d : ClaimedAlarm) : Type 0 where
    pub actor : d.actor ≡ c.1
    pub alarm : MemoryAlarm
    pub found : get c.1 alarms ≡ some alarm
    pub is_due : due_at now expired alarm ≡ some c.0
    pub revision : d.revision ≡ alarm.revision

  abbrev pub Matched : Alarms → List (ℕ × ActorKey) → List ClaimedAlarm → Type 0
  Matched alarms [] [] = Unit
  Matched alarms [] (d ∷ claimed) = ⊥
  Matched alarms (c ∷ due) [] = ⊥
  Matched alarms (c ∷ due) (d ∷ claimed) = Hit alarms c d × Matched alarms due claimed

  All-same :
      (a b c : Alarms) (due : List (ℕ × ActorKey))
      → All (λ d. get d.1 a ≡ get d.1 b) due
      → All (λ d. get d.1 b ≡ get d.1 c) due
      → All (λ d. get d.1 a ≡ get d.1 c) due
  All-same a b c [] h h' = tt
  All-same a b c (d ∷ due) (e, h) (e', h') = (e ∙ e', All-same a b c due h h')

  pub claim_each-Matched :
      (due : List (ℕ × ActorKey)) (alarms before : Alarms)
      → Claimable now expired alarms due
      → All (λ c. get c.1 alarms ≡ get c.1 before) due
      → (claimed : List ClaimedAlarm) × (alarms' : Alarms) × (claim_each now due alarms
          ≡ ok (claimed, alarms'))
        × Matched before due claimed
  unfolding claim_each claim_one
  claim_each-Matched [] alarms before h same = ([], alarms, refl, tt)
  claim_each-Matched ((t, k) ∷ due) alarms before ((alarm, found, is_due), absent, h) (e, same) =
      let marked = insert k (mark_queued now alarm) alarms in
      let kept = after_mark now expired k (mark_queued now alarm) alarms due absent in
      let (claimed, alarms', run, matched) =
        claim_each-Matched due marked before (transfer now expired alarms marked due kept h)
          (All-same marked alarms before due kept same) in
      (
        record { actor = k; revision = alarm.revision } ∷ claimed,
        alarms',
        rw (found, run) refl,
        (
          record {
            actor = refl;
            alarm = alarm;
            found = sym e ∙ found;
            is_due = is_due;
            revision = refl;
          },
          matched,
        ),
      )

  pub Matched-length :
      (alarms : Alarms) (due : List (ℕ × ActorKey)) (claimed : List ClaimedAlarm)
      → Matched alarms due claimed
      → length claimed ≡ length due
  Matched-length alarms [] [] h = refl
  Matched-length alarms [] (d ∷ claimed) h = absurd h
  Matched-length alarms (c ∷ due) [] h = absurd h
  Matched-length alarms (c ∷ due) (d ∷ claimed) h = ap suc (Matched-length alarms due claimed h.1)

  pub Matched-All :
      (P : ℕ × ActorKey → Type 0) (Q : ClaimedAlarm → Type 0) (alarms : Alarms)
      (due : List (ℕ × ActorKey)) (claimed : List ClaimedAlarm)
      → ((c : ℕ × ActorKey) (d : ClaimedAlarm) → Hit alarms c d → P c → Q d)
      → Matched alarms due claimed
      → All P due
      → All Q claimed
  Matched-All P Q alarms [] [] step h all = tt
  Matched-All P Q alarms [] (d ∷ claimed) step h all = absurd h
  Matched-All P Q alarms (c ∷ due) [] step h all = absurd h
  Matched-All P Q alarms (c ∷ due) (d ∷ claimed) step (hit, h) (p, all) =
      (step c d hit p, Matched-All P Q alarms due claimed step h all)

  pub Matched-member :
      (actor : ActorKey) (alarm : MemoryAlarm) (t : ℕ) (alarms : Alarms) (due : List (ℕ × ActorKey))
      (claimed : List ClaimedAlarm)
      → get actor alarms ≡ some alarm
      → Matched alarms due claimed
      → Memᴰ (t, actor) due
      → Memᴰ (record { actor = actor; revision = alarm.revision }) claimed
  Matched-member actor alarm t alarms [] claimed found h m = elim m [ ]
  Matched-member actor alarm t alarms (c ∷ due) [] found h m = absurd h
  Matched-member actor alarm t alarms (c ∷ due) (d ∷ claimed) found (hit, h) (Memᴰ.head e) =
      let key : actor ≡ c.1 = ap (λ p. p.1) e in
      let found' : get c.1 alarms ≡ some alarm = rw key at found in
      let is_it : hit.alarm ≡ alarm = some-injective (sym hit.found ∙ found') in
      let same_actor' : actor ≡ d.actor = key ∙ sym hit.actor in
      let same_revision : alarm.revision ≡ d.revision =
        ap (λ a. a.revision) (sym is_it) ∙ sym hit.revision in
      Memᴰ.head (λ i. record { actor = same_actor' i; revision = same_revision i })
  Matched-member actor alarm t alarms (c ∷ due) (d ∷ claimed) found (hit, h) (Memᴰ.tail m) =
      Memᴰ.tail (Matched-member actor alarm t alarms due claimed found h m)
