-- ===== src/Alarms/Due.antt =====
-- That the alarms which `claim_due` selects are there when it marks them: src/control_plane/alarms.rs.
use durable_actors.Prelude.{
  ℕ, zero, suc, ◌≡◌, min, refl, ap, ◌∙◌, false, List, [], ◌∷◌, none, some, arith, leb, length, take,
  length-take, All, All-take, inl, inr, Bool-cases, Option-cases, ok,
}
use durable_actors.Prelude.Maps.{get, insert, Unique, beq_ne, get_head, get-insert_other}
use durable_actors.Ownership.Types.{ActorKey, same_actor, actor_eq}
use durable_actors.Alarms.{
  ClaimedAlarm, MemoryAlarm, Alarms, due_at, all_due, insert_due, sort_due, mark_queued, claim_one,
  claim_each, claim_due_at,
}

abbrev Absent : ActorKey → List (ℕ × ActorKey) → Type 0
Absent actor due = All (λ c. same_actor c.1 actor ≡ false) due

pub All-insert_due {κ} :
    (P : ℕ × ActorKey → Type κ) (c : ℕ × ActorKey) (due : List (ℕ × ActorKey))
    → P c
    → All P due
    → All P (insert_due c due)
unfolding insert_due
All-insert_due P c [] p all = (p, tt)
All-insert_due P c (f ∷ due) p (q, all) = elim (Bool-cases (leb c.0 f.0)) [
  | inl e ↦ rw e (p, (q, all))
  | inr e ↦ rw e (q, All-insert_due P c due p all)
]

All-sort_due {κ} :
    (P : ℕ × ActorKey → Type κ) (due : List (ℕ × ActorKey)) → All P due → All P (sort_due due)
unfolding sort_due
All-sort_due P [] all = tt
All-sort_due P (c ∷ due) (p, all) = All-insert_due P c (sort_due due) p (All-sort_due P due all)

length-insert_due :
    (c : ℕ × ActorKey) (due : List (ℕ × ActorKey)) → length (insert_due c due) ≡ suc (length due)
unfolding insert_due
length-insert_due c [] = refl
length-insert_due c (f ∷ due) = ground (arith, length-insert_due c due)

pub length-sort_due : (due : List (ℕ × ActorKey)) → length (sort_due due) ≡ length due
unfolding sort_due
length-sort_due [] = refl
length-sort_due (c ∷ due) = omega (arith, length-insert_due c (sort_due due), length-sort_due due)

module _ (now expired : ℕ) where
  -- An alarm of this actor is due at this time.
  abbrev pub Chosen : Alarms → ℕ × ActorKey → Type 0
  Chosen alarms c =
      (alarm : MemoryAlarm) × (get c.1 alarms ≡ some alarm) × (due_at now expired alarm ≡ some c.0)

  abbrev pub Claimable : Alarms → List (ℕ × ActorKey) → Type 0
  Claimable alarms [] = Unit
  Claimable alarms (c ∷ due) = Chosen alarms c × Absent c.1 due × Claimable alarms due

  pub transfer :
      (alarms alarms' : Alarms) (due : List (ℕ × ActorKey))
      → All (λ c. get c.1 alarms' ≡ get c.1 alarms) due
      → Claimable alarms due
      → Claimable alarms' due
  transfer alarms alarms' [] same h = tt
  transfer alarms alarms' (c ∷ due) (e, same) ((alarm, found, is_due), absent, h) =
      ((alarm, e ∙ found, is_due), absent, transfer alarms alarms' due same h)

  all_due-Absent :
      (actor : ActorKey) (alarms : Alarms)
      → get actor alarms ≡ none
      → Absent actor (all_due now expired alarms)
  unfolding all_due
  all_due-Absent actor [] h = tt
  all_due-Absent actor ((k, alarm) ∷ alarms) h = elim (Option-cases (due_at now expired alarm)) [
    | inl e ↦ rw e (all_due-Absent actor alarms (ground arith))
    | inr (t, e) ↦ rw e (ground arith, all_due-Absent actor alarms (ground arith))
  ]

  untouched :
      (k : ActorKey) (alarm : MemoryAlarm) (alarms : Alarms) (due : List (ℕ × ActorKey))
      → Absent k due
      → All (λ c. get c.1 ((k, alarm) ∷ alarms) ≡ get c.1 alarms) due
  untouched k alarm alarms [] h = tt
  untouched k alarm alarms (c ∷ due) (e, h) = (rw (beq_ne c.1 k e), untouched k alarm alarms due h)

  pub all_due-Claimable :
      (alarms : Alarms) → Unique alarms → Claimable alarms (all_due now expired alarms)
  unfolding all_due
  all_due-Claimable [] u = tt
  all_due-Claimable ((k, alarm) ∷ alarms) (fresh, u) =
      let absent = all_due-Absent k alarms fresh in
      let rest =
        transfer alarms ((k, alarm) ∷ alarms) (all_due now expired alarms)
          (untouched k alarm alarms (all_due now expired alarms) absent)
          (all_due-Claimable alarms u) in
      elim (Option-cases (due_at now expired alarm)) [
        | inl e ↦ rw e rest
        | inr (t, e) ↦ rw e ((alarm, get_head k alarm alarms, e), absent, rest)
      ]

  insert_due-Claimable :
      (alarms : Alarms) (c : ℕ × ActorKey) (due : List (ℕ × ActorKey))
      → Chosen alarms c
      → Absent c.1 due
      → Claimable alarms due
      → Claimable alarms (insert_due c due)
  unfolding insert_due
  insert_due-Claimable alarms c [] chosen absent h = (chosen, tt, tt)
  insert_due-Claimable alarms c (f ∷ due) chosen (other, absent) h =
      elim (Bool-cases (leb c.0 f.0)) [
        | inl e ↦ rw e (chosen, (other, absent), h)
        | inr e ↦ rw e (
          h.0,
          All-insert_due (λ d. same_actor d.1 f.1 ≡ false) c due (beq_ne f.1 c.1 other) h.1,
          insert_due-Claimable alarms c due chosen absent h.2,
        )
      ]

  pub sort_due-Claimable :
      (alarms : Alarms) (due : List (ℕ × ActorKey))
      → Claimable alarms due
      → Claimable alarms (sort_due due)
  unfolding sort_due
  sort_due-Claimable alarms [] h = tt
  sort_due-Claimable alarms (c ∷ due) (chosen, absent, h) =
      insert_due-Claimable alarms c (sort_due due) chosen
        (All-sort_due (λ d. same_actor d.1 c.1 ≡ false) due absent)
        (sort_due-Claimable alarms due h)

  pub take-Claimable :
      (alarms : Alarms) (n : ℕ) (due : List (ℕ × ActorKey))
      → Claimable alarms due
      → Claimable alarms (take n due)
  take-Claimable alarms zero due h = tt
  take-Claimable alarms (suc n) [] h = tt
  take-Claimable alarms (suc n) (c ∷ due) (chosen, absent, h) = (
    chosen,
    All-take (λ d. same_actor d.1 c.1 ≡ false) n due absent,
    take-Claimable alarms n due h,
  )

  -- Alarms that are claimed one after the other, each while it is due.
  pub data Claims : List ClaimedAlarm → Alarms → Alarms → Type 0 where
    done : {alarms : Alarms} → Claims [] alarms alarms
    claims :
        {claimed : List ClaimedAlarm} {alarms alarms' : Alarms} (actor : ActorKey)
        (alarm : MemoryAlarm) (t : ℕ)
        → get actor alarms ≡ some alarm
        → due_at now expired alarm ≡ some t
        → Claims claimed (insert actor (mark_queued now alarm) alarms) alarms'
        → Claims (record { actor = actor; revision = alarm.revision } ∷ claimed) alarms alarms'

  pub after_mark :
      (actor : ActorKey) (alarm : MemoryAlarm) (alarms : Alarms) (due : List (ℕ × ActorKey))
      → Absent actor due
      → All (λ c. get c.1 (insert actor alarm alarms) ≡ get c.1 alarms) due
  after_mark actor alarm alarms [] h = tt
  after_mark actor alarm alarms (c ∷ due) (e, h) = (
    get-insert_other c.1 actor alarm alarms (beq_ne c.1 actor e),
    after_mark actor alarm alarms due h,
  )

  claim_each-Claims :
      (due : List (ℕ × ActorKey)) (alarms : Alarms)
      → Claimable alarms due
      → (claimed : List ClaimedAlarm) × (alarms' : Alarms) × (claim_each now due alarms
          ≡ ok (claimed, alarms'))
        × Claims claimed alarms alarms'
        × (length claimed ≡ length due)
  unfolding claim_each claim_one
  claim_each-Claims [] alarms h = ([], alarms, refl, done, refl)
  claim_each-Claims ((t, k) ∷ due) alarms ((alarm, found, is_due), absent, h) =
      let marked = insert k (mark_queued now alarm) alarms in
      let (claimed, alarms', e, run, size) =
        claim_each-Claims due marked
          (transfer alarms marked due (after_mark k (mark_queued now alarm) alarms due absent) h) in
      (
        record { actor = k; revision = alarm.revision } ∷ claimed,
        alarms',
        rw (found, e),
        claims k alarm t found is_due run,
        ap suc size,
      )

  -- It claims as many as are due and wanted, one after the other, each while it is due.
  pub claim_due_at-Claims :
      (limit : ℕ) (alarms : Alarms)
      → Unique alarms
      → (claimed : List ClaimedAlarm) × (alarms' : Alarms) × (claim_due_at now expired limit alarms
          ≡ ok (claimed, alarms'))
        × Claims claimed alarms alarms'
        × (length claimed ≡ min limit (length (all_due now expired alarms)))
  unfolding claim_due_at
  claim_due_at-Claims limit alarms u =
      let due = sort_due (all_due now expired alarms) in
      let (claimed, alarms', e, run, size) = claim_each-Claims (take limit due) alarms (
        take-Claimable alarms limit due
          (sort_due-Claimable alarms (all_due now expired alarms) (all_due-Claimable alarms u))) in
      (
        claimed,
        alarms',
        e,
        run,
        omega (arith, size, length-take limit due, length-sort_due (all_due now expired alarms)),
      )
