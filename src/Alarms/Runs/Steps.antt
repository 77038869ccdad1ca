-- ===== src/Alarms/Runs/Steps.antt =====
-- What each step of a store of alarms keeps: src/control_plane/alarms.rs.
use mathlib.Core.List.{Memᴰ}
use mathlib.Core.Path.{subst}
use durable_actors.Prelude.{
  ℕ, ◌+◌, ◌≤◌, ◌≡◌, ◌⊎◌, inl, inr, refl, sym, ap, ◌∙◌, false, List, [], ◌∷◌, Option, none, some,
  All, ok, >>=-eq-ok, arith, Bool-cases, Option-cases, ◌==◌,
}
use durable_actors.Prelude.Maps.{
  get, insert, get-insert_same, get-insert_other, insert-Unique, beq_refl, beq-eq,
}
use durable_actors.Ownership.Types.{ActorKey, same_actor, actor_eq}
use durable_actors.Alarms.{
  ClaimedAlarm, MemoryAlarm, Alarms, queued_timeout_ms, update, finish, next_revision, due_at,
  mark_queued,
}
use durable_actors.Alarms.Due.{Claims, done, claims}
use durable_actors.Alarms.Runs.{
  Sets, ClaimLog, stamp, last_set, Earlier, other, older, ended, queued, Stands, is_set, delivered,
  Fits, ApartFrom, Good,
}

All-map {ℓ κ ν} :
    {A : Type ℓ} (P : A → Type κ) (Q : A → Type ν) (xs : List A)
    → ((x : A) → P x → Q x)
    → All P xs
    → All Q xs
All-map P Q [] f h = tt
All-map P Q (x ∷ xs) f h = (f x h.0, All-map P Q xs f h.1)

pub All-Memᴰ {ℓ κ} :
    {A : Type ℓ} (P : A → Type κ) {x : A} (xs : List A) → All P xs → Memᴰ x xs → P x
All-Memᴰ P [] h m = elim m [ ]
All-Memᴰ P (y ∷ xs) h (Memᴰ.head e) = rw e h.0
All-Memᴰ P (y ∷ xs) h (Memᴰ.tail m) = All-Memᴰ P xs h.1 m

-- The other actors keep what holds of them when one alarm is set.
set_other :
    (sets : Sets) (log : ClaimLog) (k actor : ActorKey) (t : Option ℕ) (o : Option MemoryAlarm)
    → same_actor k actor ≡ false
    → Fits actor sets log o
    → Fits actor ((k, t) ∷ sets) log o
set_other sets log k actor t none e h = rw e h
set_other sets log k actor t (some alarm) e (revision, stands, earlier) =
    (rw e revision, stand stands, All-map _ _ log keep earlier)
  where
    stand : Stands actor sets log alarm → Stands actor ((k, t) ∷ sets) log alarm
    stand (is_set p) = is_set (rw e p)
    stand (delivered u at p le m n) = delivered u at (rw e p) le m n

    keep :
        (c : ClaimedAlarm × ℕ) → Earlier actor sets alarm c → Earlier actor ((k, t) ∷ sets) alarm c
    keep c (other p) = other p
    keep c (older p) = older p
    keep c (ended u r p le n) = ended u r (rw e p) le n
    keep c (queued u q r p le n m) = queued u q r (rw e p) le n m

-- The actor whose alarm is set.
set_same :
    (sets : Sets) (log : ClaimLog) (actor : ActorKey) (t : Option ℕ) (revision : ℕ)
    (o : Option MemoryAlarm)
    → next_revision o ≡ ok revision
    → Fits actor sets log o
    → Fits actor
        ((actor, t) ∷ sets)
        log
        (some (record { revision = revision; timestamp_ms = t; queued_at_ms = none }))
set_same sets log actor t revision none e (count, fresh, others) = (
  rw (beq_refl actor) (ground (arith, count)),
  is_set (rw (beq_refl actor)),
  All-map _ _ log (λ c p. other p) others,
)
set_same sets log actor t revision (some alarm) e (count, stands, earlier) = (
  rw (beq_refl actor) (ground (arith, count)),
  is_set (rw (beq_refl actor)),
  All-map _ _ log keep earlier,
)
  where
    keep :
        (c : ClaimedAlarm × ℕ)
        → Earlier actor sets alarm c
        → Earlier actor
            ((actor, t) ∷ sets)
            (record { revision = revision; timestamp_ms = t; queued_at_ms = none })
            c
    keep c (other p) = other p
    keep c (older p) = older (ground arith)
    keep c (ended u r p le n) = older (ground arith)
    keep c (queued u q r p le n m) = older (ground arith)

update-eq-ok :
    (alarms alarms' : Alarms) (actor : ActorKey) (t : Option ℕ)
    → update alarms actor t ≡ ok alarms'
    → (revision : ℕ) × (next_revision (get actor alarms) ≡ ok revision)
      × (alarms'
          ≡ insert actor
              (record { revision = revision; timestamp_ms = t; queued_at_ms = none })
              alarms)
unfolding update
update-eq-ok alarms alarms' actor t h =
    let (revision, e, r) = >>=-eq-ok (next_revision (get actor alarms)) _ h in
    (revision, e, ground arith)

pub update-Good :
    (sets : Sets) (log : ClaimLog) (alarms alarms' : Alarms) (actor : ActorKey) (t : Option ℕ)
    → update alarms actor t ≡ ok alarms'
    → Good sets log alarms
    → Good ((actor, t) ∷ sets) log alarms'
update-Good sets log alarms alarms' actor t h good =
    let (revision, e, is_new) = update-eq-ok alarms alarms' actor t h in
    let alarm : MemoryAlarm = record {
      revision = revision;
      timestamp_ms = t;
      queued_at_ms = none;
    } in
    rw is_new (record {
      unique = insert-Unique actor alarm alarms good.unique;
      fits = λ k. elim (Bool-cases (same_actor actor k)) [
        | inl same ↦
            rw (sym (beq-eq actor k same), get-insert_same actor alarm alarms)
              (set_same sets log actor t revision (get actor alarms) e (good.fits actor))
        | inr differs ↦
            rw (get-insert_other k actor alarm alarms differs)
              (set_other sets log actor k t (get k alarms) differs (good.fits k))
      ];
      apart = good.apart;
    })

-- A claim of one alarm that is due.
module _ (now expired : ℕ) (before : expired + queued_timeout_ms ≤ now) (sets : Sets)
    (log : ClaimLog) (k : ActorKey) (alarm : MemoryAlarm) (t : ℕ)
    (is_due : due_at now expired alarm ≡ some t) where
  abbrev claim_now : ClaimedAlarm × ℕ
  claim_now = (record { actor = k; revision = alarm.revision }, now)

  due_at-eq-some :
      (alarm.timestamp_ms ≡ some t)
      × (t ≤ now)
      × ((alarm.queued_at_ms ≡ none) ⊎ ((q : ℕ) × (alarm.queued_at_ms ≡ some q) × (q ≤ expired)))
  unfolding due_at
  due_at-eq-some = elim (Option-cases alarm.queued_at_ms) [
    | inl e ↦ (ground arith, ground arith, inl e)
    | inr (q, e) ↦ (ground arith, ground arith, inr (q, e, ground arith))
  ]

  -- A claim of this revision is over, and before the timeout.
  past :
      (c : ClaimedAlarm × ℕ)
      → Earlier k sets alarm c
      → ApartFrom (record { actor = k; revision = alarm.revision }) now c
  past c (other p) = inl p
  past c (older p) = inr (inl p)
  past c (ended u r p le n) = absurd (ground (arith, due_at-eq-some.0))
  past c (queued u q r p le n m) = inr (
      inr
        (elim due_at-eq-some.2 [ inl e ↦ absurd (ground arith) | inr (q', e, le') ↦ ground arith ]))

  claim_other :
      (actor : ActorKey) (o : Option MemoryAlarm)
      → same_actor k actor ≡ false
      → Fits actor sets log o
      → Fits actor sets (claim_now ∷ log) o
  claim_other actor none e (count, fresh, others) = (count, fresh, (e, others))
  claim_other actor (some a) e (revision, stands, earlier) =
      (revision, stand stands, (other e, earlier))
    where
      stand : Stands actor sets log a → Stands actor sets (claim_now ∷ log) a
      stand (is_set p) = is_set p
      stand (delivered u at p le m n) = delivered u at p le (Memᴰ.tail m) n

  claim_same :
      Fits k sets log (some alarm) → Fits k sets (claim_now ∷ log) (some (mark_queued now alarm))
  claim_same (revision, stands, earlier) = (
    revision,
    is_set (set_at stands),
    (
      queued t now refl (set_at stands ∙ ap some due_at-eq-some.0) due_at-eq-some.1 refl
          (omega arith),
      All-map _ _ log keep earlier,
    ),
  )
    where
      set_at : Stands k sets log alarm → last_set k sets ≡ some alarm.timestamp_ms
      set_at (is_set p) = p
      set_at (delivered u at p le m n) = absurd (ground (arith, due_at-eq-some.0))

      keep :
          (c : ClaimedAlarm × ℕ) → Earlier k sets alarm c → Earlier k sets (mark_queued now alarm) c
      keep c (other p) = other p
      keep c (older p) = older p
      keep c (ended u r p le n) = ended u r p le n
      keep c (queued u q r p le n m) = elim due_at-eq-some.2 [
        | inl e ↦ absurd (ground arith)
        | inr (q', e, le') ↦ queued u now r p le refl (ground arith)
      ]

  pub claim_one-Good :
      (alarms : Alarms)
      → get k alarms ≡ some alarm
      → Good sets log alarms
      → Good sets (claim_now ∷ log) (insert k (mark_queued now alarm) alarms)
  claim_one-Good alarms found good =
      let fits_k : Fits k sets log (some alarm) = subst (Fits k sets log) found (good.fits k) in
      record {
        unique = insert-Unique k (mark_queued now alarm) alarms good.unique;
        fits = λ j. elim (Bool-cases (same_actor k j)) [
          | inl same ↦
              rw (sym (beq-eq k j same), get-insert_same k (mark_queued now alarm) alarms)
                (claim_same fits_k)
          | inr differs ↦
              rw (get-insert_other j k (mark_queued now alarm) alarms differs)
                (claim_other j (get j alarms) differs (good.fits j))
        ];
        apart = (All-map _ _ log past fits_k.2, good.apart);
      }

pub Claims-Good :
    (now expired : ℕ) {claimed : List ClaimedAlarm} {alarms alarms' : Alarms} (sets : Sets)
    (log : ClaimLog)
    → expired + queued_timeout_ms ≤ now
    → Claims now expired claimed alarms alarms'
    → Good sets log alarms
    → Good sets (stamp now claimed log) alarms'
Claims-Good now expired sets log before done good = good
Claims-Good now expired {alarms = alarms} sets log before (claims k alarm t found is_due run) good =
    Claims-Good now expired sets _ before run
      (claim_one-Good now expired before sets log k alarm t is_due alarms found good)

-- The end of a delivery.
module _ (sets : Sets) (log : ClaimLog) (claimed : ClaimedAlarm) (at : ℕ)
    (was_claimed : Memᴰ (claimed, at) log) (alarm : MemoryAlarm)
    (same_revision : alarm.revision ≡ claimed.revision) where
  abbrev clear : MemoryAlarm
  clear = record alarm { timestamp_ms = none; queued_at_ms = none }

  finish_same : Fits claimed.actor sets log (some alarm) → Fits claimed.actor sets log (some clear)
  finish_same (revision, stands, earlier) =
      (revision, stand (All-Memᴰ _ log earlier was_claimed), All-map _ _ log keep earlier)
    where
      stand : Earlier claimed.actor sets alarm (claimed, at) → Stands claimed.actor sets log clear
      stand (other p) = absurd (ground (arith, beq_refl claimed.actor))
      stand (older p) = absurd (omega arith)
      stand (ended t r p le n) = delivered t at p le (rw same_revision was_claimed) refl
      stand (queued t q r p le n m) = delivered t at p le (rw same_revision was_claimed) refl

      keep :
          (c : ClaimedAlarm × ℕ)
          → Earlier claimed.actor sets alarm c
          → Earlier claimed.actor sets clear c
      keep c (other p) = other p
      keep c (older p) = older p
      keep c (ended u r p le n) = ended u r p le refl
      keep c (queued u q r p le n m) = ended u r p le refl

  clear-Good :
      (alarms : Alarms)
      → get claimed.actor alarms ≡ some alarm
      → Good sets log alarms
      → Good sets log (insert claimed.actor clear alarms)
  clear-Good alarms found good = record {
    unique = insert-Unique claimed.actor clear alarms good.unique;
    fits = λ j. elim (Bool-cases (same_actor claimed.actor j)) [
      | inl same ↦
          rw (sym (beq-eq claimed.actor j same), get-insert_same claimed.actor clear alarms)
            (finish_same (subst (Fits claimed.actor sets log) found (good.fits claimed.actor)))
      | inr differs ↦ rw (get-insert_other j claimed.actor clear alarms differs) (good.fits j)
    ];
    apart = good.apart;
  }

pub finish-Good :
    (sets : Sets) (log : ClaimLog) (alarms : Alarms) (claimed : ClaimedAlarm) (at : ℕ)
    → Memᴰ (claimed, at) log
    → Good sets log alarms
    → Good sets log (finish claimed alarms)
unfolding finish
finish-Good sets log alarms claimed at m good = elim (Option-cases (get claimed.actor alarms)) [
  | inl e ↦ rw (e, finish) good
  | inr (alarm, e) ↦ elim (Bool-cases (alarm.revision == claimed.revision)) [
    | inl same ↦
        rw (e, same, finish) (clear-Good sets log claimed at m alarm (ground arith) alarms e good)
    | inr differs ↦ rw (e, differs, finish) good
  ]
]
