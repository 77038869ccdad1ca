-- ===== src/Ownership/Protocol/Exclusion.antt =====
-- Mutual exclusion of the sessions that own an actor: src/bucket/runtime/activation.rs.
use durable_actors.Prelude.{
  ℕ, ◌+◌, ◌≤◌, ◌<◌, ◌≡◌, ◌≢◌, refl, ap, sym, ◌∙◌, ◌⊎◌, inl, inr, String, true, none, some, arith,
  &&-both,
}
use durable_actors.Ownership.Types.{HostLeaseRequest, Ownership, same_session, str_eq→eq}
use durable_actors.Ownership.Activation.{Stored, stored_record}
use durable_actors.Ownership.Lawful.{IsLeaseOf, Succeeds, attempt-IsLawful}
use durable_actors.Ownership.Protocol.{
  World, By, Step, waits, claims, renews, releases, Run, begin, next, Anyone, Reachable,
}
use durable_actors.Ownership.Protocol.Invariant.{
  Inv, Swaps-current, renewed-eq-ok, released-eq-some, Run-Inv, unowned-Inv,
}

abbrev pub session_of : Ownership → By
session_of owner = some (owner.lease.id, owner.lease.session_id)

-- A step of another session than the owner's.
abbrev pub Other : Ownership → By → Type 0
Other owner by = by ≢ session_of owner

same_session-session_of :
    (owner : Ownership) (host session : String)
    → same_session owner.lease host session ≡ true
    → some (host, session) ≡ session_of owner
same_session-session_of owner host session h =
    let (host_eq, session_eq) = &&-both _ _ h in
    rw
      (
        sym (str_eq→eq owner.lease.id host host_eq),
        sym (str_eq→eq owner.lease.session_id session session_eq),
      )
      refl

-- What one step does to a record that is stored.
data Change (w : World) (owner : Ownership) (by : By) : World → Type 0 where
  kept : (w' : World) → w'.stored ≡ w.stored → w.now ≤ w'.now → Change w owner by w'
  taken :
      (w' : World) (g : ℕ) (claimant : Ownership)
      → w'.stored ≡ some (g, claimant)
      → owner.epoch + 1 ≡ claimant.epoch
      → owner.lease.expires_at_ms ≤ w.now
      → Change w owner by w'
  own :
      (w' : World) (g : ℕ) (changed : Ownership)
      → w'.stored ≡ some (g, changed)
      → by ≡ session_of owner
      → owner.epoch ≡ changed.epoch
      → session_of owner ≡ session_of changed
      → Change w owner by w'

IsLeaseOf-session_of :
    (request : HostLeaseRequest) (at : ℕ) (owner : Ownership)
    → IsLeaseOf request at owner.lease
    → some (request.id, request.session_id) ≡ session_of owner
IsLeaseOf-session_of request at owner given = rw (given.host, given.session) refl

current-stored :
    (w : World) (g h : ℕ) (owner previous : Ownership)
    → w.stored ≡ some (g, owner)
    → some (h, previous) ≡ w.stored
    → previous ≡ owner
current-stored w g h owner previous e e' = cc

Step-Change :
    (w : World) (g : ℕ) (owner : Ownership) (by : By) (w' : World)
    → Inv w
    → w.stored ≡ some (g, owner)
    → Step w by w'
    → Change w owner by w'
Step-Change w g owner by w' inv e (waits later after) = kept _ refl after
Step-Change w g owner by w' inv e
      (claims env a hinted current claimant recovery swaps validated leased h) =
    let lawful = attempt-IsLawful env a hinted current claimant recovery h in
    let same : stored_record current ≡ some owner =
      ap stored_record (Swaps-current w current inv swaps ∙ e) in
    let follows : Succeeds a (some owner) (env.validated_at hinted) claimant =
      rw same at lawful.follows in
    taken _ _ claimant refl (sym follows.0) (omega (arith, validated, follows.1))
Step-Change w g owner by w' inv e
      (renews actor request h previous changed checked_at leased_at m swaps checked leased r) =
    let (mine, _, given, same) =
      renewed-eq-ok actor request previous changed checked_at leased_at r in
    let is_owner = current-stored w g h owner previous e (Swaps-current w _ inv swaps) in
    let acts = same_session-session_of previous request.id request.session_id mine in
    own _ _ (record changed { mutation = m }) refl (acts ∙ ap session_of is_owner)
      (ap (λ o. o.epoch) (sym is_owner) ∙ sym (ap (λ o. o.epoch) same))
      (ap session_of (sym is_owner)
        ∙ sym acts
        ∙ IsLeaseOf-session_of request leased_at changed given)
Step-Change w g owner by w' inv e (releases host session checkpoint h previous changed m swaps r) =
    let (mine, ended, epoch) = released-eq-some host session checkpoint previous changed r in
    let is_owner = current-stored w g h owner previous e (Swaps-current w _ inv swaps) in
    let acts = same_session-session_of previous host session mine in
    own _ _ (record changed { mutation = m }) refl (acts ∙ ap session_of is_owner)
      (ap (λ o. o.epoch) (sym is_owner) ∙ sym epoch)
      (ap session_of (sym is_owner) ∙ ap (λ l. some (l.id, l.session_id)) (sym ended))

abbrev pub EpochsGrow : Stored → Stored → Type 0
EpochsGrow none later = Unit {0}
EpochsGrow (some (g, owner)) none = ⊥
EpochsGrow (some (g, owner)) (some (h, later)) =
    (owner.epoch < later.epoch)
    ⊎ ((owner.epoch ≡ later.epoch) × (session_of owner ≡ session_of later))

EpochsGrow-kept : (a b : Stored) → b ≡ a → EpochsGrow a b
EpochsGrow-kept none b e = tt
EpochsGrow-kept (some (g, owner)) b e = rw e (inr (refl, refl))

EpochsGrow-trans : (a b c : Stored) → EpochsGrow a b → EpochsGrow b c → EpochsGrow a c
EpochsGrow-trans none b c ab bc = tt
EpochsGrow-trans (some (g, a)) none c ab bc = absurd ab
EpochsGrow-trans (some (g, a)) (some (h, b)) none ab bc = absurd bc
EpochsGrow-trans (some (g, a)) (some (h, b)) (some (i, c)) (inl lt) (inl lt') =
    inl (omega (arith, lt, lt'))
EpochsGrow-trans (some (g, a)) (some (h, b)) (some (i, c)) (inl lt) (inr (e, s)) =
    inl (omega (arith, lt, e))
EpochsGrow-trans (some (g, a)) (some (h, b)) (some (i, c)) (inr (e, s)) (inl lt) =
    inl (omega (arith, lt, e))
EpochsGrow-trans (some (g, a)) (some (h, b)) (some (i, c)) (inr (e, s)) (inr (e', s')) =
    inr (e ∙ e', s ∙ s')

Change-EpochsGrow :
    (w : World) (g : ℕ) (owner : Ownership) (by : By) (w' : World)
    → Change w owner by w'
    → w.stored ≡ some (g, owner)
    → EpochsGrow (some (g, owner)) w'.stored
Change-EpochsGrow w g owner by w' (kept _ same after) e =
    EpochsGrow-kept (some (g, owner)) w'.stored (same ∙ e)
Change-EpochsGrow w g owner by w' (taken _ h claimant written next_epoch expired) e =
    rw written (inl (omega (arith, next_epoch)))
Change-EpochsGrow w g owner by w' (own _ h changed written mine epoch session) e =
    rw written (inr (epoch, session))

Step-EpochsGrow :
    (w : World) (by : By) (w' : World) → Inv w → Step w by w' → EpochsGrow w.stored w'.stored
Step-EpochsGrow w by w' inv step = go w.stored refl
  where
    go : (stored : Stored) → w.stored ≡ stored → EpochsGrow stored w'.stored
    go none e = tt
    go (some (g, owner)) e =
        Change-EpochsGrow w g owner by w' (Step-Change w g owner by w' inv e step) e

Run-EpochsGrow : {P : By → Type 0} {u w : World} → Inv u → Run P u w → EpochsGrow u.stored w.stored
Run-EpochsGrow {u = u} inv begin = EpochsGrow-kept u.stored u.stored refl
Run-EpochsGrow {u = u} inv (next {v} {w} {by} run p step) =
    EpochsGrow-trans u.stored v.stored w.stored (Run-EpochsGrow inv run)
      (Step-EpochsGrow v by w (Run-Inv inv run) step)

pub Reachable-Inv : (w : World) → Reachable w → Inv w
Reachable-Inv w (start, run) = Run-Inv (unowned-Inv start) run

-- From any reachable world on, whatever claims, renewals and releases follow, over values read at any
-- time: an actor that has an owner keeps having one, the epoch never falls, and as long as it is the
-- same the owner is the same session. So an epoch belongs to one session.
pub epoch_has_one_session :
    (u w : World) → Reachable u → Run Anyone u w → EpochsGrow u.stored w.stored
epoch_has_one_session u w reach run = Run-EpochsGrow (Reachable-Inv u reach) run

excluded_step :
    (v : World) (g : ℕ) (owner : Ownership) (by : By) (w : World)
    → Other owner by
    → v.stored ≡ some (g, owner)
    → v.now < owner.lease.expires_at_ms
    → Change v owner by w
    → w.stored ≡ some (g, owner)
excluded_step v g owner by w other e live (kept _ same after) = same ∙ e
excluded_step v g owner by w other e live (taken _ h claimant written next_epoch expired) =
    absurd (omega (arith, live, expired))
excluded_step v g owner by w other e live (own _ h changed written mine epoch session) =
    absurd (other mine)

Step-now : (v : World) (by : By) (w : World) → Step v by w → v.now ≤ w.now
Step-now v by w (waits later after) = after
Step-now v by w (claims env a hinted current owner recovery swaps validated leased h) = omega arith
Step-now v by w
      (renews actor request g previous owner checked_at leased_at m swaps checked leased h) =
    omega arith
Step-now v by w (releases host session checkpoint g previous owner m swaps h) = omega arith

-- Mutual exclusion. Once a reachable world has an owner, no steps of other sessions change the record
-- while its lease has not run out, whatever they had read before.
pub others_are_excluded :
    (u : World) (g : ℕ) (owner : Ownership) (w : World)
    → Reachable u
    → u.stored ≡ some (g, owner)
    → Run (Other owner) u w
    → w.now < owner.lease.expires_at_ms
    → w.stored ≡ some (g, owner)
others_are_excluded u g owner w reach e begin live = e
others_are_excluded u g owner w reach e (next {v = v} {by = by} run other step) live =
    let before : v.now < owner.lease.expires_at_ms = omega (arith, live, Step-now v by w step) in
    let same = others_are_excluded u g owner v reach e run before in
    excluded_step v g owner by w other same before
      (Step-Change v g owner by w (Run-Inv (Reachable-Inv u reach) run) same step)
