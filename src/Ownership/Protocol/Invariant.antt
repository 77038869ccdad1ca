-- ===== src/Ownership/Protocol/Invariant.antt =====
-- What holds of every reachable world of src/bucket/runtime/activation.rs.
use mathlib.Core.List.{Memᴰ}
use durable_actors.Prelude.{
  ℕ, ◌+◌, ◌≤◌, ◌<◌, ◌≡◌, refl, ap, ◌⊎◌, inl, inr, String, true, List, [], ◌∷◌, Option, none, some,
  arith, All, ok,
}
use durable_actors.Ownership.Types.{
  ActorKey, HostLease, HostLeaseRequest, SnapshotRef, Ownership, same_session,
  max_host_lease_duration_ms,
}
use durable_actors.Ownership.Activation.{Stored, stored_generation, new_lease, renewed, released}
use durable_actors.Ownership.Lawful.{IsLeaseOf, new_lease-IsLeaseOf, attempt-IsLawful}
use durable_actors.Ownership.Protocol.{
  World, generation_of, put, By, Swaps, Step, waits, claims, renews, releases, unowned, Run, begin,
  next,
}

-- A value of the past is the current one, or has an older generation.
abbrev pub Older : Stored → Stored → Type 0
Older current past = (past ≡ current) ⊎ (generation_of past < generation_of current)

abbrev pub LeaseWithin : ℕ → Stored → Type 0
LeaseWithin now none = Unit {0}
LeaseWithin now (some (g, owner)) = owner.lease.expires_at_ms ≤ now + max_host_lease_duration_ms

pub record Inv (w : World) : Type 0 where
  pub past : All (Older w.stored) w.past
  pub lease : LeaseWithin w.now w.stored

All-Memᴰ {ℓ κ} : {A : Type ℓ} (P : A → Type κ) {x : A} (xs : List A) → All P xs → Memᴰ x xs → P x
All-Memᴰ P [] all m = elim m [ ]
All-Memᴰ P (y ∷ xs) all (Memᴰ.head e) = rw e all.0
All-Memᴰ P (y ∷ xs) all (Memᴰ.tail m) = All-Memᴰ P xs all.1 m

newer :
    (a b : Stored)
    → generation_of b < generation_of a
    → stored_generation b ≡ stored_generation a
    → ⊥
newer none none lt e = ground arith
newer none (some b) lt e = cc
newer (some a) none lt e = cc
newer (some (g, a)) (some (h, b)) lt e = ground arith

-- The value that a successful swap was made over is the current one.
pub Swaps-current : (w : World) (current : Stored) → Inv w → Swaps w current → current ≡ w.stored
Swaps-current w current inv s = go (All-Memᴰ (Older w.stored) w.past inv.past s.was_read)
  where
    go : Older w.stored current → current ≡ w.stored
    go (inl same) = same
    go (inr older) = absurd (newer w.stored current older s.matches)

past-put :
    (w : World) (owner : Ownership) (values : List Stored)
    → All (Older w.stored) values
    → All (Older (some (generation_of w.stored + 1, owner))) values
past-put w owner [] all = tt
past-put w owner (v ∷ values) all = (
  inr (elim all.0 [ inl same ↦ rw same (omega arith) | inr older ↦ omega (arith, older) ]),
  past-put w owner values all.1,
)

put-Inv :
    (w : World) (owner : Ownership)
    → Inv w
    → owner.lease.expires_at_ms ≤ w.now + max_host_lease_duration_ms
    → Inv (put w owner)
put-Inv w owner inv bound = record {
  past = (inl refl, past-put w owner w.past inv.past);
  lease = bound;
}

renewed-fields :
    (actor : ActorKey) (request : HostLeaseRequest) (previous owner : Ownership) (now leased_at : ℕ)
    → renewed actor request previous now leased_at ≡ ok owner
    → (same_session previous.lease request.id request.session_id ≡ true)
      × (now < previous.lease.expires_at_ms)
      × (new_lease request leased_at ≡ ok owner.lease)
      × (owner ≡ record previous { lease = owner.lease })
unfolding renewed
renewed-fields actor request previous owner now leased_at h = ground arith

pub renewed-eq-ok :
    (actor : ActorKey) (request : HostLeaseRequest) (previous owner : Ownership) (now leased_at : ℕ)
    → renewed actor request previous now leased_at ≡ ok owner
    → (same_session previous.lease request.id request.session_id ≡ true)
      × (now < previous.lease.expires_at_ms)
      × IsLeaseOf request leased_at owner.lease
      × (owner ≡ record previous { lease = owner.lease })
renewed-eq-ok actor request previous owner now leased_at h =
    let (own, live, leased, same) = renewed-fields actor request previous owner now leased_at h in
    (own, live, new_lease-IsLeaseOf request leased_at owner.lease leased, same)

pub released-eq-some :
    (host session : String) (checkpoint : Option (Option SnapshotRef)) (previous owner : Ownership)
    → released host session checkpoint previous ≡ some owner
    → (same_session previous.lease host session ≡ true)
      × (owner.lease ≡ record previous.lease { expires_at_ms = 0 })
      × (owner.epoch ≡ previous.epoch)
unfolding released
released-eq-some host session none previous owner h = ground arith
released-eq-some host session (some c) previous owner h = ground arith

-- A lease that a request is given runs out at most the longest duration after the time it was given.
lease-bound :
    (request : HostLeaseRequest) (at now : ℕ) (lease : HostLease)
    → at ≤ now
    → IsLeaseOf request at lease
    → lease.expires_at_ms ≤ now + max_host_lease_duration_ms
lease-bound request at now lease before given = omega (arith, before, given.expiry, given.bounded)

later-LeaseWithin :
    (now later : ℕ) (stored : Stored)
    → now ≤ later
    → LeaseWithin now stored
    → LeaseWithin later stored
later-LeaseWithin now later none after within = tt
later-LeaseWithin now later (some (g, owner)) after within = omega (arith, after, within)

Step-Inv : (w : World) (by : By) (w' : World) → Inv w → Step w by w' → Inv w'
Step-Inv w by w' inv (waits later after) = record {
  past = inv.past;
  lease = later-LeaseWithin w.now later w.stored after inv.lease;
}
Step-Inv w by w' inv (claims env a hinted current owner recovery swaps validated leased h) =
    let lawful = attempt-IsLawful env a hinted current owner recovery h in
    put-Inv w owner inv (lease-bound a.request _ w.now owner.lease leased lawful.lease)
Step-Inv w by w' inv
      (renews actor request g previous owner checked_at leased_at m swaps checked leased h) =
    let (_, _, given, _) = renewed-eq-ok actor request previous owner checked_at leased_at h in
    put-Inv w (record owner { mutation = m }) inv
      (lease-bound request leased_at w.now owner.lease leased given)
Step-Inv w by w' inv (releases host session checkpoint g previous owner m swaps h) =
    let (_, ended, _) = released-eq-some host session checkpoint previous owner h in
    put-Inv w (record owner { mutation = m }) inv (omega (arith, ap (λ l. l.expires_at_ms) ended))

pub Run-Inv : {P : By → Type 0} {u w : World} → Inv u → Run P u w → Inv w
Run-Inv inv begin = inv
Run-Inv inv (next run p step) = Step-Inv _ _ _ (Run-Inv inv run) step

pub unowned-Inv : (start : ℕ) → Inv (unowned start)
unowned-Inv start = record { past = (inl refl, tt); lease = tt }
