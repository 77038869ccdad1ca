-- ===== src/Ownership/Protocol.antt =====
-- The ownership object of one actor under every host that claims, renews or releases it. A host works
-- with a value that it read at some time; its compare-and-swap names that value's generation.
mod Invariant
pub mod Exclusion
pub mod Takeover
use mathlib.Core.List.{Memᴰ}
use durable_actors.Prelude.{
  ℕ, ◌+◌, ◌≤◌, ◌≡◌, String, Bool, List, [], ◌∷◌, Option, none, some, Result, ok,
}
use durable_actors.Ownership.Types.{ActorKey, HostLeaseRequest, SnapshotRef, Ownership}
use durable_actors.Ownership.Loading.{LoadedSnapshot}
use durable_actors.Ownership.Activation.{
  Activation, Env, Stored, stored_generation, attempt, renewed, released,
}

-- The object's value, the time, and every value that the object has had.
pub record World : Type 0 where
  pub stored : Stored
  pub now : ℕ
  pub past : List Stored

abbrev pub generation_of : Stored → ℕ
generation_of none = 0
generation_of (some (g, owner)) = g

abbrev pub put : World → Ownership → World
put w owner =
    let written : Stored = some (generation_of w.stored + 1, owner) in
    record w { stored = written; past = written ∷ w.past }

-- The host and the session that act; time passes by nobody.
abbrev pub By : Type 0
By = Option (String × String)

-- The value that a host acts on, with which its swap succeeds.
pub record Swaps (w : World) (current : Stored) : Type 0 where
  pub was_read : Memᴰ current w.past
  pub matches : stored_generation current ≡ stored_generation w.stored

-- What the host is told of its swap does not matter here.
pub data Step (w : World) : By → World → Type 0 where
  waits : (later : ℕ) → w.now ≤ later → Step w none (record w { now = later })
  claims :
      (env : Env) (a : Activation) (hinted : Bool) (current : Stored) (owner : Ownership)
      (recovery : Result (Option LoadedSnapshot))
      → Swaps w current
      → env.validated_at hinted ≤ w.now
      → env.leased_at hinted ≤ w.now
      → attempt env a hinted current ≡ ok (some (owner, recovery))
      → Step w (some (a.request.id, a.request.session_id)) (put w owner)
  renews :
      (actor : ActorKey) (request : HostLeaseRequest) (generation : ℕ) (previous owner : Ownership)
      (checked_at leased_at : ℕ) (mutation : String)
      → Swaps w (some (generation, previous))
      → checked_at ≤ w.now
      → leased_at ≤ w.now
      → renewed actor request previous checked_at leased_at ≡ ok owner
      → Step w
          (some (request.id, request.session_id))
          (put w (record owner { mutation = mutation }))
  releases :
      (host session : String) (checkpoint : Option (Option SnapshotRef)) (generation : ℕ)
      (previous owner : Ownership) (mutation : String)
      → Swaps w (some (generation, previous))
      → released host session checkpoint previous ≡ some owner
      → Step w (some (host, session)) (put w (record owner { mutation = mutation }))

abbrev pub unowned : ℕ → World
unowned now = record { stored = none; now = now; past = none ∷ [] }

-- Any steps, each by a session that `P` admits.
pub data Run (P : By → Type 0) (u : World) : World → Type 0 where
  begin : Run P u u
  next : {v w : World} {by : By} → Run P u v → P by → Step v by w → Run P u w

abbrev pub Anyone : By → Type 0
Anyone by = Unit {0}

-- The worlds that an actor without an owner comes to.
abbrev pub Reachable : World → Type 0
Reachable w = (start : ℕ) × Run Anyone (unowned start) w
