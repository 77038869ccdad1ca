-- ===== src/Ownership/Claims.antt =====
-- The result of `register_activation` as a whole.
use durable_actors.Prelude.{
  ℕ, ◌≤◌, ◌≡◌, refl, ap, ◌⊎◌, inl, inr, Bool, true, false, Option, none, some, arith, Result, ok,
  err, out_of_fuel, ◌>>=◌, ◌>>◌,
}
use durable_actors.Ownership.Types.{validate_duration, Ownership}
use durable_actors.Ownership.Loading.{LoadedSnapshot}
use durable_actors.Ownership.Activation.{
  Activation, Env, Stored, Claim, OwnershipHint, attempt, usable_hint, Registered,
  finish_activation, register_unhinted, register_hinted, register_activation, conclude,
  changed_concurrently, once_checked,
}
use durable_actors.Ownership.Lawful.{IsLawful, attempt-IsLawful}

-- Where the record that a claim was put over came from: the hint, of a sealed record whose lease had
-- run out, or the object that was read, or none for an actor that is said to be new.
pub data Source (env : Env) (a : Activation) (now : ℕ) (hint : Option OwnershipHint)
    : Bool → Stored → Type 0 where
  hinted :
      (h : OwnershipHint)
      → hint ≡ some h
      → h.owner.sealed ≡ true
      → h.owner.lease.expires_at_ms ≤ now
      → Source env a now hint true (some (h.generation, h.owner))
  read : (current : Stored) → env.load ≡ ok current → Source env a now hint false current
  unread : a.new_actor ≡ true → Source env a now hint false none

-- A claim that was made, for the result and the release that the call ended in.
pub record Claimed (env : Env) (a : Activation) (now : ℕ) (hint : Option OwnershipHint)
    (owner : Ownership) (recovery : Result (Option LoadedSnapshot)) : Type 0 where
  pub with_hint : Bool
  pub current : Stored
  pub source : Source env a now hint with_hint current
  pub lawful : IsLawful env a with_hint current owner recovery

usable_hint-eq-some :
    (a : Activation) (now : ℕ) (hint : Option OwnershipHint) (h : OwnershipHint)
    → usable_hint a now hint ≡ some h
    → (hint ≡ some h) × (h.owner.sealed ≡ true) × (h.owner.lease.expires_at_ms ≤ now)
unfolding usable_hint
usable_hint-eq-some a now none h e = cc
usable_hint-eq-some a now (some given) h e = ground arith

finish_activation-eq-ok :
    (env : Env) (claim result : Claim)
    → (finish_activation env claim).result ≡ ok result
    → (result ≡ claim)
      × ((snapshot : Option LoadedSnapshot) × (claim.1 ≡ ok snapshot))
      × (env.start claim.0 ≡ ok tt)
unfolding finish_activation
finish_activation-eq-ok env (owner, ok snapshot) result h = ground arith
finish_activation-eq-ok env (owner, err e) result h = cc
finish_activation-eq-ok env (owner, out_of_fuel) result h = cc

module _ (env : Env) (a : Activation) (now : ℕ) (hint : Option OwnershipHint) where
  -- What is said of a successful end.
  abbrev pub Ends : Ownership → Result (Option LoadedSnapshot) → Type 0
  Ends owner recovery =
      Claimed env a now hint owner recovery
      × ((snapshot : Option LoadedSnapshot) × (recovery ≡ ok snapshot))
      × (env.start owner ≡ ok tt)

  conclude-Ends :
      (with_hint : Bool) (current : Stored) (otherwise : Registered) (owner : Ownership)
      (recovery : Result (Option LoadedSnapshot))
      → Source env a now hint with_hint current
      → ((conclude env (attempt env a with_hint current) otherwise).result ≡ ok (owner, recovery))
      → Ends owner recovery ⊎ (otherwise.result ≡ ok (owner, recovery))
  conclude-Ends with_hint current otherwise owner recovery source h =
      go (attempt env a with_hint current) refl h
    where
      go :
          (tried : Result (Option Claim))
          → attempt env a with_hint current ≡ tried
          → (conclude env tried otherwise).result ≡ ok (owner, recovery)
          → Ends owner recovery ⊎ (otherwise.result ≡ ok (owner, recovery))
      go (ok none) e h = inr h
      go (ok (some (claimed, found))) e h =
          let (same, recovered, started) =
            finish_activation-eq-ok env (claimed, found) (owner, recovery) h in
          let owner_eq : owner ≡ claimed = ap (λ c. c.0) same in
          let recovery_eq : recovery ≡ found = ap (λ c. c.1) same in
          inl (
            rw (owner_eq, recovery_eq)
              (
                record {
                  with_hint = with_hint;
                  current = current;
                  source = source;
                  lawful = attempt-IsLawful env a with_hint current claimed found e;
                },
                recovered,
                started,
              ))
      go (err m) e h = cc
      go out_of_fuel e h = cc

  register_unhinted-Ends :
      (read_first : Bool) (owner : Ownership) (recovery : Result (Option LoadedSnapshot))
      → (read_first ≡ false → a.new_actor ≡ true)
      → (register_unhinted env a read_first).result ≡ ok (owner, recovery)
      → Ends owner recovery
  unfolding register_unhinted
  register_unhinted-Ends false owner recovery new h =
      elim (conclude-Ends false none changed_concurrently owner recovery (unread (new refl)) h) [
        | inl ends ↦ ends
        | inr e ↦ cc
      ]
  register_unhinted-Ends true owner recovery new h = go env.load refl h
    where
      go :
          (loaded : Result Stored)
          → env.load ≡ loaded
          → (conclude env (loaded >>= attempt env a false) changed_concurrently).result
            ≡ ok (owner, recovery)
          → Ends owner recovery
      go (ok current) e h =
          elim (conclude-Ends false current changed_concurrently owner recovery (read current e)
            h) [ inl ends ↦ ends | inr e ↦ cc ]
      go (err m) e h = cc
      go out_of_fuel e h = cc

  register_hinted-Ends :
      (usable : Option OwnershipHint) (owner : Ownership)
      (recovery : Result (Option LoadedSnapshot))
      → usable_hint a now hint ≡ usable
      → (register_hinted env a usable).result ≡ ok (owner, recovery)
      → Ends owner recovery
  unfolding register_hinted
  register_hinted-Ends none owner recovery e h =
      register_unhinted-Ends _ owner recovery (λ f. ground arith) h
  register_hinted-Ends (some given) owner recovery e h =
      let (same, sealed, expired) = usable_hint-eq-some a now hint given e in
      elim (conclude-Ends true (some (given.generation, given.owner)) (register_unhinted env a true)
        owner recovery (hinted given same sealed expired) h) [
          | inl ends ↦ ends
          | inr h' ↦ register_unhinted-Ends true owner recovery (λ f. cc) h'
        ]

-- When `register_activation` succeeds with a record, the record was put by a compare-and-swap over the
-- record it names as its source: a hint that was sealed and whose lease had run out, what was read, or
-- none for a new actor. It follows that record lawfully, with the next epoch, over a lease of another
-- session that had run out; its own lease is the request's; a stream was started for it; and the state
-- was recovered: nothing for an actor without a record; of a record that was sealed, by `load_latest`
-- from its base alone; and of one that was not, by `load_latest` from its base and what was recovered of
-- the stream that its actor and epoch name. What was recovered is the base of the new record, if the
-- record before it was not sealed; else the base stays.
pub register_activation-Claimed :
    (env : Env) (a : Activation) (names_valid : Result (Unit {0})) (now : ℕ)
    (hint : Option OwnershipHint) (owner : Ownership) (recovery : Result (Option LoadedSnapshot))
    → (register_activation env a names_valid now hint).result ≡ ok (owner, recovery)
    → Claimed env a now hint owner recovery
      × ((snapshot : Option LoadedSnapshot) × (recovery ≡ ok snapshot))
      × (env.start owner ≡ ok tt)
unfolding register_activation
register_activation-Claimed env a names_valid now hint owner recovery h =
    go (names_valid >> validate_duration a.request) h
  where
    go :
        (checked : Result (Unit {0}))
        → (once_checked checked (register_hinted env a (usable_hint a now hint))).result
          ≡ ok (owner, recovery)
        → Ends env a now hint owner recovery
    go (ok u) h = register_hinted-Ends env a now hint _ owner recovery refl h
    go (err m) h = cc
    go out_of_fuel h = cc
