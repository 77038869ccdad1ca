-- ===== src/Sockets/Dispatch.antt =====
-- That effects are applied or published as a whole or not at all: src/host/sockets.rs and
-- src/sockets/browser.rs with src/control_plane/socket_gateway.rs.
use mathlib.Core.List.{Memᴰ}
use durable_actors.Prelude.{
  ◌≡◌, ◌≢◌, String, Option, none, some, true, refl, false, List, [], ◌∷◌, All, Result, ok, err,
  out_of_fuel, arith, >>=-eq-ok,
}
use durable_actors.Ownership.Types.{ActorKey}
use durable_actors.Sockets.{ActorSocketConnection, ActorSocketEvent, connect, ActorSocketEffect}
use durable_actors.Sockets.Registry.{SocketRegistry, activate}
use durable_actors.Sockets.Effects.{Sends, apply, prepare_event}
use durable_actors.Sockets.Validation.{Formats, validate_socket_effect, validate_socket_effects}
use durable_actors.Sockets.Operations.{
  execute, publish_checked, host_publish, Handler, Dispatch, rejects,
}

module _ {Value : Type 0} (formats : Formats Value) where
  abbrev pub AllValid : List (ActorSocketEffect Value) → Type 0
  AllValid effects = All (λ effect. validate_socket_effect formats effect ≡ ok tt) effects

  validate_socket_effects-AllValid :
      (effects : List (ActorSocketEffect Value)) {u : Unit {0}}
      → validate_socket_effects formats effects ≡ ok u
      → AllValid effects
  unfolding validate_socket_effects
  validate_socket_effects-AllValid [] h = tt
  validate_socket_effects-AllValid (effect ∷ effects) h =
      let (u, e, rest) = >>=-eq-ok (validate_socket_effect formats effect) _ h in
      (ground arith, validate_socket_effects-AllValid effects rest)

  -- Nothing happened, or all of the effects did.
  pub data Published (authority : Result (Unit {0})) (r : SocketRegistry Value) (actor : ActorKey)
      (effects : List (ActorSocketEffect Value))
      : Result (Unit {0}) × SocketRegistry Value × Sends Value → Type 0 where
    refused :
        (result : Result (Unit {0}))
        → result ≢ ok tt
        → Published authority r actor effects (result, r, [])
    applied :
        authority ≡ ok tt
        → AllValid effects
        → Published authority r actor effects
            (ok tt, (apply r actor effects).0, (apply r actor effects).1)

  publish_checked-Published :
      (authority : Result (Unit {0})) (r : SocketRegistry Value) (actor : ActorKey)
      (effects : List (ActorSocketEffect Value))
      → authority ≡ ok tt
      → validate_socket_effects formats effects ≡ ok tt
      → Published authority r actor effects (publish_checked formats (ok tt) r actor effects)
  unfolding execute apply
  publish_checked-Published authority r actor [] a v = applied a tt
  publish_checked-Published authority r actor (effect ∷ effects) a v =
      rw v (applied a (validate_socket_effects-AllValid (effect ∷ effects) v))

  -- An actor's effects are applied, all of them and in order, only if its host has authority and every
  -- effect is valid; else the publication fails, the registry is as it was and nothing is sent.
  pub host_publish-Published :
      (authority : Result (Unit {0})) (r : SocketRegistry Value) (actor : ActorKey)
      (effects : List (ActorSocketEffect Value))
      → Published authority r actor effects (host_publish formats authority r actor effects)
  unfolding host_publish
  host_publish-Published (err e) r actor effects = refused (err e) (λ p. cc)
  host_publish-Published out_of_fuel r actor effects = refused out_of_fuel (λ p. cc)
  host_publish-Published (ok u) r actor effects = go (validate_socket_effects formats effects) refl
    where
      go :
          (v : Result (Unit {0}))
          → validate_socket_effects formats effects ≡ v
          → Published (ok u) r actor effects (publish_checked formats v r actor effects)
      go (err e) h = refused (err e) (λ p. cc)
      go out_of_fuel h = refused out_of_fuel (λ p. cc)
      go (ok u) h = publish_checked-Published (ok tt) r actor effects refl h

  -- The effect closes or rejects the connection.
  abbrev pub Rejects : String → ActorSocketEffect Value → Type 0
  Rejects id effect = rejects formats id effect ≡ true

  -- The registry once the handler of an event has answered: a connection that begins is opened, unless an
  -- effect rejects it.
  pub data Opened (r : SocketRegistry Value) (actor : ActorKey)
      (effects : List (ActorSocketEffect Value))
      : ActorSocketEvent Value → SocketRegistry Value → Type 0 where
    opened :
        (connection : ActorSocketConnection Value)
        → ((effect : ActorSocketEffect Value)
            → Memᴰ effect effects
            → Rejects connection.id effect
            → ⊥)
        → Opened r actor effects (connect connection) (activate r actor connection.id)
    rejected :
        (connection : ActorSocketConnection Value) (effect : ActorSocketEffect Value)
        → Memᴰ effect effects
        → Rejects connection.id effect
        → Opened r actor effects (connect connection) r
    open_before :
        (event : ActorSocketEvent Value)
        → ((connection : ActorSocketConnection Value) → event ≢ connect connection)
        → Opened r actor effects event r

  -- All of the effects are published together, if there are any.
  pub data Publishes
      : List (ActorSocketEffect Value) → Option (List (ActorSocketEffect Value)) → Type 0 where
    nothing : Publishes [] none
    together :
        (effect : ActorSocketEffect Value) (effects : List (ActorSocketEffect Value))
        → Publishes (effect ∷ effects) (some (effect ∷ effects))

  -- The event was refused before or after it was prepared, or the handler's effects go to the bus.
  pub data Dispatched (h : Handler formats) (r : SocketRegistry Value) (actor : ActorKey)
      (event : ActorSocketEvent Value) : Dispatch formats → Type 0 where
    not_allowed :
        (result : Result (Unit {0}))
        → result ≢ ok tt
        → (h.is_stopping ≡ false → h.authority_before ≡ ok tt → ⊥)
        → Dispatched h r actor event (result, r, none, none)
    failed :
        (result : Result (Unit {0}))
        → result ≢ ok tt
        → ((effects : List (ActorSocketEffect Value))
            → h.answer (prepare_event r actor event).0.0 (prepare_event r actor event).0.1
              ≡ ok effects
            → h.authority_after ≡ ok tt
            → AllValid effects
            → ⊥)
        → Dispatched h r actor event (result, (prepare_event r actor event).1, none, none)
    handled :
        (effects : List (ActorSocketEffect Value)) (r' : SocketRegistry Value)
        (publication : Option (List (ActorSocketEffect Value)))
        → h.is_stopping ≡ false
        → h.authority_before ≡ ok tt
        → h.answer (prepare_event r actor event).0.0 (prepare_event r actor event).0.1 ≡ ok effects
        → h.authority_after ≡ ok tt
        → AllValid effects
        → Opened (prepare_event r actor event).1 actor effects (prepare_event r actor event).0.0 r'
        → Publishes effects publication
        → Dispatched h r actor event
            (ok tt, r', publication, some (prepare_event r actor event).0.0)
