-- ===== src/Sockets/Operations.antt =====
-- src/sockets/operations.rs, src/host/sockets.rs, `dispatch` of src/sockets/browser.rs and `deliver` of
-- src/control_plane/socket_gateway.rs: how effects come to a registry or to the bus. Whether the caller still has authority is an argument.
use durable_actors.Prelude.{
  ℕ, String, Bool, true, false, not, ◌||◌, List, [], ◌∷◌, Option, none, some, if◌then◌else◌, Result,
  ok, err, out_of_fuel, ◌>>=◌, ◌>>◌, ensure,
}
use durable_actors.Prelude.Maps.{string_eq}
use durable_actors.Ownership.Types.{ActorKey}
use text.Mathlib.Text.{◌==◌ as str_eq}
use durable_actors.Sockets.{
  ActorSocketConnection, ActorSocketEvent, connect, message, disconnect, ActorSocketEffect, close,
  reject,
}
use durable_actors.Sockets.Registry.{SocketRegistry, activate, connections_with_tag, count}
use durable_actors.Sockets.Effects.{Sends, apply, prepare_event}
use durable_actors.Sockets.Validation.{Formats, validate_socket_effects}

module _ (Value : Type 0) where
  pub data SocketOperation : Type 0 where
    publish : List (ActorSocketEffect Value) → SocketOperation
    connections : Option String → SocketOperation
    count_open : SocketOperation

  pub data SocketOperationReply : Type 0 where
    published : SocketOperationReply
    connections : List (ActorSocketConnection Value) → SocketOperationReply
    count_open : ℕ → SocketOperationReply

  pub data SocketLookup : Type 0 where
    connections : List (ActorSocketConnection Value) → SocketLookup
    count_open : ℕ → SocketLookup

pub record SocketQuery : Type 0 where
  pub tag : Option String
  pub count_only : Bool

module _ {Value : Type 0} (formats : Formats Value) where
  -- A result, with the registry and the messages that it leaves.
  abbrev pub Done : Type 0 → Type 0
  Done A = Result A × SocketRegistry Value × Sends Value

  abbrev pub finish_publish :
      Result (Unit {0})
      → SocketRegistry Value
      → ActorKey
      → List (ActorSocketEffect Value)
      → Done (SocketOperationReply Value)
  finish_publish (ok u) r actor effects =
      let (r', sends) = apply r actor effects in (ok published, r', sends)
  finish_publish (err e) r actor effects = (err e, r, [])
  finish_publish out_of_fuel r actor effects = (out_of_fuel, r, [])

  -- `SocketRegistry::execute`
  unfoldable pub execute :
      SocketRegistry Value → ActorKey → SocketOperation Value → Done (SocketOperationReply Value)
  execute r actor (publish effects) =
      finish_publish (validate_socket_effects formats effects) r actor effects
  execute r actor (SocketOperation.connections tag) =
      (ok (SocketOperationReply.connections (connections_with_tag r actor tag)), r, [])
  execute r actor SocketOperation.count_open =
      (ok (SocketOperationReply.count_open (count r actor)), r, [])

  abbrev pub no_effects : List (ActorSocketEffect Value) → Bool
  no_effects [] = true
  no_effects (effect ∷ effects) = false

  -- The `?` after `execute`, in a function that gives nothing.
  abbrev pub forget_reply : Done (SocketOperationReply Value) → Done (Unit {0})
  forget_reply (ok reply, r, sends) = (ok tt, r, sends)
  forget_reply (err e, r, sends) = (err e, r, sends)
  forget_reply (out_of_fuel, r, sends) = (out_of_fuel, r, sends)

  abbrev pub publish_checked :
      Result (Unit {0})
      → SocketRegistry Value
      → ActorKey
      → List (ActorSocketEffect Value)
      → Done (Unit {0})
  publish_checked (ok u) r actor effects =
      if no_effects effects
      then (ok tt, r, [])
      else forget_reply (execute r actor (publish effects))
  publish_checked (err e) r actor effects = (err e, r, [])
  publish_checked out_of_fuel r actor effects = (out_of_fuel, r, [])

  -- `HostSockets::publish`, to a gateway that is this registry.
  unfoldable pub host_publish :
      Result (Unit {0})
      → SocketRegistry Value
      → ActorKey
      → List (ActorSocketEffect Value)
      → Done (Unit {0})
  host_publish authority r actor effects =
      publish_checked (authority >> validate_socket_effects formats effects) r actor effects

  abbrev pub lookup_reply : Result (SocketOperationReply Value) → Result (SocketLookup Value)
  lookup_reply (ok published) = err "unexpected connection lookup reply"
  lookup_reply (ok (SocketOperationReply.connections cs)) = ok (SocketLookup.connections cs)
  lookup_reply (ok (SocketOperationReply.count_open n)) = ok (SocketLookup.count_open n)
  lookup_reply (err e) = err e
  lookup_reply out_of_fuel = out_of_fuel

  -- `HostSockets::query`
  unfoldable pub host_query :
      Result (Unit {0})
      → SocketRegistry Value
      → ActorKey
      → SocketQuery
      → Result (SocketLookup Value)
  host_query authority r actor query = do
    authority
    lookup_reply
        (execute r actor (
          if query.count_only
          then SocketOperation.count_open
          else SocketOperation.connections query.tag)).0

  abbrev pub rejects : String → ActorSocketEffect Value → Bool
  rejects id (close connection_id code reason) = str_eq connection_id id
  rejects id (reject connection_id code reason) = str_eq connection_id id
  rejects id effect = false

  abbrev pub is_rejected : String → List (ActorSocketEffect Value) → Bool
  is_rejected id [] = false
  is_rejected id (effect ∷ effects) = rejects id effect || is_rejected id effects

  unfoldable pub activate_connected :
      SocketRegistry Value
      → ActorKey
      → ActorSocketEvent Value
      → List (ActorSocketEffect Value)
      → SocketRegistry Value
  activate_connected r actor (connect connection) effects =
      if is_rejected connection.id effects then r else activate r actor connection.id
  activate_connected r actor (message id m) effects = r
  activate_connected r actor (disconnect connection code reason was_clean) effects = r

  -- What an invocation needs of its surroundings: whether the gateway is stopping, its authority before
  -- and after the actor's handler, and the handler's answer.
  pub record Handler : Type 0 where
    pub is_stopping : Bool
    pub authority_before : Result (Unit {0})
    pub answer :
        ActorSocketEvent Value
        → List (ActorSocketConnection Value)
        → Result (List (ActorSocketEffect Value))
    pub authority_after : Result (Unit {0})

  -- The effects of the handler, if all its checks pass.
  unfoldable pub checked_answer :
      Handler
      → ActorSocketEvent Value
      → List (ActorSocketConnection Value)
      → Result (List (ActorSocketEffect Value))
  checked_answer h event cs = do
    effects ← h.answer event cs
    h.authority_after
    validate_socket_effects formats effects
    ok effects

  -- The publication on the bus that the gateway's `deliver` spawns: of all the effects, if there are any. It
  -- runs on its own, and its failure is only logged.
  abbrev pub deliver : List (ActorSocketEffect Value) → Option (List (ActorSocketEffect Value))
  deliver effects = if no_effects effects then none else some effects

  -- What a dispatch leaves: its result, the registry, the publication that it spawned, and the event of
  -- which it notified the service.
  abbrev pub Dispatch : Type 0
  Dispatch =
      Result (Unit {0})
      × SocketRegistry Value
      × Option (List (ActorSocketEffect Value))
      × Option (ActorSocketEvent Value)

  abbrev pub deliver_effects :
      Result (List (ActorSocketEffect Value))
      → SocketRegistry Value
      → ActorKey
      → ActorSocketEvent Value
      → Dispatch
  deliver_effects (ok effects) r actor event =
      (ok tt, activate_connected r actor event effects, deliver effects, some event)
  deliver_effects (err e) r actor event = (err e, r, none, none)
  deliver_effects out_of_fuel r actor event = (out_of_fuel, r, none, none)

  abbrev pub may_dispatch : Handler → Result (Unit {0})
  may_dispatch h = do ensure (not h.is_stopping) "socket gateway stopping"; h.authority_before

  abbrev pub dispatch_allowed :
      Result (Unit {0})
      → Handler
      → SocketRegistry Value
      → ActorKey
      → ActorSocketEvent Value
      → Dispatch
  dispatch_allowed (ok u) h r actor event =
      let ((event', cs), r') = prepare_event r actor event in
      deliver_effects (checked_answer h event' cs) r' actor event'
  dispatch_allowed (err e) h r actor event = (err e, r, none, none)
  dispatch_allowed out_of_fuel h r actor event = (out_of_fuel, r, none, none)

  -- `dispatch`, with the gateway as the dispatcher
  unfoldable pub dispatch :
      Handler → SocketRegistry Value → ActorKey → ActorSocketEvent Value → Dispatch
  dispatch h r actor event = dispatch_allowed (may_dispatch h) h r actor event
