-- ===== src/Sockets/Effects.antt =====
-- src/sockets/mod.rs: what an actor does to its connections, and what a gateway sends for it.
use text.Mathlib.Text.{◌==◌ as str_eq}
use durable_actors.Prelude.{
  ℕ, String, Bool, true, false, not, ◌&&◌, ◌||◌, List, [], ◌∷◌, ◌++◌, Option, none, some,
  if◌then◌else◌,
}
use durable_actors.Prelude.Maps.{get, insert, string_eq}
use durable_actors.Ownership.Types.{ActorKey, actor_eq}
use durable_actors.Sockets.{
  ActorSocketTagMatch, all, any, ActorSocketConnection, ActorSocketEvent, connect, message,
  disconnect, ActorSocketEffect, set_auto_response, state_snapshot, state_update, broadcast,
  set_metadata, set_tags, send, close, reject, Control, OutboundMessage,
}
use durable_actors.Sockets.Registry.{
  RegisteredSocket, RoomSockets, SocketRegistry, or_default, put_room, keep_room, remove_socket,
  contains, connection_of,
}

-- `request.zip(response)`
abbrev pub zip : Option String → Option String → Option (String × String)
zip none response = none
zip (some request) none = none
zip (some request) (some response) = some (request, response)

abbrev pub has_any : List String → List String → Bool
has_any [] tags = false
has_any (tag ∷ wanted) tags = contains tag tags || has_any wanted tags

abbrev pub has_all : List String → List String → Bool
has_all [] tags = true
has_all (tag ∷ wanted) tags = contains tag tags && has_all wanted tags

abbrev pub matches : ActorSocketTagMatch → List String → List String → Bool
matches all wanted tags = has_all wanted tags
matches any wanted tags = has_any wanted tags

abbrev pub no_tags : List String → Bool
no_tags [] = true
no_tags (tag ∷ tags) = false

abbrev pub response_to : String → Option (String × String) → Option String
response_to m none = none
response_to m (some (request, response)) = if str_eq request m then some response else none

-- What is sent, to which channel.
abbrev pub Sends : Type 0 → Type 0
Sends Value = List (ℕ × OutboundMessage Value)

module _ {Value : Type 0} where
  abbrev pub set_entry :
      String
      → (RegisteredSocket Value → RegisteredSocket Value)
      → Option (RegisteredSocket Value)
      → RoomSockets Value
      → RoomSockets Value
  set_entry id f none room = room
  set_entry id f (some entry) room = record room {
    connections = insert id (f entry) room.connections;
  }

  -- A write through `get_mut(actor)` and `get_mut(&connection_id)`.
  unfoldable pub update_entry :
      SocketRegistry Value
      → ActorKey
      → String
      → (RegisteredSocket Value → RegisteredSocket Value)
      → SocketRegistry Value
  update_entry r actor id f = elim (get actor r.entries) [
    | none ↦ r
    | some room ↦ put_room actor (set_entry id f (get id room.connections) room) r
  ]

  abbrev pub entry_of : Option (RoomSockets Value) → String → Option (RegisteredSocket Value)
  entry_of none id = none
  entry_of (some room) id = get id room.connections

  -- `SocketRegistry::sender`, and a send to what it gives.
  abbrev pub send_to : Option (RegisteredSocket Value) → OutboundMessage Value → Sends Value
  send_to none m = []
  send_to (some entry) m = (entry.outbound, m) ∷ []

  abbrev pub send_one :
      SocketRegistry Value → ActorKey → String → OutboundMessage Value → Sends Value
  send_one r actor id m = send_to (entry_of (get actor r.entries) id) m

  abbrev pub send_where :
      (RegisteredSocket Value → Bool)
      → OutboundMessage Value
      → List (String × RegisteredSocket Value)
      → Sends Value
  send_where test m [] = []
  send_where test m ((id, entry) ∷ connections) =
      let rest = send_where test m connections in
      if test entry then (entry.outbound, m) ∷ rest else rest

  abbrev pub send_room :
      (RegisteredSocket Value → Bool)
      → OutboundMessage Value
      → Option (RoomSockets Value)
      → Sends Value
  send_room test m none = []
  send_room test m (some room) = send_where test m room.connections

  -- The filter of `Broadcast`.
  unfoldable pub is_recipient :
      List String → List String → ActorSocketTagMatch → RegisteredSocket Value → Bool
  is_recipient except_connection_ids tags tag_match entry =
      entry.is_open
      && not (contains entry.connection.id except_connection_ids)
      && (no_tags tags || matches tag_match tags entry.connection.tags)

  -- The filter of `StateUpdate`.
  unfoldable pub follows_state : List String → RegisteredSocket Value → Bool
  follows_state except_connection_ids entry =
      entry.state_ready && not (contains entry.connection.id except_connection_ids)

  unfoldable pub set_auto_response_of :
      SocketRegistry Value → ActorKey → Option (String × String) → SocketRegistry Value
  set_auto_response_of r actor none = elim (get actor r.entries) [
    | none ↦ r
    | some room ↦ keep_room actor (record room { auto_response = none }) r
  ]
  set_auto_response_of r actor (some pair) =
      put_room actor (record (or_default (get actor r.entries)) { auto_response = some pair }) r

  abbrev pub with_state : RegisteredSocket Value → RegisteredSocket Value
  with_state entry = record entry { state_ready = true }

  abbrev pub with_metadata : Value → RegisteredSocket Value → RegisteredSocket Value
  with_metadata metadata entry = record entry {
    connection = record entry.connection { metadata = metadata };
  }

  abbrev pub with_tags : List String → RegisteredSocket Value → RegisteredSocket Value
  with_tags tags entry = record entry { connection = record entry.connection { tags = tags } }

  -- `SocketRegistry::apply_one`
  unfoldable pub apply_one :
      SocketRegistry Value → ActorKey → ActorSocketEffect Value → SocketRegistry Value × Sends Value
  apply_one r actor (set_auto_response request response) =
      (set_auto_response_of r actor (zip request response), [])
  apply_one r actor (state_snapshot id value none) = (r, [])
  apply_one r actor (state_snapshot id value (some version)) = (
    update_entry r actor id with_state,
    send_one r actor id (OutboundMessage.control (Control.state value version)),
  )
  apply_one r actor (state_update changes removed except_connection_ids none) = (r, [])
  apply_one r actor (state_update changes removed except_connection_ids (some version)) = (
    r,
    send_room (follows_state except_connection_ids)
        (OutboundMessage.control (Control.state_update changes removed version))
        (get actor r.entries),
  )
  apply_one r actor (broadcast m except_connection_ids tags tag_match) = (
    r,
    send_room (is_recipient except_connection_ids tags tag_match) (OutboundMessage.message m)
        (get actor r.entries),
  )
  apply_one r actor (set_metadata id metadata) =
      (update_entry r actor id (with_metadata metadata), [])
  apply_one r actor (set_tags id tags) = (update_entry r actor id (with_tags tags), [])
  apply_one r actor (send id m) = (r, send_one r actor id (OutboundMessage.message m))
  apply_one r actor (close id code reason) =
      (r, send_one r actor id (OutboundMessage.close code reason))
  apply_one r actor (reject id code reason) =
      (r, send_one r actor id (OutboundMessage.close code reason))

  -- `SocketRegistry::apply`
  unfoldable pub apply :
      SocketRegistry Value
      → ActorKey
      → List (ActorSocketEffect Value)
      → SocketRegistry Value × Sends Value
  apply r actor [] = (r, [])
  apply r actor (effect ∷ effects) =
      let (r', sends) = apply_one r actor effect in
      let (r'', rest) = apply r' actor effects in (r'', sends ++ rest)

  abbrev pub or_else :
      Option (ActorSocketConnection Value)
      → ActorSocketConnection Value
      → ActorSocketConnection Value
  or_else none connection = connection
  or_else (some c) connection = c

  abbrev pub to_list : Option (ActorSocketConnection Value) → List (ActorSocketConnection Value)
  to_list none = []
  to_list (some c) = c ∷ []

  -- `SocketRegistry::prepare_event`
  unfoldable pub prepare_event :
      SocketRegistry Value
      → ActorKey
      → ActorSocketEvent Value
      → (ActorSocketEvent Value × List (ActorSocketConnection Value)) × SocketRegistry Value
  prepare_event r actor (connect connection) = ((connect connection, connection ∷ []), r)
  prepare_event r actor (message id m) =
      ((message id m, to_list (connection_of (entry_of (get actor r.entries) id))), r)
  prepare_event r actor (disconnect connection code reason was_clean) =
      let (removed, r') = remove_socket r actor connection.id in
      ((disconnect (or_else removed connection) code reason was_clean, []), r')

  -- `SocketRegistry::auto_response`
  abbrev pub auto_response_of : Option (RoomSockets Value) → String → Option String
  auto_response_of none m = none
  auto_response_of (some room) m = response_to m room.auto_response

  -- `SocketRegistry::close_project` sends to the rooms of a project.
  unfoldable pub close_project :
      List (ActorKey × RoomSockets Value) → String → ℕ → String → Sends Value
  close_project [] project code reason = []
  close_project ((actor, room) ∷ entries) project code reason =
      let rest = close_project entries project code reason in
      if str_eq actor.project_id project
      then send_where (λ entry. true) (OutboundMessage.close code reason) room.connections ++ rest
      else rest
