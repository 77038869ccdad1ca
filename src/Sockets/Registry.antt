-- ===== src/Sockets/Registry.antt =====
-- src/sockets/mod.rs: the registry of a gateway's connections. A connection's channel is a number, and an
-- operation gives what it sends beside the registry that it leaves.
use text.Mathlib.Text.{◌==◌ as str_eq}
use durable_actors.Prelude.{
  ℕ, ◌+◌, ◌-◌, ◌%◌, String, Bool, true, false, not, ◌&&◌, ◌||◌, List, [], ◌∷◌, Option, none, some,
  leb, if◌then◌else◌, length,
}
use durable_actors.Prelude.Words.{u64_mod}
use durable_actors.Prelude.Maps.{get, insert, remove, string_eq}
use durable_actors.Ownership.Types.{ActorKey, actor_eq}
use durable_actors.Sockets.{ActorSocketConnection}

abbrev pub default_max_connections : ℕ
default_max_connections = 32768

module _ (Value : Type 0) where
  pub record RegisteredSocket : Type 0 where
    pub connection : ActorSocketConnection Value
    pub outbound : ℕ
    pub is_open : Bool
    pub state_ready : Bool

  pub record RoomSockets : Type 0 where
    pub connections : List (String × RegisteredSocket)
    pub active : ℕ
    pub auto_response : Option (String × String)

  pub record SocketRegistry : Type 0 where
    pub max_connections : ℕ
    pub entries : List (ActorKey × RoomSockets)

-- `active -= 1` on a usize that wraps around.
abbrev pub decrement : ℕ → ℕ
decrement n = (n + u64_mod - 1) % u64_mod

-- `contains` of a list or a `HashSet`.
abbrev pub contains : String → List String → Bool
contains s [] = false
contains s (t ∷ strings) = str_eq t s || contains s strings

module _ {Value : Type 0} where
  abbrev pub new_room : RoomSockets Value
  new_room = record { connections = []; active = 0; auto_response = none }

  -- `entries.entry(actor).or_default()`
  abbrev pub or_default : Option (RoomSockets Value) → RoomSockets Value
  or_default none = new_room
  or_default (some room) = room

  abbrev pub put_room : ActorKey → RoomSockets Value → SocketRegistry Value → SocketRegistry Value
  put_room actor room r = record r { entries = insert actor room r.entries }

  abbrev pub new_socket : ActorSocketConnection Value → ℕ → RegisteredSocket Value
  new_socket connection outbound = record {
    connection = connection;
    outbound = outbound;
    is_open = false;
    state_ready = false;
  }

  -- `SocketRegistry::insert`
  unfoldable pub insert_socket :
      SocketRegistry Value
      → ActorKey
      → ActorSocketConnection Value
      → ℕ
      → Bool × SocketRegistry Value
  insert_socket r actor connection outbound =
      let room = or_default (get actor r.entries) in
      if leb r.max_connections (length room.connections) then (false, put_room actor room r) else (
        true,
        put_room actor
            (record room {
              connections = insert connection.id (new_socket connection outbound) room.connections;
            })
            r,
      )

  abbrev pub is_empty : RoomSockets Value → Bool
  is_empty room = elim room.connections [ [] ↦ true | c ∷ cs ↦ false ]

  abbrev pub has_auto_response : RoomSockets Value → Bool
  has_auto_response room = elim room.auto_response [ none ↦ false | some pair ↦ true ]

  -- `connections.remove(connection_id).map(..)`
  abbrev pub without : String → RegisteredSocket Value → RoomSockets Value → RoomSockets Value
  without id entry room = record room {
    connections = remove id room.connections;
    active = if entry.is_open then decrement room.active else room.active;
  }

  abbrev pub remove_entry :
      String → Option (RegisteredSocket Value) → RoomSockets Value → RoomSockets Value
  remove_entry id none room = room
  remove_entry id (some entry) room = without id entry room

  abbrev pub connection_of : Option (RegisteredSocket Value) → Option (ActorSocketConnection Value)
  connection_of none = none
  connection_of (some entry) = some entry.connection

  -- A room that holds nothing is dropped.
  unfoldable pub keep_room :
      ActorKey → RoomSockets Value → SocketRegistry Value → SocketRegistry Value
  keep_room actor room r =
      if is_empty room && not (has_auto_response room)
      then record r { entries = remove actor r.entries }
      else put_room actor room r

  -- `SocketRegistry::remove`
  unfoldable pub remove_socket :
      SocketRegistry Value
      → ActorKey
      → String
      → Option (ActorSocketConnection Value) × SocketRegistry Value
  remove_socket r actor id = elim (get actor r.entries) [
    | none ↦ (none, r)
    | some room ↦ (
      connection_of (get id room.connections),
      keep_room actor (remove_entry id (get id room.connections) room) r,
    )
  ]

  abbrev pub opened_entry : RegisteredSocket Value → RegisteredSocket Value
  opened_entry entry = record entry { is_open = true }

  abbrev pub open_entry :
      String → Option (RegisteredSocket Value) → RoomSockets Value → RoomSockets Value
  open_entry id none room = room
  open_entry id (some entry) room = if entry.is_open then room else record room {
    connections = insert id (opened_entry entry) room.connections;
    active = room.active + 1;
  }

  -- `SocketRegistry::activate`
  unfoldable pub activate : SocketRegistry Value → ActorKey → String → SocketRegistry Value
  activate r actor id = elim (get actor r.entries) [
    | none ↦ r
    | some room ↦ put_room actor (open_entry id (get id room.connections) room) r
  ]

  abbrev pub matches_tag : Option String → RegisteredSocket Value → Bool
  matches_tag none entry = true
  matches_tag (some tag) entry = contains tag entry.connection.tags

  abbrev pub open_with_tag :
      Option String → List (String × RegisteredSocket Value) → List (ActorSocketConnection Value)
  open_with_tag tag [] = []
  open_with_tag tag ((id, entry) ∷ connections) =
      let rest = open_with_tag tag connections in
      if entry.is_open && matches_tag tag entry then entry.connection ∷ rest else rest

  -- `SocketRegistry::connections_with_tag`
  unfoldable pub connections_with_tag :
      SocketRegistry Value → ActorKey → Option String → List (ActorSocketConnection Value)
  connections_with_tag r actor tag = elim (get actor r.entries) [
    | none ↦ []
    | some room ↦ open_with_tag tag room.connections
  ]

  -- `SocketRegistry::count`
  unfoldable pub count : SocketRegistry Value → ActorKey → ℕ
  count r actor = elim (get actor r.entries) [ none ↦ 0 | some room ↦ room.active ]
