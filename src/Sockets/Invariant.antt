-- ===== src/Sockets/Invariant.antt =====
-- That a registry's counts are right and its rooms in use: src/sockets/mod.rs.
use durable_actors.Prelude.{
  ℕ, ◌+◌, ◌<◌, ◌≤◌, ◌≡◌, refl, sym, ◌∙◌, inl, inr, String, Bool, false, not, ◌&&◌, Option, none,
  some, leb, length, All, arith, Bool-cases, Option-cases,
}
use durable_actors.Prelude.Words.{u64_mod}
use durable_actors.Prelude.Maps.{
  get, insert, string_eq, Unique, insert-Unique, remove-Unique, count_by, count_by-le-length,
  count_by-insert_new, count_by-insert_old, count_by-remove, length-insert_new, length-insert_old,
  length-insert_pos, length-remove, All-get, All-insert, All-remove,
}
use durable_actors.Ownership.Types.{ActorKey, actor_eq}
use durable_actors.Sockets.{ActorSocketConnection}
use durable_actors.Sockets.Registry.{
  RegisteredSocket, RoomSockets, SocketRegistry, default_max_connections, or_default, put_room,
  new_socket, insert_socket, is_empty, has_auto_response, without, remove_entry, keep_room,
  remove_socket, opened_entry, open_entry, activate,
}

module _ {Value : Type 0} where
  abbrev pub opens : RegisteredSocket Value → Bool
  opens entry = entry.is_open

  abbrev pub Keyed : String × RegisteredSocket Value → Type 0
  Keyed e = e.0 ≡ e.1.connection.id

  pub record Fits (max : ℕ) (room : RoomSockets Value) : Type 0 where
    pub unique : Unique room.connections
    pub keyed : All Keyed room.connections
    pub counted : room.active ≡ count_by opens room.connections
    pub within : length room.connections ≤ max

  abbrev pub Occupied : RoomSockets Value → Type 0
  Occupied room = (is_empty room && not (has_auto_response room)) ≡ false

  abbrev pub RoomFits : ℕ → ActorKey × RoomSockets Value → Type 0
  RoomFits max e = Fits max e.1 × Occupied e.1

  pub record WellFormed (r : SocketRegistry Value) : Type 0 where
    pub unique : Unique r.entries
    pub rooms : All (RoomFits r.max_connections) r.entries
    pub some_fit : 0 < r.max_connections
    pub few_fit : r.max_connections ≤ default_max_connections

  pub room_Fits :
      (r : SocketRegistry Value) (actor : ActorKey) (room : RoomSockets Value)
      → WellFormed r
      → get actor r.entries ≡ some room
      → Fits r.max_connections room × Occupied room
  room_Fits r actor room w e = All-get (RoomFits r.max_connections) actor room r.entries w.rooms e

  pub put_room-WellFormed :
      (r : SocketRegistry Value) (actor : ActorKey) (room : RoomSockets Value)
      → WellFormed r
      → Fits r.max_connections room
      → Occupied room
      → WellFormed (put_room actor room r)
  put_room-WellFormed r actor room w fits occupied = record {
    unique = insert-Unique actor room r.entries w.unique;
    rooms = All-insert (RoomFits r.max_connections) actor room r.entries (fits, occupied) w.rooms;
    some_fit = w.some_fit;
    few_fit = w.few_fit;
  }

  pub keep_room-WellFormed :
      (r : SocketRegistry Value) (actor : ActorKey) (room : RoomSockets Value)
      → WellFormed r
      → Fits r.max_connections room
      → WellFormed (keep_room actor room r)
  unfolding keep_room
  keep_room-WellFormed r actor room w fits =
      elim (Bool-cases (is_empty room && not (has_auto_response room))) [
        | inl e ↦
            rw (e, keep_room)
              (record {
                unique = remove-Unique actor r.entries w.unique;
                rooms = All-remove (RoomFits r.max_connections) actor r.entries w.rooms;
                some_fit = w.some_fit;
                few_fit = w.few_fit;
              })
        | inr e ↦ rw (e, keep_room) (put_room-WellFormed r actor room w fits e)
      ]

  pub or_default-Fits :
      (r : SocketRegistry Value) (actor : ActorKey)
      → WellFormed r
      → Fits r.max_connections (or_default (get actor r.entries))
  or_default-Fits r actor w = elim (Option-cases (get actor r.entries)) [
    | inl e ↦ rw e (record { unique = tt; keyed = tt; counted = refl; within = omega arith })
    | inr (room, e) ↦ rw e (room_Fits r actor room w e).0
  ]

  pub nonempty-Occupied : (room : RoomSockets Value) → 0 < length room.connections → Occupied room
  nonempty-Occupied room h = ground arith

  add-Fits :
      (max : ℕ) (room : RoomSockets Value) (connection : ActorSocketConnection Value) (outbound : ℕ)
      → length room.connections < max
      → get connection.id room.connections ≡ none
      → Fits max room
      → Fits max (record room {
        connections = insert connection.id (new_socket connection outbound) room.connections;
      })
  add-Fits max room connection outbound below fresh fits =
      let socket = new_socket connection outbound in
      record {
        unique = insert-Unique connection.id socket room.connections fits.unique;
        keyed = All-insert Keyed connection.id socket room.connections refl fits.keyed;
        counted = omega (
          arith,
          count_by-insert_new opens connection.id socket room.connections fresh,
          fits.counted,
        );
        within = omega (arith, length-insert_new connection.id socket room.connections fresh);
      }

  pub set-Fits :
      (max : ℕ) (room : RoomSockets Value) (id : String) (entry entry' : RegisteredSocket Value)
      → get id room.connections ≡ some entry
      → entry'.is_open ≡ entry.is_open
      → entry'.connection.id ≡ entry.connection.id
      → Fits max room
      → Fits max (record room { connections = insert id entry' room.connections })
  set-Fits max room id entry entry' found same same_id fits =
      let key : id ≡ entry.connection.id =
        All-get Keyed id entry room.connections fits.keyed found in
      record {
        unique = insert-Unique id entry' room.connections fits.unique;
        keyed = All-insert Keyed id entry' room.connections (key ∙ sym same_id) fits.keyed;
        counted = ground (arith, count_by-insert_old opens id entry' entry room.connections found);
        within =
            omega (arith, length-insert_old id entry' entry room.connections found, fits.within);
      }

  open-Fits :
      (max : ℕ) (room : RoomSockets Value) (id : String) (entry : RegisteredSocket Value)
      → get id room.connections ≡ some entry
      → entry.is_open ≡ false
      → Fits max room
      → Fits max (record room {
        connections = insert id (opened_entry entry) room.connections;
        active = room.active + 1;
      })
  open-Fits max room id entry found shut fits = record {
    unique = insert-Unique id (opened_entry entry) room.connections fits.unique;
    keyed =
        All-insert Keyed id (opened_entry entry) room.connections
          (All-get Keyed id entry room.connections fits.keyed found) fits.keyed;
    counted =
        ground
          (arith, count_by-insert_old opens id (opened_entry entry) entry room.connections found);
    within = omega (
      arith,
      length-insert_old id (opened_entry entry) entry room.connections found,
      fits.within,
    );
  }

  without-Fits :
      (max : ℕ) (room : RoomSockets Value) (id : String) (entry : RegisteredSocket Value)
      → max < u64_mod
      → get id room.connections ≡ some entry
      → Fits max room
      → Fits max (without id entry room)
  without-Fits max room id entry small found fits = record {
    unique = remove-Unique id room.connections fits.unique;
    keyed = All-remove Keyed id room.connections fits.keyed;
    counted = ground (
      arith,
      count_by-remove opens id entry room.connections fits.unique found,
      count_by-le-length opens room.connections,
    );
    within = omega (arith, length-remove id room.connections, fits.within);
  }

  pub insert_socket-WellFormed :
      (r : SocketRegistry Value) (actor : ActorKey) (connection : ActorSocketConnection Value)
      (outbound : ℕ)
      → get connection.id (or_default (get actor r.entries)).connections ≡ none
      → WellFormed r
      → WellFormed (insert_socket r actor connection outbound).1
  unfolding insert_socket
  insert_socket-WellFormed r actor connection outbound fresh w =
      let room = or_default (get actor r.entries) in
      let fits = or_default-Fits r actor w in
      elim (Bool-cases (leb r.max_connections (length room.connections))) [
        | inl full ↦ rw full (
            put_room-WellFormed r actor room w fits
              (nonempty-Occupied room (ground (arith, w.some_fit))))
        | inr free ↦
            let socket = new_socket connection outbound in
            let room' : RoomSockets Value = record room {
              connections = insert connection.id socket room.connections;
            } in
            rw free (
              put_room-WellFormed r actor room' w
                (add-Fits r.max_connections room connection outbound (ground arith) fresh fits)
                (nonempty-Occupied room' (length-insert_pos connection.id socket room.connections)))
      ]

  remove_entry-Fits :
      (max : ℕ) (room : RoomSockets Value) (id : String) (o : Option (RegisteredSocket Value))
      → max < u64_mod
      → get id room.connections ≡ o
      → Fits max room
      → Fits max (remove_entry id o room)
  remove_entry-Fits max room id none small e fits = fits
  remove_entry-Fits max room id (some entry) small e fits =
      without-Fits max room id entry small e fits

  pub remove_socket-WellFormed :
      (r : SocketRegistry Value) (actor : ActorKey) (id : String)
      → WellFormed r
      → WellFormed (remove_socket r actor id).1
  unfolding remove_socket
  remove_socket-WellFormed r actor id w = elim (Option-cases (get actor r.entries)) [
    | inl e ↦ rw (e, remove_socket) w
    | inr (room, e) ↦
        rw (e, remove_socket)
          (keep_room-WellFormed r actor _ w (
            remove_entry-Fits r.max_connections room id (get id room.connections)
              (omega (arith, w.few_fit)) refl (room_Fits r actor room w e).0))
  ]

  open_entry-Fits :
      (max : ℕ) (room : RoomSockets Value) (id : String) (o : Option (RegisteredSocket Value))
      → get id room.connections ≡ o
      → Fits max room × Occupied room
      → Fits max (open_entry id o room) × Occupied (open_entry id o room)
  open_entry-Fits max room id none e fits = fits
  open_entry-Fits max room id (some entry) e (fits, occupied) = elim (Bool-cases entry.is_open) [
    | inl is_open ↦ rw is_open (fits, occupied)
    | inr shut ↦
        let opened : RoomSockets Value = record room {
          connections = insert id (opened_entry entry) room.connections;
          active = room.active + 1;
        } in
        rw shut (
          open-Fits max room id entry e shut fits,
          nonempty-Occupied opened (length-insert_pos id (opened_entry entry) room.connections),
        )
  ]

  pub activate-WellFormed :
      (r : SocketRegistry Value) (actor : ActorKey) (id : String)
      → WellFormed r
      → WellFormed (activate r actor id)
  unfolding activate
  activate-WellFormed r actor id w = elim (Option-cases (get actor r.entries)) [
    | inl e ↦ rw (e, activate) w
    | inr (room, e) ↦
        let (fits, occupied) =
          open_entry-Fits r.max_connections room id (get id room.connections) refl
            (room_Fits r actor room w e) in
        rw (e, activate) (put_room-WellFormed r actor _ w fits occupied)
  ]
