-- ===== src/Sockets/Counts.antt =====
-- The counts of any registry that a gateway can reach: src/sockets/mod.rs.
use durable_actors.Prelude.{
  ℕ, ◌<◌, ◌≤◌, ◌≡◌, refl, sym, ◌∙◌, inl, inr, String, Bool, true, false, ◌&&◌, List, [], ◌∷◌,
  Option, none, some, length, arith, Option-cases,
}
use durable_actors.Prelude.Maps.{get, string_eq, length-insert_pos, count_by, count_by-le-length}
use durable_actors.Ownership.Types.{ActorKey, actor_eq}
use durable_actors.Sockets.{
  ActorSocketConnection, ActorSocketEffect, set_auto_response, state_snapshot, state_update,
  broadcast, set_metadata, set_tags, send, close, reject,
}
use durable_actors.Sockets.Registry.{
  RegisteredSocket, RoomSockets, SocketRegistry, default_max_connections, or_default, insert_socket,
  remove_socket, activate, open_with_tag, connections_with_tag, count,
}
use durable_actors.Sockets.Effects.{
  zip, set_entry, update_entry, set_auto_response_of, with_state, with_metadata, with_tags,
  apply_one, apply,
}
use durable_actors.Sockets.Invariant.{
  opens, Fits, Occupied, WellFormed, room_Fits, put_room-WellFormed, keep_room-WellFormed,
  or_default-Fits, nonempty-Occupied, set-Fits, insert_socket-WellFormed, remove_socket-WellFormed,
  activate-WellFormed,
}

and_false : (b : Bool) → (b && false) ≡ false
and_false true = refl
and_false false = refl

module _ {Value : Type 0} where
  -- A change that leaves a socket's ID and whether it is open alone.
  abbrev Harmless : (RegisteredSocket Value → RegisteredSocket Value) → Type 0
  Harmless f =
      (entry : RegisteredSocket Value)
      → ((f entry).is_open ≡ entry.is_open) × ((f entry).connection.id ≡ entry.connection.id)

  set_entry-Fits :
      (max : ℕ) (room : RoomSockets Value) (id : String)
      (f : RegisteredSocket Value → RegisteredSocket Value) (o : Option (RegisteredSocket Value))
      → Harmless f
      → get id room.connections ≡ o
      → Fits max room × Occupied room
      → Fits max (set_entry id f o room) × Occupied (set_entry id f o room)
  set_entry-Fits max room id f none harmless e fits = fits
  set_entry-Fits max room id f (some entry) harmless e (fits, occupied) =
      let (same, same_id) = harmless entry in
      (
        set-Fits max room id entry (f entry) e same same_id fits,
        nonempty-Occupied (set_entry id f (some entry) room)
            (length-insert_pos id (f entry) room.connections),
      )

  update_entry-WellFormed :
      (r : SocketRegistry Value) (actor : ActorKey) (id : String)
      (f : RegisteredSocket Value → RegisteredSocket Value)
      → Harmless f
      → WellFormed r
      → WellFormed (update_entry r actor id f)
  unfolding update_entry
  update_entry-WellFormed r actor id f harmless w = elim (Option-cases (get actor r.entries)) [
    | inl e ↦ rw (e, update_entry) w
    | inr (room, e) ↦
        let (fits, occupied) =
          set_entry-Fits r.max_connections room id f (get id room.connections) harmless refl
            (room_Fits r actor room w e) in
        rw (e, update_entry) (put_room-WellFormed r actor _ w fits occupied)
  ]

  same_connections :
      (max : ℕ) (room : RoomSockets Value) (auto : Option (String × String))
      → Fits max room
      → Fits max (record room { auto_response = auto })
  same_connections max room auto fits = record {
    unique = fits.unique;
    keyed = fits.keyed;
    counted = fits.counted;
    within = fits.within;
  }

  set_auto_response_of-WellFormed :
      (r : SocketRegistry Value) (actor : ActorKey) (pair : Option (String × String))
      → WellFormed r
      → WellFormed (set_auto_response_of r actor pair)
  unfolding set_auto_response_of
  set_auto_response_of-WellFormed r actor none w = elim (Option-cases (get actor r.entries)) [
    | inl e ↦ rw (e, set_auto_response_of) w
    | inr (room, e) ↦
        rw (e, set_auto_response_of)
          (keep_room-WellFormed r actor _ w
            (same_connections r.max_connections room none (room_Fits r actor room w e).0))
  ]
  set_auto_response_of-WellFormed r actor (some pair) w =
      put_room-WellFormed r actor _ w
        (same_connections r.max_connections (or_default (get actor r.entries)) (some pair)
          (or_default-Fits r actor w))
        (and_false _)

  apply_one-WellFormed :
      (r : SocketRegistry Value) (actor : ActorKey) (effect : ActorSocketEffect Value)
      → WellFormed r
      → WellFormed (apply_one r actor effect).0
  unfolding apply_one
  apply_one-WellFormed r actor (set_auto_response request response) w =
      set_auto_response_of-WellFormed r actor (zip request response) w
  apply_one-WellFormed r actor (state_snapshot id value none) w = w
  apply_one-WellFormed r actor (state_snapshot id value (some version)) w =
      update_entry-WellFormed r actor id with_state (λ entry. (refl, refl)) w
  apply_one-WellFormed r actor (state_update changes removed except none) w = w
  apply_one-WellFormed r actor (state_update changes removed except (some version)) w = w
  apply_one-WellFormed r actor (broadcast m except tags tag_match) w = w
  apply_one-WellFormed r actor (set_metadata id metadata) w =
      update_entry-WellFormed r actor id (with_metadata metadata) (λ entry. (refl, refl)) w
  apply_one-WellFormed r actor (set_tags id tags) w =
      update_entry-WellFormed r actor id (with_tags tags) (λ entry. (refl, refl)) w
  apply_one-WellFormed r actor (send id m) w = w
  apply_one-WellFormed r actor (close id code reason) w = w
  apply_one-WellFormed r actor (reject id code reason) w = w

  apply-WellFormed :
      (actor : ActorKey) (effects : List (ActorSocketEffect Value)) (r : SocketRegistry Value)
      → WellFormed r
      → WellFormed (apply r actor effects).0
  unfolding apply
  apply-WellFormed actor [] r w = w
  apply-WellFormed actor (effect ∷ effects) r w =
      apply-WellFormed actor effects (apply_one r actor effect).0
        (apply_one-WellFormed r actor effect w)

  -- What a gateway does to its registry. A connection's ID is a new UUID, so no connection of the room
  -- has it.
  pub data Reaches : SocketRegistry Value → Type 0 where
    starts :
        (max : ℕ)
        → 0 < max
        → max ≤ default_max_connections
        → Reaches (record { max_connections = max; entries = [] })
    inserts :
        {r : SocketRegistry Value} (actor : ActorKey) (connection : ActorSocketConnection Value)
        (outbound : ℕ)
        → get connection.id (or_default (get actor r.entries)).connections ≡ none
        → Reaches r
        → Reaches (insert_socket r actor connection outbound).1
    removes :
        {r : SocketRegistry Value} (actor : ActorKey) (id : String)
        → Reaches r
        → Reaches (remove_socket r actor id).1
    activates :
        {r : SocketRegistry Value} (actor : ActorKey) (id : String)
        → Reaches r
        → Reaches (activate r actor id)
    applies :
        {r : SocketRegistry Value} (actor : ActorKey) (effects : List (ActorSocketEffect Value))
        → Reaches r
        → Reaches (apply r actor effects).0

  pub Reaches-WellFormed : {r : SocketRegistry Value} → Reaches r → WellFormed r
  Reaches-WellFormed (starts max some_fit few_fit) = record {
    unique = tt;
    rooms = tt;
    some_fit = some_fit;
    few_fit = few_fit;
  }
  Reaches-WellFormed (inserts {r} actor connection outbound fresh s) =
      insert_socket-WellFormed r actor connection outbound fresh (Reaches-WellFormed s)
  Reaches-WellFormed (removes {r} actor id s) =
      remove_socket-WellFormed r actor id (Reaches-WellFormed s)
  Reaches-WellFormed (activates {r} actor id s) =
      activate-WellFormed r actor id (Reaches-WellFormed s)
  Reaches-WellFormed (applies {r} actor effects s) =
      apply-WellFormed actor effects r (Reaches-WellFormed s)

  length-open_with_tag :
      (connections : List (String × RegisteredSocket Value))
      → length (open_with_tag none connections) ≡ count_by opens connections
  length-open_with_tag [] = refl
  length-open_with_tag ((id, entry) ∷ connections) =
      ground (arith, length-open_with_tag connections)

  -- The number that a registry keeps of an actor's open connections is the number of the connections
  -- that it lists, and at most its limit, after any insertions of new connections, removals, activations
  -- and effects, in any order.
  pub count-connections_with_tag :
      {r : SocketRegistry Value} (actor : ActorKey)
      → Reaches r
      → (count r actor ≡ length (connections_with_tag r actor none))
        × (count r actor ≤ r.max_connections)
  unfolding count connections_with_tag
  count-connections_with_tag {r} actor s = elim (Option-cases (get actor r.entries)) [
    | inl e ↦ rw (e, count, connections_with_tag) (refl, omega arith)
    | inr (room, e) ↦
        let fits = (room_Fits r actor room (Reaches-WellFormed s) e).0 in
        rw (e, count, connections_with_tag)
          (
            fits.counted ∙ sym (length-open_with_tag room.connections),
            omega (arith, fits.counted, fits.within, count_by-le-length opens room.connections),
          )
  ]
