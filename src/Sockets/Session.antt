-- ===== src/Sockets/Session.antt =====
-- src/sockets/browser.rs: the session of one browser's connection. What the transport and the gateway
-- say is an argument; a step gives the frames that it sends and the events whose handlers it starts.
pub mod Order
use durable_actors.Prelude.{
  ℕ, String, Bool, true, false, not, List, [], ◌∷◌, ◌++◌, Option, none, some, if◌then◌else◌,
}
use durable_actors.Sockets.{
  ActorSocketMessage, ActorSocketConnection, ActorSocketEvent, connect, message, Control,
  OutboundMessage,
}

pub record Closed : Type 0 where
  pub code : ℕ
  pub reason : String
  pub received : Bool

-- `Closed::new`
abbrev pub closed : ℕ → String → Closed
closed code reason = record { code = code; reason = reason; received = false }

-- What `socket.recv()` gives; `failed` is another error, or the end of the stream.
pub data Inbound : Type 0 where
  text : String → Inbound
  ping pong binary too_large failed : Inbound
  close_frame : Option (ℕ × String) → Inbound

pub data Frame (Value : Type 0) : Type 0 where
  text : String → Frame Value
  control : Control Value → Frame Value
  pong : Frame Value

pub record Transport : Type 0 where
  pub has_authority : Bool
  pub is_stopping : Bool
  pub is_connected : Bool

pub record Session (Value : Type 0) : Type 0 where
  pub connection : ActorSocketConnection Value
  pub pending : List ActorSocketMessage
  pub handler : Option (ActorSocketEvent Value)

-- A step goes on with a session, its frames and the events that it starts, or closes the connection.
pub data Progress (Value : Type 0) : Type 0 where
  goes_on : Session Value → List (Frame Value) → List (ActorSocketEvent Value) → Progress Value
  closes : Closed → Progress Value

abbrev pub close_code : Option (ℕ × String) → Closed
close_code none = record { code = 1005; reason = ""; received = true }
close_code (some (code, reason)) = record { code = code; reason = reason; received = true }

module _ {Value : Type 0} where
  abbrev pub start : Session Value → ActorSocketEvent Value → Session Value
  start s event = record s { handler = some event }

  abbrev pub message_event : Session Value → ActorSocketMessage → ActorSocketEvent Value
  message_event s m = message s.connection.id m

  -- `enqueue`, and `start_message`
  unfoldable pub enqueue : Session Value → ActorSocketMessage → Progress Value
  enqueue s m = elim s.handler [
    | none ↦ goes_on (start s (message_event s m)) [] (message_event s m ∷ [])
    | some event ↦ goes_on (record s { pending = s.pending ++ m ∷ [] }) [] []
  ]

  -- `send_frame`
  unfoldable pub send_frame : Transport → Session Value → Frame Value → Progress Value
  send_frame t s frame =
      if not t.has_authority
      then closes (closed 1012 "socket gateway lost its subscription")
      else if t.is_stopping
      then closes (closed 1012 "socket gateway stopping")
      else if t.is_connected
      then goes_on s (frame ∷ []) []
      else closes (closed 1006 "transport closed")

  abbrev pub respond : Transport → Session Value → String → Option String → Progress Value
  respond t s m none = enqueue s (ActorSocketMessage.text m)
  respond t s m (some response) = send_frame t s (text response)

  -- `receive`; `auto_response` is the registry's.
  unfoldable pub receive :
      Transport → (String → Option String) → Session Value → Inbound → Progress Value
  receive t auto_response s (text m) = respond t s m (auto_response m)
  receive t auto_response s ping = send_frame t s pong
  receive t auto_response s pong = goes_on s [] []
  receive t auto_response s (close_frame frame) = closes (close_code frame)
  receive t auto_response s binary = closes (closed 4400 "socket messages must be JSON text")
  receive t auto_response s too_large = closes (closed 1009 "message exceeds 32 MiB")
  receive t auto_response s failed = closes (closed 1006 "transport closed")

  -- `send_outbound`; `none` is the end of the channel.
  unfoldable pub send_outbound :
      Transport → Session Value → Option (OutboundMessage Value) → Progress Value
  send_outbound t s none = closes (closed 1006 "socket closed")
  send_outbound t s (some (OutboundMessage.control value)) = send_frame t s (control value)
  send_outbound t s (some (OutboundMessage.message (ActorSocketMessage.text m))) =
      send_frame t s (text m)
  send_outbound t s (some (OutboundMessage.message (ActorSocketMessage.binary m))) =
      closes (closed 4400 "actor produced a binary message")
  send_outbound t s (some (OutboundMessage.close code reason)) = closes (closed code reason)

  abbrev pub next_message : Session Value → List ActorSocketMessage → Progress Value
  next_message s [] = goes_on s [] []
  next_message s (m ∷ pending) =
      goes_on (start (record s { pending = pending }) (message_event s m)) []
        (message_event s m ∷ [])

  -- The branch of `run` for a handler that has ended, well or not.
  unfoldable pub handler_ended : Session Value → Bool → Progress Value
  handler_ended s true = next_message (record s { handler = none }) s.pending
  handler_ended s false = closes (closed 4400 "actor socket handler failed")
