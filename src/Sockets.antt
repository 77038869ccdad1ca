-- ===== src/Sockets.antt =====
-- src/sockets: the connections of browsers to actors. src/actor/executor_connection.rs has their types.
pub mod Registry
pub mod Effects
pub mod Invariant
pub mod Counts
pub mod Broadcast
pub mod Validation
pub mod Operations
pub mod Session
pub mod Dispatch
use durable_actors.Prelude.{ℕ, String, Bool, List, Option}
use durable_actors.Ownership.Types.{ActorKey}

pub data ActorSocketMessage : Type 0 where
  text : String → ActorSocketMessage
  binary : String → ActorSocketMessage

pub data ActorSocketTagMatch : Type 0 where
  all any : ActorSocketTagMatch

-- `Value` is the type of JSON values, a library's.
module _ (Value : Type 0) where
  pub record ActorSocketConnection : Type 0 where
    pub id : String
    pub metadata : Value
    pub tags : List String

  pub data ActorSocketEvent : Type 0 where
    connect : ActorSocketConnection → ActorSocketEvent
    message : String → ActorSocketMessage → ActorSocketEvent
    disconnect : ActorSocketConnection → ℕ → String → Bool → ActorSocketEvent

  -- The arguments are the source's fields, in its order.
  pub data ActorSocketEffect : Type 0 where
    set_auto_response : Option String → Option String → ActorSocketEffect
    state_snapshot : String → Value → Option ℕ → ActorSocketEffect
    state_update : Value → List String → List String → Option ℕ → ActorSocketEffect
    send : String → ActorSocketMessage → ActorSocketEffect
    broadcast :
        ActorSocketMessage → List String → List String → ActorSocketTagMatch → ActorSocketEffect
    close : String → ℕ → String → ActorSocketEffect
    reject : String → ℕ → String → ActorSocketEffect
    set_metadata : String → Value → ActorSocketEffect
    set_tags : String → List String → ActorSocketEffect

  -- The JSON objects that a registry sends as control messages.
  pub data Control : Type 0 where
    state : Value → ℕ → Control
    state_update : Value → List String → ℕ → Control

  pub data OutboundMessage : Type 0 where
    message : ActorSocketMessage → OutboundMessage
    control : Control → OutboundMessage
    close : ℕ → String → OutboundMessage
