-- ===== src/Executor.antt =====
-- src/actor/executor_connection.rs: what the host and the customer's JavaScript process say to each
-- other. The JSON values, the calls that are passed on and the objects that answer them are parameters.
pub mod State
pub mod Driver
pub mod Loop
pub mod Moves
pub mod Rounds
pub mod Owned
pub mod Numbering
pub mod Tasks
pub mod Answers
pub mod Runs
pub mod Delivery
pub mod Trim
pub mod Specification
use durable_actors.Prelude.{
  ℕ, String, Bool, true, false, List, [], ◌∷◌, Option, none, some, Result, ok, err, out_of_fuel,
  ◌>>=◌, ◌>>◌, ltb, leb, ◌==◌, if◌then◌else◌, length, last, zero, suc,
}
use durable_actors.Ownership.Types.{ActorKey}
use durable_actors.Sockets.{ActorSocketConnection, ActorSocketEvent, ActorSocketEffect}
use durable_actors.Sockets.Operations.{SocketQuery, SocketLookup}

abbrev pub actor_executor_protocol_version : ℕ
actor_executor_protocol_version = 32

pub record Services : Type 1 where
  pub Value : Type 0
  pub null : Value
  pub unavailable_calls : Value
  pub DatabaseCall : Type 0
  pub DatabaseResult : Type 0
  pub ActorCall : Type 0
  pub LogLevel : Type 0
  pub SocketPublisher : Type 0
  pub SocketSource : Type 0
  pub Database : Type 0
  pub Caller : Type 0
  pub LogSink : Type 0

pub record ActorInvocationFailure : Type 0 where
  pub code : String
  pub message : String

module _ (t : Services) where
  pub record ActorMethodInvocation : Type 0 where
    pub request_id : String
    pub method : String
    pub args : List t.Value

  pub data ExecutorCommand : Type 0 where
    hydrate : String → ExecutorCommand
    invoke : ActorMethodInvocation → ExecutorCommand
    websocket_event :
        String → ActorSocketEvent t.Value → List (ActorSocketConnection t.Value) → ExecutorCommand
    evict : Bool → ExecutorCommand

  -- The arguments of a result are its value, its sequence number and its effects.
  pub data ExecutorReply : Type 0 where
    hydrated evicted : ExecutorReply
    invoked : t.Value → Option ℕ → List (ActorSocketEffect t.Value) → ExecutorReply
    websocket_handled : Option ℕ → List (ActorSocketEffect t.Value) → ExecutorReply
    failed : String → String → ExecutorReply

  -- Each has its fields in the source's order.
  pub data ActorExecutorServerMessage : Type 0 where
    database_result : ℕ → Option t.DatabaseResult → Option String → ActorExecutorServerMessage
    actor_result : ℕ → t.Value → ActorExecutorServerMessage
    socket_connections : ℕ → SocketLookup t.Value → Option String → ActorExecutorServerMessage
    attached : ℕ → ActorKey → ActorExecutorServerMessage
    command : ℕ → ExecutorCommand → ActorExecutorServerMessage

  pub data ActorExecutorClientMessage : Type 0 where
    database_call : ℕ → Option ℕ → t.DatabaseCall → ActorExecutorClientMessage
    actor_call : ℕ → t.ActorCall → ActorExecutorClientMessage
    warm : ℕ → ActorExecutorClientMessage
    residency : Bool → ActorExecutorClientMessage
    get_connections : ℕ → SocketQuery → ActorExecutorClientMessage
    ready_for_invocation : ℕ → ActorExecutorClientMessage
    socket_effects : ℕ → List (ActorSocketEffect t.Value) → ActorExecutorClientMessage
    attach : ℕ → List String → ActorExecutorClientMessage
    reply : ℕ → ExecutorReply → ActorExecutorClientMessage
    log : Option ℕ → t.LogLevel → String → ActorExecutorClientMessage

  -- `ExecutorCommand::request_id`
  abbrev pub request_id : ExecutorCommand → Option String
  request_id (hydrate id) = some id
  request_id (invoke invocation) = some invocation.request_id
  request_id (websocket_event id event connections) = some id
  request_id (evict graceful) = none

  abbrev pub is_invocation : ExecutorCommand → Bool
  is_invocation (invoke invocation) = true
  is_invocation (websocket_event id event connections) = true
  is_invocation other = false

  abbrev pub is_evict : ExecutorCommand → Bool
  is_evict (evict graceful) = true
  is_evict other = false

  abbrev pub is_connecting : ExecutorCommand → Bool
  is_connecting (websocket_event id (ActorSocketEvent.connect connection) connections) = true
  is_connecting other = false

  pub record ActorInterleavedOutcome : Type 0 where
    pub sequence : ℕ
    pub result : t.Value
    pub effects : List (ActorSocketEffect t.Value)

  pub data ActorMethodOutcome : Type 0 where
    interleaved : ActorInterleavedOutcome → ActorMethodOutcome
    completed : t.Value → List (ActorSocketEffect t.Value) → ActorMethodOutcome
    failed : ActorInvocationFailure → ActorMethodOutcome

  pub data ActorSocketOutcome : Type 0 where
    interleaved : ActorInterleavedOutcome → ActorSocketOutcome
    handled : List (ActorSocketEffect t.Value) → ActorSocketOutcome
    failed : ActorInvocationFailure → ActorSocketOutcome

  -- What `invoke` makes of the reply to its exchange.
  abbrev pub invoke_outcome : ExecutorReply → Result ActorMethodOutcome
  invoke_outcome (invoked result none effects) = ok (completed result effects)
  invoke_outcome (invoked result (some sequence) effects) = ok (
      ActorMethodOutcome.interleaved
        (record { sequence = sequence; result = result; effects = effects }))
  invoke_outcome (ExecutorReply.failed code message) =
      ok (ActorMethodOutcome.failed (record { code = code; message = message }))
  invoke_outcome other = err "unexpected actor invocation reply"

  -- `handle_socket`
  abbrev pub socket_outcome : ExecutorReply → Result ActorSocketOutcome
  socket_outcome (websocket_handled none effects) = ok (handled effects)
  socket_outcome (websocket_handled (some sequence) effects) = ok (
      ActorSocketOutcome.interleaved
        (record { sequence = sequence; result = t.null; effects = effects }))
  socket_outcome (ExecutorReply.failed code message) =
      ok (ActorSocketOutcome.failed (record { code = code; message = message }))
  socket_outcome other = err "unexpected actor socket reply"

  -- `hydrate`
  abbrev pub hydrate_outcome : ExecutorReply → Result (Unit {0})
  hydrate_outcome hydrated = ok tt
  hydrate_outcome (ExecutorReply.failed code message) = err "actor hydration failed"
  hydrate_outcome other = err "unexpected actor hydration reply"

  -- `evict`
  abbrev pub evict_outcome : ExecutorReply → Result (Unit {0})
  evict_outcome evicted = ok tt
  evict_outcome (ExecutorReply.failed code message) = err "actor executor rejected eviction"
  evict_outcome other = err "unexpected actor eviction reply"

  -- `attach_executor`, the names of the actors that the executor attaches with.
  unfoldable pub attach_executor : Option ActorExecutorClientMessage → Result (List String)
  attach_executor (some (attach protocol actor_names)) =
      if protocol == actor_executor_protocol_version
      then (elim actor_names [
        | [] ↦ err "customer executor advertised no actor names"
        | name ∷ names ↦ ok (name ∷ names)
      ])
      else err "unsupported executor protocol"
  attach_executor other = err "customer executor must attach after loading code"

-- `u8::is_ascii_whitespace`
abbrev pub is_ascii_whitespace : ℕ → Bool
is_ascii_whitespace b =
    if b == 32
    then true
    else if b == 9
    then true
    else if b == 10
    then true
    else if b == 12
    then true
    else b == 13

abbrev pub ends_in_whitespace : Option ℕ → Bool
ends_in_whitespace none = false
ends_in_whitespace (some b) = is_ascii_whitespace b

abbrev pub but_last : List ℕ → List ℕ
but_last [] = []
but_last (b ∷ []) = []
but_last (b ∷ c ∷ bs) = b ∷ but_last (c ∷ bs)

-- The loop of `trim_ascii_end`. Each round shortens the document, so its length is rounds enough.
abbrev pub trim_rounds : ℕ → List ℕ → List ℕ
trim_rounds zero document = document
trim_rounds (suc rounds) document =
    let rest = trim_rounds rounds (but_last document) in
    if ends_in_whitespace (last document) then rest else document

unfoldable pub trim_ascii_end : List ℕ → List ℕ
trim_ascii_end document = trim_rounds (length document) document
