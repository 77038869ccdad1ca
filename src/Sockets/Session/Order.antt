-- ===== src/Sockets/Session/Order.antt =====
-- In which order a session handles the messages of its browser: src/sockets/browser.rs.
use mathlib.Core.List.{map-append}
use durable_actors.Prelude.{
  ℕ, suc, ◌+◌, ◌≡◌, refl, sym, ap, ◌∙◌, String, true, List, [], ◌∷◌, ◌++◌, append_assoc, append-nil,
  Option, none, some, length, length-append, arith, map, Option-cases, inl, inr, ◌⊎◌,
}
use durable_actors.Sockets.{
  ActorSocketMessage, ActorSocketConnection, ActorSocketEvent, connect, message, OutboundMessage,
}
use durable_actors.Sockets.Session.{
  Inbound, ping, pong, binary, too_large, failed, close_frame, Frame, Transport, Session, goes_on,
  message_event, enqueue, send_frame, receive, send_outbound, next_message, handler_ended,
}

-- The messages of an inbound frame that are for the actor.
abbrev pub for_actor : (String → Option String) → Inbound → List ActorSocketMessage
for_actor auto_response (Inbound.text m) = elim (auto_response m) [
  | none ↦ ActorSocketMessage.text m ∷ []
  | some response ↦ []
]
for_actor auto_response ping = []
for_actor auto_response pong = []
for_actor auto_response binary = []
for_actor auto_response too_large = []
for_actor auto_response failed = []
for_actor auto_response (close_frame frame) = []

module _ {Value : Type 0} where
  -- The messages that are for the actor, the events that were started, how many of their handlers have
  -- ended, and the session.
  pub data Sessions (connection : ActorSocketConnection Value)
      : List ActorSocketMessage → List (ActorSocketEvent Value) → ℕ → Session Value → Type 0 where
    begins :
        Sessions connection []
          (connect connection ∷ [])
          0
          (record { connection = connection; pending = []; handler = some (connect connection) })
    receives :
        {received : List ActorSocketMessage} {started : List (ActorSocketEvent Value)} {ended : ℕ}
        {s s' : Session Value} {frames : List (Frame Value)}
        {events : List (ActorSocketEvent Value)} (t : Transport)
        (auto_response : String → Option String) (inbound : Inbound)
        → receive t auto_response s inbound ≡ goes_on s' frames events
        → Sessions connection received started ended s
        → Sessions connection
            (received ++ for_actor auto_response inbound)
            (started ++ events)
            ended
            s'
    sends :
        {received : List ActorSocketMessage} {started : List (ActorSocketEvent Value)} {ended : ℕ}
        {s s' : Session Value} {frames : List (Frame Value)}
        {events : List (ActorSocketEvent Value)} (t : Transport)
        (outbound : Option (OutboundMessage Value))
        → send_outbound t s outbound ≡ goes_on s' frames events
        → Sessions connection received started ended s
        → Sessions connection received (started ++ events) ended s'
    ends :
        {received : List ActorSocketMessage} {started : List (ActorSocketEvent Value)} {ended : ℕ}
        {s s' : Session Value} {frames : List (Frame Value)}
        {events : List (ActorSocketEvent Value)} (event : ActorSocketEvent Value)
        → s.handler ≡ some event
        → handler_ended s true ≡ goes_on s' frames events
        → Sessions connection received started ended s
        → Sessions connection received (started ++ events) (suc ended) s'

  abbrev pub running : Session Value → ℕ
  running s = elim s.handler [ none ↦ 0 | some event ↦ 1 ]

  abbrev pub message_events : String → List ActorSocketMessage → List (ActorSocketEvent Value)
  message_events id ms = map (message id) ms

  -- The first event is the connection; then the messages that are not pending, as they came.
  pub record InOrder (connection : ActorSocketConnection Value) (received : List ActorSocketMessage)
      (started : List (ActorSocketEvent Value)) (ended : ℕ) (s : Session Value) : Type 0 where
    pub same : s.connection ≡ connection
    pub handled : List ActorSocketMessage
    pub is_received : received ≡ handled ++ s.pending
    pub is_started : started ≡ connect connection ∷ message_events connection.id handled
    pub one_runs : length started ≡ ended + running s
    pub none_waits :
        (s.pending ≡ []) ⊎ ((event : ActorSocketEvent Value) × (s.handler ≡ some event))

  -- The session of `s` that has started the handler of `m`.
  abbrev with_message : Session Value → ActorSocketMessage → List ActorSocketMessage → Session Value
  with_message s m pending = record {
    connection = s.connection;
    pending = pending;
    handler = some (message s.connection.id m);
  }

  module _ (connection : ActorSocketConnection Value) where
    message-InOrder :
        (received : List ActorSocketMessage) (started : List (ActorSocketEvent Value)) (ended : ℕ)
        (s : Session Value) (m : ActorSocketMessage) (pending received' : List ActorSocketMessage)
        (ended' : ℕ) (o : InOrder connection received started ended s)
        → received' ≡ (o.handled ++ (m ∷ [])) ++ pending
        → length started ≡ ended'
        → InOrder connection received'
            (started ++ (message_event s m ∷ []))
            ended'
            (with_message s m pending)
    message-InOrder received started ended s m pending received' ended' o e size = record {
      same = o.same;
      handled = o.handled ++ (m ∷ []);
      is_received = e;
      is_started =
          rw (o.is_started, o.same)
            (ap (connect connection ∷◌)
              (sym (map-append (message connection.id) o.handled (m ∷ []))));
      one_runs = omega (arith, length-append started (message_event s m ∷ []), size);
      none_waits = inr (message s.connection.id m, refl);
    }

    enqueue-InOrder :
        (received : List ActorSocketMessage) (started : List (ActorSocketEvent Value)) (ended : ℕ)
        (s s' : Session Value) (m : ActorSocketMessage) (frames : List (Frame Value))
        (events : List (ActorSocketEvent Value))
        → enqueue s m ≡ goes_on s' frames events
        → InOrder connection received started ended s
        → InOrder connection (received ++ (m ∷ [])) (started ++ events) ended s'
    unfolding enqueue
    enqueue-InOrder received started ended s s' m frames events h o =
        elim (Option-cases s.handler) [
          | inl e ↦
              let idle : s.pending ≡ [] = ground arith in
              let is : s' ≡ with_message s m s.pending = ground arith in
              let are : events ≡ message_event s m ∷ [] = ground arith in
              rw (is, are)
                (message-InOrder received started ended s m s.pending (received ++ (m ∷ [])) ended o
                  (rw
                    (o.is_received, idle, append-nil o.handled, append-nil (o.handled ++ (m ∷ []))))
                  (ground (arith, o.one_runs)))
          | inr (event, e) ↦
              let is : s' ≡ record s { pending = s.pending ++ (m ∷ []) } = ground arith in
              let are : events ≡ [] = ground arith in
              rw (is, are, append-nil started)
                (record {
                  same = o.same;
                  handled = o.handled;
                  is_received = rw o.is_received (append_assoc o.handled s.pending (m ∷ []));
                  is_started = o.is_started;
                  one_runs = o.one_runs;
                  none_waits = inr (event, e);
                })
        ]

    ended-InOrder :
        (received : List ActorSocketMessage) (started : List (ActorSocketEvent Value)) (ended : ℕ)
        (s s' : Session Value) (frames : List (Frame Value))
        (events : List (ActorSocketEvent Value)) (event : ActorSocketEvent Value)
        (pending : List ActorSocketMessage)
        → s.handler ≡ some event
        → s.pending ≡ pending
        → next_message (record s { handler = none }) pending ≡ goes_on s' frames events
        → InOrder connection received started ended s
        → InOrder connection received (started ++ events) (suc ended) s'
    ended-InOrder received started ended s s' frames events event [] e p h o =
        let is : s' ≡ record s { handler = none } = ground arith in
        let are : events ≡ [] = ground arith in
        rw (is, are, append-nil started)
          (record {
            same = o.same;
            handled = o.handled;
            is_received = o.is_received;
            is_started = o.is_started;
            one_runs = ground (arith, o.one_runs);
            none_waits = inl p;
          })
    ended-InOrder received started ended s s' frames events event (m ∷ pending) e p h o =
        let is : s' ≡ with_message s m pending = ground arith in
        let are : events ≡ message_event s m ∷ [] = ground arith in
        rw (is, are)
          (message-InOrder received started ended s m pending received (suc ended) o
            (o.is_received ∙ (ap (o.handled ++◌) p ∙ sym (append_assoc o.handled (m ∷ []) pending)))
            (ground (arith, o.one_runs)))

    -- A step that starts nothing and leaves the session alone.
    still-InOrder :
        (received received' : List ActorSocketMessage) (started : List (ActorSocketEvent Value))
        (ended : ℕ) (s s' : Session Value) (events : List (ActorSocketEvent Value))
        → received' ≡ received
        → (s' ≡ s) × (events ≡ [])
        → InOrder connection received started ended s
        → InOrder connection received' (started ++ events) ended s'
    still-InOrder received received' started ended s s' events e (is, are) o =
        rw (is, are, append-nil started, e) o

    send_frame_still :
        (t : Transport) (s s' : Session Value) (frame : Frame Value) (frames : List (Frame Value))
        (events : List (ActorSocketEvent Value))
        → send_frame t s frame ≡ goes_on s' frames events
        → (s' ≡ s) × (events ≡ [])
    unfolding send_frame
    send_frame_still t s s' frame frames events h = (ground arith, ground arith)

    receive-InOrder :
        (received : List ActorSocketMessage) (started : List (ActorSocketEvent Value)) (ended : ℕ)
        (s s' : Session Value) (frames : List (Frame Value))
        (events : List (ActorSocketEvent Value)) (t : Transport)
        (auto_response : String → Option String) (inbound : Inbound)
        → receive t auto_response s inbound ≡ goes_on s' frames events
        → InOrder connection received started ended s
        → InOrder connection
            (received ++ for_actor auto_response inbound)
            (started ++ events)
            ended
            s'
    unfolding receive
    receive-InOrder received started ended s s' frames events t auto (Inbound.text m) h o =
        elim (Option-cases (auto m)) [
          | inl e ↦
              rw (e, for_actor)
                (enqueue-InOrder received started ended s s' (ActorSocketMessage.text m) frames
                  events (rw e at h) o)
          | inr (response, e) ↦
              rw (e, for_actor)
                (still-InOrder received (received ++ []) started ended s s' events
                  (append-nil received)
                  (send_frame_still t s s' (Frame.text response) frames events (rw e at h)) o)
        ]
    receive-InOrder received started ended s s' frames events t auto ping h o =
        still-InOrder received (received ++ []) started ended s s' events (append-nil received)
          (send_frame_still t s s' Frame.pong frames events h) o
    receive-InOrder received started ended s s' frames events t auto pong h o =
        still-InOrder received (received ++ []) started ended s s' events (append-nil received)
          (ground arith, ground arith) o
    receive-InOrder received started ended s s' frames events t auto binary h o =
        absurd (ground arith)
    receive-InOrder received started ended s s' frames events t auto too_large h o =
        absurd (ground arith)
    receive-InOrder received started ended s s' frames events t auto failed h o =
        absurd (ground arith)
    receive-InOrder received started ended s s' frames events t auto (close_frame frame) h o =
        absurd (ground arith)

    send_outbound_still :
        (t : Transport) (s s' : Session Value) (outbound : Option (OutboundMessage Value))
        (frames : List (Frame Value)) (events : List (ActorSocketEvent Value))
        → send_outbound t s outbound ≡ goes_on s' frames events
        → (s' ≡ s) × (events ≡ [])
    unfolding send_outbound send_frame
    send_outbound_still t s s' none frames events h = absurd (ground arith)
    send_outbound_still t s s' (some (OutboundMessage.control value)) frames events h =
        (ground arith, ground arith)
    send_outbound_still t s s' (some (OutboundMessage.message (ActorSocketMessage.text m))) frames
          events h =
        (ground arith, ground arith)
    send_outbound_still t s s' (some (OutboundMessage.message (ActorSocketMessage.binary m))) frames
          events h =
        absurd (ground arith)
    send_outbound_still t s s' (some (OutboundMessage.close code reason)) frames events h =
        absurd (ground arith)

    -- A session hands its actor each message of its browser once and in the order they came, after the
    -- connection, and one at a time: the events whose handlers were started are the connection and the
    -- messages that do not wait, at most one more than the handlers that have ended. A message waits only
    -- while a handler runs. Messages with an automatic response are not for the actor. This holds after
    -- any inbound frames, messages that are sent, and handlers that end well, while the session goes on.
    pub Sessions-InOrder :
        {received : List ActorSocketMessage} {started : List (ActorSocketEvent Value)} {ended : ℕ}
        {s : Session Value}
        → Sessions connection received started ended s
        → InOrder connection received started ended s
    unfolding handler_ended
    Sessions-InOrder begins = record {
      same = refl;
      handled = [];
      is_received = refl;
      is_started = refl;
      one_runs = refl;
      none_waits = inl refl;
    }
    Sessions-InOrder
          (receives {received} {started} {ended} {s} {s'} {frames} {events} t auto inbound h r) =
        receive-InOrder received started ended s s' frames events t auto inbound h
          (Sessions-InOrder r)
    Sessions-InOrder
          (sends {received} {started} {ended} {s} {s'} {frames} {events} t outbound h r) =
        still-InOrder received received started ended s s' events refl
          (send_outbound_still t s s' outbound frames events h) (Sessions-InOrder r)
    Sessions-InOrder (ends {received} {started} {ended} {s} {s'} {frames} {events} event e h r) =
        ended-InOrder received started ended s s' frames events event s.pending e refl h
          (Sessions-InOrder r)
