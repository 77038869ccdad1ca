-- ===== src/Examples/Sockets.antt =====
-- A room of two browsers, one of which has a tag: src/sockets.
use mathlib.Core.List.{Memᴰ}
use durable_actors.Prelude.{
  ℕ, ◌≤◌, ◌≡◌, ◌↔◌, refl, String, true, false, List, [], ◌∷◌, Option, none, some, arith, length, ok,
}
use durable_actors.Prelude.Maps.{get, string_eq}
use durable_actors.Ownership.Types.{ActorKey, actor_eq}
use durable_actors.Sockets.{
  ActorSocketMessage, ActorSocketTagMatch, ActorSocketConnection, ActorSocketEffect,
  OutboundMessage, connect, set_tags, broadcast,
}
use durable_actors.Sockets.Registry.{
  SocketRegistry, insert_socket, activate, connections_with_tag, count,
}
use durable_actors.Sockets.Effects.{apply_one, apply, entry_of}
use durable_actors.Sockets.Counts.{
  Reaches, starts, inserts, activates, applies, count-connections_with_tag,
}
use durable_actors.Sockets.Broadcast.{IsRecipient, broadcast-IsRecipient}
use durable_actors.Sockets.Validation.{Formats}
use durable_actors.Sockets.Operations.{Handler, host_publish}
use durable_actors.Sockets.Dispatch.{Published, host_publish-Published}
use durable_actors.Sockets.Session.{Inbound, Transport, Session, enqueue, receive}
use durable_actors.Sockets.Session.Order.{Sessions, InOrder, begins, receives, Sessions-InOrder}

abbrev lobby : ActorKey
lobby = record { project_id = "p"; actor_name = "room"; actor_id = "lobby" }

-- A JSON value is a number here.
abbrev browser : String → ActorSocketConnection ℕ
browser id = record { id = id; metadata = 0; tags = [] }

abbrev empty_registry : SocketRegistry ℕ
empty_registry = record { max_connections = 2; entries = [] }

abbrev tag_first : List (ActorSocketEffect ℕ)
tag_first = set_tags "a" ("blue" ∷ []) ∷ []

abbrev two_browsers : SocketRegistry ℕ
two_browsers =
    activate
      (activate
        (insert_socket (insert_socket empty_registry lobby (browser "a") 1).1 lobby (browser "b")
          2).1
        lobby "a")
      lobby "b"

two_browsers-Reaches : Reaches two_browsers
unfolding insert_socket
two_browsers-Reaches = activates lobby "b" (
    activates lobby "a" (
      inserts lobby (browser "b") 2 refl
        (inserts lobby (browser "a") 1 refl (starts 2 (omega arith) (omega arith)))))

count-connections_with_tag_example :
    (count two_browsers lobby ≡ length (connections_with_tag two_browsers lobby none))
    × (count two_browsers lobby ≤ two_browsers.max_connections)
count-connections_with_tag_example = count-connections_with_tag lobby two_browsers-Reaches

abbrev tagged : SocketRegistry ℕ
tagged = (apply two_browsers lobby tag_first).0

broadcast-IsRecipient_example :
    (Memᴰ {A = ℕ × OutboundMessage ℕ}
      (1, OutboundMessage.message (ActorSocketMessage.text "hi"))
      (apply_one tagged lobby
        (broadcast (ActorSocketMessage.text "hi") [] ("blue" ∷ []) ActorSocketTagMatch.all)).1)
    ↔ ((id : String) × (entry : _) × (entry_of (get lobby tagged.entries) id ≡ some entry)
        × IsRecipient [] ("blue" ∷ []) ActorSocketTagMatch.all entry
        × (◌≡◌ {A = ℕ × OutboundMessage ℕ}
            (1, OutboundMessage.message (ActorSocketMessage.text "hi"))
            (entry.outbound, OutboundMessage.message (ActorSocketMessage.text "hi"))))
broadcast-IsRecipient_example =
    broadcast-IsRecipient lobby (ActorSocketMessage.text "hi") [] ("blue" ∷ [])
      ActorSocketTagMatch.all (1, OutboundMessage.message (ActorSocketMessage.text "hi"))
      (applies lobby tag_first two_browsers-Reaches)

abbrev any_format : Formats ℕ
any_format = record {
  is_object = λ v. true;
  has_field = λ v field. false;
  encoded_length = λ v. ok 1;
  is_base64 = λ s. true;
}

host_publish-Published_example :
    Published any_format
      (ok tt)
      two_browsers
      lobby
      tag_first
      (host_publish any_format (ok tt) two_browsers lobby tag_first)
host_publish-Published_example =
    host_publish-Published any_format (ok tt) two_browsers lobby tag_first

abbrev silent : Handler any_format
silent = record {
  is_stopping = false;
  authority_before = ok tt;
  answer = λ event connections. ok [];
  authority_after = ok tt;
}

abbrev connected : Transport
connected = record { has_authority = true; is_stopping = false; is_connected = true }

abbrev no_response : String → Option String
no_response m = none

abbrev waiting : Session ℕ
waiting = record {
  connection = browser "a";
  pending = ActorSocketMessage.text "m" ∷ [];
  handler = some (connect (browser "a"));
}

waiting-Sessions :
    Sessions (browser "a") (ActorSocketMessage.text "m" ∷ []) (connect (browser "a") ∷ []) 0 waiting
unfolding enqueue receive
waiting-Sessions = receives connected no_response (Inbound.text "m") refl begins

Sessions-InOrder_example :
    InOrder (browser "a") (ActorSocketMessage.text "m" ∷ []) (connect (browser "a") ∷ []) 0 waiting
Sessions-InOrder_example = Sessions-InOrder (browser "a") waiting-Sessions
