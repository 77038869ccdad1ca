-- ===== src/Sockets/Validation.antt =====
-- src/actor/socket.rs: the limits of what an actor may do to its connections.
use Prim.Native.Char.{code}
use durable_actors.Prelude.{
  ℕ, suc, ◌+◌, ◌*◌, String, Bool, true, false, not, ◌&&◌, ◌||◌, List, [], ◌∷◌, Option, none, some,
  ltb, leb, ◌==◌, if◌then◌else◌, length, Result, ok, ◌>>=◌, ◌>>◌, ensure,
}
use durable_actors.Sockets.{
  ActorSocketMessage, text, binary, ActorSocketEffect, set_auto_response, state_snapshot,
  state_update, broadcast, set_metadata, set_tags, send, close, reject,
}

-- `str::len`, the bytes in UTF-8, and `chars().count()`.
abbrev pub utf8_width : ℕ → ℕ
utf8_width c = if ltb c 0x80 then 1 else if ltb c 0x800 then 2 else if ltb c 0x10000 then 3 else 4

abbrev pub byte_length : String → ℕ
byte_length String.[] = 0
byte_length (String.◌∷◌ c s) = utf8_width (code c) + byte_length s

abbrev pub count_chars : String → ℕ
count_chars String.[] = 0
count_chars (String.◌∷◌ c s) = suc (count_chars s)

abbrev pub max_socket_metadata_bytes : ℕ
max_socket_metadata_bytes = 16 * 1024

abbrev pub max_socket_connection_id_bytes : ℕ
max_socket_connection_id_bytes = 128

abbrev pub max_socket_tags : ℕ
max_socket_tags = 10

abbrev pub max_socket_tag_characters : ℕ
max_socket_tag_characters = 256

abbrev pub max_socket_close_reason_bytes : ℕ
max_socket_close_reason_bytes = 123

unfoldable pub validate_connection_id : String → Result (Unit {0})
validate_connection_id id = do
  ensure (not (byte_length id == 0)) "socket connection ID is empty"
  ensure (leb (byte_length id) max_socket_connection_id_bytes)
      "socket connection ID exceeds 128 bytes"

unfoldable pub validate_connection_ids : List String → Result (Unit {0})
validate_connection_ids [] = ok tt
validate_connection_ids (id ∷ ids) = do validate_connection_id id; validate_connection_ids ids

unfoldable pub validate_tags : List String → Result (Unit {0})
validate_tags [] = ok tt
validate_tags (tag ∷ tags) = do
  ensure (not (byte_length tag == 0)) "socket tag is empty"
  ensure (leb (count_chars tag) max_socket_tag_characters) "socket tag exceeds 256 characters"
  validate_tags tags

unfoldable pub validate_socket_tags : List String → Result (Unit {0})
validate_socket_tags tags = do
  ensure (leb (length tags) max_socket_tags) "socket tags exceed 10 entries"
  validate_tags tags

unfoldable pub validate_close : ℕ → String → Result (Unit {0})
validate_close code reason = do
  ensure (code == 1000 || (leb 3000 code && leb code 4999))
      "socket close code must be 1000 or between 3000 and 4999"
  ensure (leb (byte_length reason) max_socket_close_reason_bytes)
      "socket close reason exceeds 123 bytes"

abbrev pub is_some : Option String → Bool
is_some none = false
is_some (some s) = true

abbrev pub fits_response : Option String → Bool
fits_response none = true
fits_response (some s) = leb (count_chars s) 2048

-- What the validation asks of the JSON and base64 libraries.
pub record Formats (Value : Type 0) : Type 0 where
  pub is_object : Value → Bool
  pub has_field : Value → String → Bool
  pub encoded_length : Value → Result ℕ
  pub is_base64 : String → Bool

module _ {Value : Type 0} (formats : Formats Value) where
  open formats use {is_object, has_field, encoded_length, is_base64}

  unfoldable pub validate_socket_metadata : Value → Result (Unit {0})
  validate_socket_metadata metadata = do
    bytes ← encoded_length metadata
    ensure (leb bytes max_socket_metadata_bytes) "socket metadata exceeds 16384 bytes"

  abbrev pub validate_public_state : Value → Result (Unit {0})
  validate_public_state value = ensure (is_object value) "public state must be a JSON object"

  abbrev pub validate_socket_message : ActorSocketMessage → Result (Unit {0})
  validate_socket_message (text s) = ok tt
  validate_socket_message (binary s) =
      ensure (is_base64 s) "socket binary message is not valid base64"

  abbrev pub none_changed : Value → List String → Bool
  none_changed changes [] = true
  none_changed changes (field ∷ removed) =
      not (has_field changes field) && none_changed changes removed

  unfoldable pub validate_socket_effect : ActorSocketEffect Value → Result (Unit {0})
  validate_socket_effect (set_auto_response request response) = do
    ensure (if is_some request then is_some response else not (is_some response))
        "automatic response requires both request and response"
    ensure (fits_response request && fits_response response)
        "automatic response exceeds 2048 characters"
  validate_socket_effect (state_snapshot id value version) = do
    validate_connection_id id
    validate_public_state value
  validate_socket_effect (state_update changes removed except_connection_ids version) = do
    validate_public_state changes
    ensure (none_changed changes removed) "state field is both changed and removed"
    validate_connection_ids except_connection_ids
  validate_socket_effect (send id m) = do validate_connection_id id; validate_socket_message m
  validate_socket_effect (broadcast m except_connection_ids tags tag_match) = do
    validate_connection_ids except_connection_ids
    validate_socket_tags tags
    validate_socket_message m
  validate_socket_effect (close id code reason) = do
    validate_connection_id id
    validate_close code reason
  validate_socket_effect (reject id code reason) = do
    validate_connection_id id
    validate_close code reason
  validate_socket_effect (set_metadata id metadata) = do
    validate_connection_id id
    validate_socket_metadata metadata
  validate_socket_effect (set_tags id tags) = do
    validate_connection_id id
    validate_socket_tags tags

  unfoldable pub validate_socket_effects : List (ActorSocketEffect Value) → Result (Unit {0})
  validate_socket_effects [] = ok tt
  validate_socket_effects (effect ∷ effects) = do
    validate_socket_effect effect
    validate_socket_effects effects
