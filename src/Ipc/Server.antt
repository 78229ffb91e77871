-- ===== src/Ipc/Server.antt =====
-- The frames of one client of `IpcServer`, src/ipc/ipcserver.cpp: `read`, `send`, `applySubscription`,
-- `topicMatches` and `broadcast`. The parser of JSON, and `trimmed` of QString, are arguments.
pub mod Serving
mod Tests
use Prim.Native.Char.{code}
use omacalendar.Base.{
  ℕ, ◌*◌, String, Bool, true, false, not, ◌&&◌, ◌||◌, Option, none, some, List, [], ◌∷◌, ◌++◌, ltb,
  leb, ◌==◌, if◌then◌else◌, length, any, str_eq, is_empty, str_append,
}
use omacalendar.Ipc.{
  JsonValue, null, array, object, JsonArray, no_item, item, JsonObject, value, contains, to_string,
  to_bool, to_object, Error, error_response, notification, frame,
}
use omacalendar.Ipc.Framing.{Extraction, receive}
use omacalendar.Ipc.Router.{Handlers, Routed, permanent, route}

pub record Client : Type 0 where
  pub buffer : List ℕ
  pub topics : List String
  pub subscribed : Bool

-- One client as the server sees it: none when it is detached, what was written to it, and whether the
-- server has asked to disconnect.
pub record Session (World : Type 0) : Type 0 where
  pub client : Option Client
  pub written : List (List ℕ)
  pub disconnecting : Bool
  pub world : World

-- Which code is not here: `QJsonDocument::toJson` and `fromJson` (none on an error), `trimmed`.
pub record QtCode : Type 0 where
  pub to_json : JsonObject → List ℕ
  pub from_json : List ℕ → Option JsonValue
  pub trimmed : String → String

-- `QByteArray::trimmed().isEmpty()`.
abbrev pub is_space : ℕ → Bool
is_space c = (leb 9 c && leb c 13) || (c == 32)

abbrev pub is_blank : List ℕ → Bool
is_blank raw = not (any (λ c. not (is_space c)) raw)

abbrev pub topic_names : QtCode → JsonArray → List String
topic_names qt no_item = []
topic_names qt (item v vs) =
    let topic = qt.trimmed (to_string v) in
    let rest = topic_names qt vs in if is_empty topic then rest else topic ∷ rest

abbrev pub is_array : JsonValue → Bool
is_array (array vs) = true
is_array _ = false

abbrev pub topics_of : QtCode → JsonValue → List String
topics_of qt (array vs) = topic_names qt vs
topics_of qt _ = "*" ∷ []

-- Whether the response subscribes, and to what.
abbrev pub subscribes : JsonObject → JsonObject → Bool
subscribes request response =
    str_eq (to_string (value request "method")) "system.subscribe"
    && not (contains response "error")
    && to_bool (value (to_object (value response "result")) "subscribed")

abbrev pub topics_value : JsonObject → JsonObject → JsonValue
topics_value request response =
    let granted = value (to_object (value response "result")) "topics" in
    if is_array granted then granted else value (to_object (value request "params")) "topics"

unfoldable pub apply_subscription : QtCode → JsonObject → JsonObject → Client → Client
apply_subscription qt request response client =
    if subscribes request response
    then record client { topics = topics_of qt (topics_value request response); subscribed = true }
    else client

-- What `send` writes.
unfoldable pub sent_bytes : QtCode → ℕ → JsonObject → List ℕ
sent_bytes qt maximum message =
    if ltb maximum (length (frame qt.to_json message))
    then frame qt.to_json (
        error_response (value message "id")
          (permanent "response_too_large" "Response must be requested in smaller pages"))
    else frame qt.to_json message

abbrev pub parse_error : Error
parse_error = permanent "parse_error" "Request is not valid JSON"

module _ {World : Type 0} (qt : QtCode) (maximum : ℕ) (handlers : Handlers World) where
  unfoldable pub send : JsonObject → Session World → Session World
  unfolding sent_bytes
  send message s = record s { written = s.written ++ sent_bytes qt maximum message ∷ [] }

  -- After the routing: the client may have gone.
  unfoldable pub respond : JsonObject → Client → Routed World → Session World → Session World
  unfolding apply_subscription send
  respond request client r s =
      if r.is_attached
      then send r.response (record s {
        client = some (apply_subscription qt request r.response client);
        world = r.world;
      })
      else record s { client = none; world = r.world }

  unfoldable pub handle_document : Option JsonValue → Client → Session World → Session World
  unfolding route respond send
  handle_document (some (object request)) client s =
      respond request client (route handlers request s.world) s
  handle_document _ client s = send (error_response null parse_error) s

  -- The body of the loop over the frames.
  unfoldable pub handle_frame : Option Client → List ℕ → Session World → Session World
  unfolding handle_document
  handle_frame none raw s = s
  handle_frame (some client) raw s =
      if is_blank raw then s else handle_document (qt.from_json raw) client s

  unfoldable pub handle_frames : List (List ℕ) → Session World → Session World
  unfolding handle_frame
  handle_frames [] s = s
  handle_frames (raw ∷ frames) s = handle_frames frames (handle_frame s.client raw s)

  -- `read`, for a client that is attached.
  unfoldable pub read_extracted : Extraction → Client → Session World → Session World
  unfolding handle_frames
  read_extracted e client s =
      if e.oversized
      then record s { client = some (record client { buffer = e.rest }); disconnecting = true }
      else handle_frames e.frames (record s { client = some (record client { buffer = e.rest }) })

  unfoldable pub read_client : Option Client → List ℕ → Session World → Session World
  unfolding receive read_extracted
  read_client none bytes s = s
  read_client (some client) bytes s = read_extracted (receive maximum client.buffer bytes) client s

  unfoldable pub read : List ℕ → Session World → Session World
  unfolding read_client
  read bytes s = read_client s.client bytes s

  -- `readyRead` after each of the pieces that a stream of bytes comes in.
  unfoldable pub read_all : List (List ℕ) → Session World → Session World
  unfolding read
  read_all [] s = s
  read_all (piece ∷ pieces) s = read_all pieces (read piece s)

-- `event.left(indexOf('.'))`, or all of it.
abbrev pub family : String → String
family String.[] = ""
family (String.◌∷◌ c s) = let rest = family s in if code c == b'.' then "" else String.◌∷◌ c rest

unfoldable pub topic_matches : List String → String → Bool
topic_matches topics event =
    any (λ t. str_eq t "*") topics
    || any (λ t. str_eq t event) topics
    || any (λ t. str_eq t (family event)) topics
    || any (λ t. str_eq t (str_append (family event) ".*")) topics

-- `broadcast`, to one of the clients.
unfoldable pub broadcast_to :
    {World : Type 0} → QtCode → String → JsonObject → Session World → Session World
unfolding topic_matches
broadcast_to qt event data_of s = elim s.client [
  | none ↦ s
  | some client ↦
      if client.subscribed && topic_matches client.topics event
      then record s { written = s.written ++ frame qt.to_json (notification event data_of) ∷ [] }
      else s
]
