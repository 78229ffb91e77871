-- ===== src/Ipc.antt =====
-- The local socket between the daemon and its clients, src/ipc: ipcprotocol.cpp, requestrouter.cpp,
-- ipcserver.cpp and ipcclient.cpp. A frame is a line of bytes. What the code uses of QJsonObject and
-- QJsonValue is here; the text of JSON (QJsonDocument) is an argument.
pub mod Framing
pub mod Router
pub mod Server
use omacalendar.Base.Int.{ℤ}
use omacalendar.Base.{
  ℕ, ◌*◌, String, Bool, true, false, ◌||◌, List, [], ◌∷◌, ◌++◌, if◌then◌else◌, str_eq,
}

-- A number that is not an integer is a `fraction`, of which the code reads nothing.
mutual
  pub data JsonValue : Type 0 where
    undefined null fraction : JsonValue
    boolean : Bool → JsonValue
    number : ℤ → JsonValue
    text : String → JsonValue
    array : JsonArray → JsonValue
    object : JsonObject → JsonValue

  pub data JsonArray : Type 0 where
    no_item : JsonArray
    item : JsonValue → JsonArray → JsonArray

  pub data JsonObject : Type 0 where
    no_member : JsonObject
    member : String → JsonValue → JsonObject → JsonObject

-- `QJsonObject::value` and `contains`.
abbrev pub value : JsonObject → String → JsonValue
value no_member key = undefined
value (member k v o) key = if str_eq k key then v else value o key

abbrev pub contains : JsonObject → String → Bool
contains no_member key = false
contains (member k v o) key = str_eq k key || contains o key

-- `toString`, `toBool`, `toObject`, and `toInt` with its default.
abbrev pub to_string : JsonValue → String
to_string (text s) = s
to_string _ = ""

abbrev pub to_bool : JsonValue → Bool
to_bool (boolean b) = b
to_bool _ = false

abbrev pub to_object : JsonValue → JsonObject
to_object (object o) = o
to_object _ = no_member

abbrev pub to_int : JsonValue → ℤ → ℤ
to_int (number n) default = n
to_int _ default = default

abbrev pub is_missing : JsonValue → Bool
is_missing undefined = true
is_missing null = true
is_missing _ = false

abbrev pub is_undefined : JsonValue → Bool
is_undefined undefined = true
is_undefined _ = false

abbrev pub is_object : JsonValue → Bool
is_object (object o) = true
is_object _ = false

pub record Error : Type 0 where
  pub code : String
  pub message : String
  pub retryable : Bool

abbrev pub success_response : JsonValue → JsonValue → JsonObject
success_response id result = member "id" id (member "result" result no_member)

abbrev pub error_response : JsonValue → Error → JsonObject
error_response id error = member "id" id (
    member "error"
      (object (
        member "code" (text error.code) (
          member "message" (text error.message)
            (member "retryable" (boolean error.retryable) no_member))))
      no_member)

abbrev pub notification : String → JsonObject → JsonObject
notification event data_of = member "event" (text event) (member "data" (object data_of) no_member)

abbrev pub maximum_frame_bytes : ℕ
maximum_frame_bytes = 1024 * 1024

abbrev pub newline_byte : ℕ
newline_byte = 10

-- `toJson` is `QJsonDocument::toJson` in its compact form.
abbrev pub frame : (JsonObject → List ℕ) → JsonObject → List ℕ
frame to_json o = to_json o ++ newline_byte ∷ []
