-- ===== src/Ipc/Server/Tests.antt =====
-- A client that sends two requests, in pieces that are cut inside them.
use omacalendar.Base.Int.{pos}
use omacalendar.Base.{
  ℕ, suc, String, ◌≡◌, refl, true, false, none, some, List, [], ◌∷◌, arith, ◌==◌, if◌then◌else◌,
  str_eq,
}
use omacalendar.Ipc.{
  number, text, object, JsonObject, no_member, member, value, to_string, newline_byte,
}
use omacalendar.Ipc.Router.{Outcome, Handlers}
use omacalendar.Ipc.Server.{Session, QtCode, read_all, topic_matches}
use omacalendar.Ipc.Server.Serving.{serve, read_all-serve}

abbrev request_of : String → JsonObject
request_of method =
    member "id" (text "a")
      (member "protocolMajor" (number (pos 2)) (member "method" (text method) no_member))

-- The text of a request is `{}` for a ping and `[]` for others.
abbrev qt : QtCode
qt = record {
  to_json = λ o.
      if str_eq (to_string (value o "method")) "ping" then b'{' ∷ b'}' ∷ [] else b'[' ∷ b']' ∷ [];
  from_json = λ raw. elim raw [
    | [] ↦ none
    | c ∷ rest ↦ some (object (request_of (if c == b'{' then "ping" else "pong")))
  ];
  trimmed = λ s. s;
}

abbrev count_call : JsonObject → ℕ → Outcome ℕ
count_call params n = record {
  result = number (pos n);
  error = record { code = ""; message = ""; retryable = false };
  world = suc n;
  is_attached = true;
}

abbrev router : Handlers ℕ
router = ("ping", count_call) ∷ []

abbrev session : Session ℕ
session = record {
  client = some (record { buffer = []; topics = []; subscribed = false });
  written = [];
  disconnecting = false;
  world = 0;
}

abbrev requests : List JsonObject
requests = request_of "ping" ∷ request_of "pong" ∷ []

abbrev pieces : List (List ℕ)
pieces = (b'{' ∷ []) ∷ (b'}' ∷ newline_byte ∷ b'[' ∷ []) ∷ (b']' ∷ newline_byte ∷ []) ∷ []

read_all-serve_example :
    read_all qt 100 router pieces session ≡ serve qt 100 router requests session
read_all-serve_example =
    read_all-serve qt 100 router requests pieces session
      (((refl, omega arith), refl, refl), (((refl, omega arith), refl, refl), tt)) refl refl

served_test : (read_all qt 100 router pieces session).world ≡ 1
unfolding read_all
served_test = refl

topic_test : topic_matches ("event.*" ∷ []) "event.changed" ≡ true
unfolding topic_matches
topic_test = refl
