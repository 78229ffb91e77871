-- ===== src/Ipc/Router/Tests.antt =====
-- A router with one handler, which counts its calls.
use omacalendar.Base.Int.{pos}
use omacalendar.Base.{ℕ, suc, ◌≡◌, refl, true, false, [], ◌∷◌}
use omacalendar.Ipc.{number, text, JsonObject, no_member, member, contains}
use omacalendar.Ipc.Router.{Outcome, Handlers, register_handler, find_handler, route}
use omacalendar.Ipc.Router.Routing.{IsAnswered, route-IsAnswered}

abbrev count_call : JsonObject → ℕ → Outcome ℕ
count_call params n = record {
  result = number (pos n);
  error = record { code = ""; message = ""; retryable = false };
  world = suc n;
  is_attached = true;
}

abbrev router : Handlers ℕ
router = ("ping", count_call) ∷ []

abbrev ping : JsonObject
ping =
    member "id" (text "a")
      (member "protocolMajor" (number (pos 2)) (member "method" (text "ping") no_member))

abbrev unknown : JsonObject
unknown =
    member "id" (text "b")
      (member "protocolMajor" (number (pos 2)) (member "method" (text "pong") no_member))

route-IsAnswered_example : IsAnswered (find_handler "ping" router) ping 4 (route router ping 4)
route-IsAnswered_example = route-IsAnswered router ping 4

ping_test : (route router ping 4).world ≡ 5
unfolding route
ping_test = refl

unknown_test : contains (route router unknown 4).response "error" ≡ true
unfolding route
unknown_test = refl

register_test : register_handler "ping" count_call [] ≡ router
unfolding register_handler
register_test = refl
