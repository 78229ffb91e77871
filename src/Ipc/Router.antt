-- ===== src/Ipc/Router.antt =====
-- `RequestRouter` of src/ipc/requestrouter.cpp. A handler is code of the daemon that reads and
-- writes its state, `World`; the error that it fills counts if its code is not empty.
pub mod Routing
mod Tests
use omacalendar.Base.Int.{ℤ, pos, negsuc, pos_part, neg_part}
use omacalendar.Base.{
  String, Bool, true, false, not, ◌&&◌, Option, none, some, List, [], ◌∷◌, ◌==◌, if◌then◌else◌,
  str_eq, is_empty, str_append,
}
use omacalendar.Ipc.{
  JsonValue, null, object, JsonObject, value, to_string, to_object, to_int, is_missing,
  is_undefined, is_object, Error, success_response, error_response,
}

-- What a handler leaves: the value, the error, the state, and whether the client is still attached
-- (a handler can close the connection that it answers).
pub record Outcome (World : Type 0) : Type 0 where
  pub result : JsonValue
  pub error : Error
  pub world : World
  pub is_attached : Bool

abbrev pub Handler : Type 0 → Type 0
Handler World = JsonObject → World → Outcome World

abbrev pub Handlers : Type 0 → Type 0
Handlers World = List (String × Handler World)

-- The answer of the router, with the state that it leaves.
pub record Routed (World : Type 0) : Type 0 where
  pub response : JsonObject
  pub world : World
  pub is_attached : Bool

abbrev pub protocol_major : ℤ
protocol_major = pos 2

abbrev pub eq_ℤ : ℤ → ℤ → Bool
eq_ℤ a b = (pos_part a == pos_part b) && (neg_part a == neg_part b)

abbrev pub permanent : String → String → Error
permanent code message = record { code = code; message = message; retryable = false }

module _ {World : Type 0} where
  -- `QHash::insert` replaces the handler that the method has.
  unfoldable pub register_handler : String → Handler World → Handlers World → Handlers World
  register_handler method handler [] = (method, handler) ∷ []
  register_handler method handler ((m, g) ∷ handlers) =
      let rest = register_handler method handler handlers in
      if str_eq m method then (method, handler) ∷ handlers else (m, g) ∷ rest

  unfoldable pub find_handler : String → Handlers World → Option (Handler World)
  find_handler method [] = none
  find_handler method ((m, g) ∷ handlers) =
      if str_eq m method then some g else find_handler method handlers

  abbrev pub refuse : World → JsonValue → Error → Routed World
  refuse w id error = record { response = error_response id error; world = w; is_attached = true }

  abbrev pub answer : JsonValue → Outcome World → Routed World
  answer id o = record {
    response =
        if is_empty o.error.code then success_response id o.result else error_response id o.error;
    world = o.world;
    is_attached = o.is_attached;
  }

  -- The handler was found, or it was not.
  unfoldable pub route_found : Option (Handler World) → JsonObject → World → Routed World
  route_found none request w = refuse w (value request "id") (
      permanent "method_not_found"
        (str_append "Unknown method: " (to_string (value request "method"))))
  route_found (some handler) request w =
      if not (is_undefined (value request "params")) && not (is_object (value request "params"))
      then refuse w (value request "id") (permanent "invalid_params" "Params must be an object")
      else answer (value request "id") (handler (to_object (value request "params")) w)

  unfoldable pub route : Handlers World → JsonObject → World → Routed World
  unfolding find_handler route_found
  route handlers request w =
      if is_missing (value request "id")
      then refuse w null (permanent "invalid_request" "Request id is required")
      else if not (eq_ℤ (to_int (value request "protocolMajor") (negsuc 0)) protocol_major)
      then refuse w (value request "id")
          (permanent "incompatible_protocol" "Unsupported IPC protocol major")
      else if is_empty (to_string (value request "method"))
      then refuse w (value request "id") (permanent "invalid_request" "Method is required")
      else route_found (find_handler (to_string (value request "method")) handlers) request w
