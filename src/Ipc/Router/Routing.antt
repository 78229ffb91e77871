-- ===== src/Ipc/Router/Routing.antt =====
-- What the router answers, and when a handler runs.
use omacalendar.Base.Int.{negsuc}
use omacalendar.Base.{
  ◌≡◌, refl, inl, inr, Bool, true, false, not, ◌&&◌, ◌||◌, Option, none, some, arith, if◌then◌else◌,
  Bool-cases, is_empty,
}
use omacalendar.Ipc.{
  null, JsonObject, value, contains, to_string, to_object, to_int, is_missing, is_undefined,
  is_object,
}
use omacalendar.Ipc.Router.{
  Handler, Handlers, Routed, protocol_major, eq_ℤ, permanent, find_handler, refuse, answer,
  route_found, route,
}

-- A request that can reach a handler: it has an id, the protocol of the daemon and a method, and its
-- parameters are an object, if it has any.
abbrev pub is_callable : JsonObject → Bool
is_callable request =
    not (is_missing (value request "id"))
    && eq_ℤ (to_int (value request "protocolMajor") (negsuc 0)) protocol_major
    && not (is_empty (to_string (value request "method")))
    && (is_undefined (value request "params") || is_object (value request "params"))

module _ {World : Type 0} where
  -- The answer is the handler's, or an error with the request's id, if it has one.
  abbrev pub IsRefused : JsonObject → World → Routed World → Type 0
  IsRefused request w r =
      (contains r.response "error" ≡ true)
      × (contains r.response "result" ≡ false)
      × (value r.response "id"
          ≡ (if is_missing (value request "id") then null else value request "id"))
      × (r.world ≡ w)
      × (r.is_attached ≡ true)

  abbrev pub IsAnswered : Option (Handler World) → JsonObject → World → Routed World → Type 0
  IsAnswered none request w r = IsRefused request w r
  IsAnswered (some handler) request w r =
      (is_callable request ≡ true
        → r ≡ answer (value request "id") (handler (to_object (value request "params")) w))
      × (is_callable request ≡ false → IsRefused request w r)

  route_found-IsAnswered :
      (found : Option (Handler World)) (request : JsonObject) (w : World)
      → is_missing (value request "id") ≡ false
      → eq_ℤ (to_int (value request "protocolMajor") (negsuc 0)) protocol_major ≡ true
      → is_empty (to_string (value request "method")) ≡ false
      → IsAnswered found request w (route_found found request w)
  unfolding route_found
  route_found-IsAnswered none request w i p m = rw i (refl, refl, refl, refl, refl)
  route_found-IsAnswered (some handler) request w i p m =
      elim (Bool-cases
        (not (is_undefined (value request "params")) && not (is_object (value request "params")))) [
          | inl e ↦ ((λ c. absurd (ground arith)), (λ c. rw (e, i) (refl, refl, refl, refl, refl)))
          | inr e ↦ ((λ c. rw e refl), (λ c. absurd (ground arith)))
        ]

  refuse-IsAnswered :
      (found : Option (Handler World)) (request : JsonObject) (w : World) (r : Routed World)
      → is_callable request ≡ false
      → IsRefused request w r
      → IsAnswered found request w r
  refuse-IsAnswered none request w r n f = f
  refuse-IsAnswered (some handler) request w r n f = ((λ c. cc (c, n)), (λ _. f))

  -- A request runs the handler of its method, once, with its parameters, or the empty object, if it is
  -- callable and has a handler; the response is the handler's, and the state the one it leaves.
  -- Otherwise the response is an error under the request's id, and the state stays as it is.
  pub route-IsAnswered :
      (handlers : Handlers World) (request : JsonObject) (w : World)
      → IsAnswered
          (find_handler (to_string (value request "method")) handlers)
          request
          w
          (route handlers request w)
  unfolding route
  route-IsAnswered handlers request w = elim (Bool-cases (is_missing (value request "id"))) [
    | inl i ↦ rw i (
        refuse-IsAnswered _ request w
          (refuse w null (permanent "invalid_request" "Request id is required")) (ground arith)
          (rw i (refl, refl, refl, refl, refl)))
    | inr i ↦
        elim (Bool-cases
          (eq_ℤ (to_int (value request "protocolMajor") (negsuc 0)) protocol_major)) [
            | inr p ↦
                rw (i, p)
                  (refuse-IsAnswered _ request w
                    (refuse w (value request "id")
                      (permanent "incompatible_protocol" "Unsupported IPC protocol major"))
                    (ground arith) (rw i (refl, refl, refl, refl, refl)))
            | inl p ↦ elim (Bool-cases (is_empty (to_string (value request "method")))) [
              | inl m ↦
                  rw (i, p, m)
                    (refuse-IsAnswered _ request w
                      (refuse w (value request "id")
                        (permanent "invalid_request" "Method is required"))
                      (ground arith) (rw i (refl, refl, refl, refl, refl)))
              | inr m ↦
                  rw (i, p, m)
                    (route_found-IsAnswered
                      (find_handler (to_string (value request "method")) handlers) request w i p m)
            ]
          ]
  ]
