-- ===== src/Http/Lookup.antt =====
-- http_server.cpp, `handle_lookup_get`. The address tests of the system are parameters; `latency`
-- is what the timer measures.
pub mod Answers
use ip_server.Base.{
  ◌⊎◌, inl, inr, ℕ, Bool, not, ◌&&◌, List, ◌++◌, Option, none, some, if◌then◌else◌, ◌>>=◌, inl, inr,
}
use ip_server.Base.Text.{Str, codes, empty}
use ip_server.Json.{Json}
use ip_server.Validation.{is_valid_ip_format, is_valid_mac_format}
use ip_server.Metrics.{record_request, record_error}
use ip_server.Http.{
  Request, Response, Server, LookupHandler, Thrown, json_error, other_error, send_error_response,
  set_content,
}
use ip_server.Http.Gate.{prepare_request}

-- `e.what()`.
unfoldable pub what : Thrown → Str
what (json_error e) = e
what (other_error e) = e

module _ (J : Json) {Services Latency : Type 0} (second : ℕ) where
  -- What follows the call of the handler, and the `catch` clause.
  unfoldable pub handled :
      ℕ
      → Latency
      → Server J Services Latency
      → Response J
      → Services × (Thrown ⊎ J.Value)
      → Server J Services Latency × Response J
  handled now latency s res (services', inr value) = (
    record s { services = services'; metrics = record_request second now latency s.metrics },
    set_content J value res,
  )
  handled now latency s res (services', inl e) = (
    record s { services = services'; metrics = record_error s.metrics },
    set_content J (J.of_object (J.set_member (codes "error") (J.of_str (what e)) J.no_members))
        (record res { status = some 500 }),
  )

  unfoldable pub call_handler :
      ℕ
      → Latency
      → LookupHandler J Services
      → Str
      → Server J Services Latency
      → Response J
      → Server J Services Latency × Response J
  call_handler now latency handler query s res =
      handled now latency s res (handler query s.services)

  -- The part from the choice of the handler on.
  unfoldable pub answer_query :
      ℕ
      → Latency
      → Bool
      → Bool
      → Str
      → Option (LookupHandler J Services)
      → Server J Services Latency
      → Response J
      → Server J Services Latency × Response J
  answer_query now latency is_mac valid query handler s res =
      if not valid
      then (
        s,
        send_error_response J 400 (codes "Bad Request")
            (if is_mac
              then codes "Invalid MAC address format"
              else codes "Invalid IP address format")
            res,
      )
      else elim handler [
        | none ↦ (
          s,
          send_error_response J 500 (codes "Internal Server Error")
              ((if is_mac then codes "MAC" else codes "IP")
                ++ codes " lookup handler not configured")
              res,
        )
        | some h ↦ call_handler now latency h query s res
      ]

  -- The part behind `prepare_request`.
  unfoldable pub lookup_query :
      (Str → Bool)
      → (Str → Bool)
      → ℕ
      → Latency
      → Request
      → Str
      → Server J Services Latency
      → Response J
      → Server J Services Latency × Response J
  lookup_query inet_pton getaddrinfo now latency req client_ip s res =
      let mac_param = req.param_value (codes "mac") in
      let ip_param = req.param_value (codes "ip") in
      let is_mac = not (empty mac_param) in
      let query = if is_mac then mac_param else if empty ip_param then client_ip else ip_param in
      let handler = if is_mac then s.mac_lookup_handler else s.lookup_handler in
      let valid =
        if is_mac
        then is_valid_mac_format query
        else is_valid_ip_format inet_pton getaddrinfo query in
      if not (empty mac_param) && not (empty ip_param)
      then (
        s,
        send_error_response J 400 (codes "Bad Request")
            (codes "Cannot specify both 'ip' and 'mac' parameters simultaneously") res,
      )
      else answer_query now latency is_mac valid query handler s res

  unfoldable pub handle_lookup_get :
      (Str → List ℕ)
      → (Str → Bool)
      → (Str → Bool)
      → (now later third done : ℕ) → Latency
      → Request
      → Server J Services Latency
      → Response J
      → Option (Server J Services Latency × Response J)
  handle_lookup_get sha256 inet_pton getaddrinfo now later third done latency req s res = do
    (s', res', client_ip) ← prepare_request J sha256 now later third req s res
    some (elim client_ip [
      | none ↦ (s', res')
      | some ip ↦ lookup_query inet_pton getaddrinfo done latency req ip s' res'
    ])
