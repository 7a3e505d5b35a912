-- ===== src/Http/Gate.antt =====
-- http_server.cpp: what every lookup request passes first, `authenticate_request`,
-- `get_real_client_ip` and `prepare_request`.

pub mod Authentication
pub mod Admission
use ip_server.Base.{
  ℕ, Bool, true, false, not, List, [], ◌∷◌, Option, none, some, if◌then◌else◌, ◌>>=◌, drop,
}
use ip_server.Base.Text.{Str, codes, empty, starts_with, find_char, substr}
use ip_server.Base.Trim.{trim}
use ip_server.Json.{Json}
use ip_server.Auth.{ApiAuth, is_valid}
use ip_server.RateLimiter.{RateLimiter, is_allowed, get_remaining}
use ip_server.Http.{Request, Response, Server, send_json_response, send_error_response, set_header}

-- The characters of `" \t"`.
abbrev pub spaces : Str
spaces = b' ' ∷ 9 ∷ []

-- The part of the method after the `X-Forwarded-For` header is found.
unfoldable pub first_forwarded : Str → Str
first_forwarded xff = elim (find_char xff b',') [
  | none ↦ xff
  | some comma_pos ↦
      let first_ip = substr xff 0 comma_pos in
      elim (trim spaces first_ip) [ none ↦ first_ip | some ip ↦ ip ]
]

unfoldable pub get_real_client_ip : Request → Str
get_real_client_ip req =
    let xff = req.header_value (codes "X-Forwarded-For") in
    let xri = req.header_value (codes "X-Real-IP") in
    if not (empty xff)
    then first_forwarded xff
    else if not (empty xri)
    then xri
    else req.remote_addr

module _ (J : Json) (sha256 : Str → List ℕ) where
  -- A refusal with 401.
  unfoldable pub unauthorized : Str → Response J → Response J
  unauthorized message res = send_error_response J 401 (codes "Unauthorized") message res

  -- The checks of the header, once authentication is on.
  unfoldable pub check_header : ApiAuth → Str → Response J → Response J × Bool
  check_header auth auth_header res =
      let bearer = set_header J (codes "WWW-Authenticate") (codes "Bearer") in
      if empty auth_header
      then (bearer (unauthorized (codes "Missing API key in Authorization header") res), false)
      else if not (starts_with auth_header (codes "Bearer "))
      then (
        bearer (
            unauthorized (codes "Invalid Authorization header format. Expected: Bearer <api_key>")
              res),
        false,
      )
      else if not (is_valid sha256 (drop 7 auth_header) auth)
      then (unauthorized (codes "Invalid API key") res, false)
      else (res, true)

module _ (J : Json) (sha256 : Str → List ℕ) {Services Latency : Type 0} where
  unfoldable pub authenticate_request :
      Request → Server J Services Latency → Response J → Response J × Bool
  authenticate_request req s res = if not s.enable_api_auth then (res, true) else elim s.api_auth [
    | none ↦ (res, true)
    | some auth ↦ check_header J sha256 auth (req.header_value (codes "Authorization")) res
  ]

  -- The answer to a client that is over the limit, with `get_remaining` at the reading `third`.
  unfoldable pub too_many :
      ℕ
      → Str
      → RateLimiter
      → Server J Services Latency
      → Response J
      → Server J Services Latency × Response J
  too_many third client_ip limiter s res =
      let (limiter', remaining) = get_remaining client_ip third limiter in
      let error =
        J.set_member (codes "remaining") (J.of_int remaining)
          (J.set_member (codes "error") (J.of_str (codes "Rate limit exceeded")) J.no_members) in
      (
        record s { rate_limiter = some limiter' },
        set_header J (codes "Retry-After") (codes "60")
            (send_json_response J (J.of_object error) 429 res),
      )

  -- The rate limit of `prepare_request`. A limiter that is on but missing is undefined behaviour.
  unfoldable pub limit_request :
      (now later third : ℕ)
      → Str
      → Server J Services Latency
      → Response J
      → Option (Server J Services Latency × Response J × Option Str)
  limit_request now later third client_ip s res =
      if not s.enable_rate_limiter then some (s, res, some client_ip) else (do
        limiter ← s.rate_limiter
        (limiter', allowed) ← is_allowed client_ip now later limiter
        let (s', res') = too_many third client_ip limiter' s res
        if allowed
            then some (record s { rate_limiter = some limiter' }, res, some client_ip)
            else some (s', res', none))

  unfoldable pub prepare_request :
      (now later third : ℕ)
      → Request
      → Server J Services Latency
      → Response J
      → Option (Server J Services Latency × Response J × Option Str)
  prepare_request now later third req s res =
      let (res', authentic) = authenticate_request req s res in
      let client_ip = get_real_client_ip req in
      let unknown =
        send_error_response J 400 (codes "Bad Request")
          (codes "Unable to determine source IP address") res' in
      if not authentic
      then some (s, res', none)
      else if empty client_ip
      then some (s, unknown, none)
      else limit_request now later third client_ip s res'
