-- ===== src/Http/Routes.antt =====
-- http_server.cpp, `setup_cors` and `setup_routes`: a request of the HTTP library is handed to the
-- handler of its method and path. What a call reads and draws is a record of its own. `none` is
-- undefined behaviour; a path without a route is left to the library, with the response as it is.
pub mod Run
use ip_server.Base.{
  [], ℕ, Bool, List, [], ◌∷◌, Option, none, some, if◌then◌else◌, ◌>>=◌, ◌⊎◌, inl, inr,
}
use ip_server.Base.Text.{Str, codes, str_eq}
use ip_server.Base.Real.{Real}
use ip_server.Json.{Json}
use ip_server.Metrics.{Metrics}
use ip_server.RateLimiter.{cleanup}
use ip_server.Http.{Request, Response, Server, LookupHandler, Thrown, json_error, set_header}
use ip_server.Http.Lookup.{handle_lookup_get}
use ip_server.Http.Batch.{handle_lookup_post}
use ip_server.Http.Pages.{handle_root, handle_health}
use ip_server.PasswordHandler.{handle_get, handle_post}

pub data Method : Type 0 where
  get : Method
  post : Method
  options : Method
  other_method : Method

pub data Route : Type 0 where
  root : Route
  health : Route
  lookup_get : Route
  lookup_post : Route
  password_get : Route
  password_post : Route
  -- The handler for every path that does nothing.
  preflight : Route

-- `setup_routes`, and the route of `setup_cors`.
unfoldable pub route : Method → Str → Option Route
route get path =
    if str_eq path (codes "/")
    then some root
    else if str_eq path (codes "/health")
    then some health
    else if str_eq path (codes "/lookup")
    then some lookup_get
    else if str_eq path (codes "/password/generate")
    then some password_get
    else none
route post path =
    if str_eq path (codes "/lookup")
    then some lookup_post
    else if str_eq path (codes "/password/generate")
    then some password_post
    else none
route options path = some preflight
route other_method path = none

-- The readings of the clocks, the measured times and the random numbers of one call.
pub record Env (Double : Type 0) : Type 0 where
  pub now : ℕ
  pub later : ℕ
  pub third : ℕ
  pub done : ℕ
  pub epoch : ℕ
  pub latency : Double
  pub clock : ℕ → ℕ
  pub latencies : ℕ → Double
  pub draws : ℕ → ℕ → ℕ → ℕ
  pub shuffles : ℕ → Str → Str

-- The code that is not the program's.
pub record System (J : Json) (R : Real) (Services : Type 0) : Type 0 where
  -- The ticks of the steady clock in a second.
  pub second : ℕ
  pub parse : Str → Str ⊎ J.Value
  pub sha256 : Str → List ℕ
  pub inet_pton : Str → Bool
  pub getaddrinfo : Str → Bool
  pub async : LookupHandler J Services → List Str → Services → Services × List (Thrown ⊎ J.Value)
  pub of_double : R.Double → J.Value
  pub calculate_entropy : ℕ → ℕ → R.Double
  pub below : R.Double → ℕ → Bool

module _ {J : Json} {R : Real} {Services : Type 0} (sys : System J R Services) where
  abbrev pub Served : Type 0
  Served = Server J Services R.Double × Response J

  unfoldable pub cors : Response J → Response J
  cors res =
      set_header J (codes "Access-Control-Allow-Headers") (codes "Content-Type, Authorization") (
        set_header J (codes "Access-Control-Allow-Methods") (codes "GET, POST, OPTIONS")
          (set_header J (codes "Access-Control-Allow-Origin") (codes "*") res))

  -- `nlohmann::json::parse`, as the batch handler sees it.
  unfoldable pub parse_body : Str → Thrown ⊎ J.Value
  parse_body body = elim (sys.parse body) [ inl e ↦ inl (json_error e) | inr v ↦ inr v ]

  -- The password handler has the server's metrics.
  unfoldable pub with_metrics :
      Server J Services R.Double → Option (Metrics R.Double × Response J) → Option Served
  with_metrics s out = do (m, res) ← out; some (record s { metrics = m }, res)

  unfoldable pub handle :
      Route → Env R.Double → Request → Server J Services R.Double → Response J → Option Served
  handle root env req s res = some (s, handle_root J res)
  handle health env req s res = do
    res' ← handle_health J R sys.of_double sys.second env.now env.epoch s res
    some (s, res')
  handle lookup_get env req s res =
      handle_lookup_get J sys.second sys.sha256 sys.inet_pton sys.getaddrinfo env.now env.later
        env.third env.done env.latency req s res
  handle lookup_post env req s res =
      handle_lookup_post J sys.second env.clock env.latencies sys.async parse_body sys.sha256
        sys.inet_pton sys.getaddrinfo env.now env.later env.third req s res
  handle password_get env req s res = with_metrics s (
      handle_get J sys.of_double sys.second env.now env.latency sys.calculate_entropy sys.below
        (env.draws 0) (env.shuffles 0) req s.metrics res)
  handle password_post env req s res = with_metrics s (
      handle_post J sys.of_double sys.second env.now env.latency sys.calculate_entropy sys.below
        env.draws env.shuffles s.max_batch_size sys.parse req s.metrics res)
  handle preflight env req s res = some (s, res)

  unfoldable pub serve :
      Method → Str → Env R.Double → Request → Server J Services R.Double → Option Served
  serve method path env req s =
      let res = cors (record { status = none; headers = []; content = none }) in
      elim (route method path) [ none ↦ some (s, res) | some r ↦ handle r env req s res ]

  -- A round of the clean-up thread; its clock is read again and again.
  unfoldable pub clean_up :
      (ℕ → ℕ) → Server J Services R.Double → Option (Server J Services R.Double)
  clean_up clock s = do
    limiter ← s.rate_limiter
    limiter' ← cleanup clock limiter
    some (record s { rate_limiter = some limiter' })

  -- What reaches the server.
  pub data Event : Type 0 where
    request : Method → Str → Env R.Double → Request → Event
    cleanup_round : (ℕ → ℕ) → Event

  -- A sequence of events, with the responses; the clean-up thread runs only on a server that limits.
  unfoldable pub run :
      List Event
      → Server J Services R.Double
      → Option (Server J Services R.Double × List (Response J))
  run [] s = some (s, [])
  run (request method path env req ∷ events) s = do
    (s', res) ← serve method path env req s
    (s'', rest) ← run events s'
    some (s'', res ∷ rest)
  run (cleanup_round clock ∷ events) s = do
    s' ← if s.enable_rate_limiter then clean_up clock s else some s
    run events s'
