-- ===== src/Http.antt =====
-- src/http_server.cpp, `IPGeoHTTPServer`: requests, responses and the server's state. The HTTP
-- library gives the headers and parameters of a request (empty when absent) and takes a status, headers
-- and a body; the body is kept as the JSON value that the source dumps into it, and a dump is
-- taken to succeed. A status that is not set is the library's 200. Log lines are left out.
pub mod Gate
pub mod Setup
pub mod Lookup
pub mod Batch
pub mod Pages
pub mod Routes
pub mod Lifecycle
use ip_server.Base.{
  ℕ, ◌*◌, Bool, true, false, List, [], ◌∷◌, ◌++◌, Option, none, some, if◌then◌else◌, ◌⊎◌,
}
use ip_server.Base.Int.{ℤ}
use ip_server.Base.Text.{Str, codes, empty}
use ip_server.Json.{Json}
use ip_server.Auth.{ApiAuth, add_key, load_keys_from_file}
use ip_server.RateLimiter.{RateLimiter, init}
use ip_server.Cache.{CacheStats}
use ip_server.Metrics.{Metrics, new_metrics}
use ip_server.Config.{ServerConfig}

pub record Request : Type 0 where
  pub header_value : Str → Str
  pub param_value : Str → Str
  pub remote_addr : Str
  pub body : Str

-- An exception that leaves a handler: one of the JSON library, or any other.
pub data Thrown : Type 0 where
  json_error : Str → Thrown
  other_error : Str → Thrown

module _ (J : Json) where
  pub record Response : Type 0 where
    pub status : Option ℕ
    pub headers : List (Str × Str)
    pub content : Option J.Value

  -- A lookup handler reads and changes the services behind it.
  abbrev pub LookupHandler : Type 0 → Type 0
  LookupHandler Services = Str → Services → Services × (Thrown ⊎ J.Value)

  pub record Server (Services Latency : Type 0) : Type 0 where
    pub host : Str
    pub port : ℕ
    pub thread_pool_size : ℤ
    pub enable_rate_limiter : Bool
    pub max_batch_size : ℤ
    pub enable_api_auth : Bool
    pub lookup_handler : Option (LookupHandler Services)
    pub mac_lookup_handler : Option (LookupHandler Services)
    pub cache_stats_handler : Option (Services → CacheStats)
    pub rate_limiter : Option RateLimiter
    pub api_auth : Option ApiAuth
    pub metrics : Metrics Latency
    pub services : Services

  unfoldable pub send_json_response : J.Value → ℕ → Response → Response
  send_json_response value status res = record res { status = some status; content = some value }

  unfoldable pub send_error_response : ℕ → Str → Str → Response → Response
  send_error_response status error message res = record res {
    status = some status;
    content = some (
        J.of_object (
          J.set_member (codes "message") (J.of_str message)
            (J.set_member (codes "error") (J.of_str error) J.no_members)));
  }

  unfoldable pub set_header : Str → Str → Response → Response
  set_header key value res = record res { headers = res.headers ++ (key, value) ∷ [] }

  unfoldable pub set_content : J.Value → Response → Response
  set_content value res = record res { content = some value }

-- The key store that the constructor builds; `file` has the lines of the key file, if it opens.
unfoldable pub build_auth : (Str → List ℕ) → Option (List Str) → ServerConfig → ApiAuth
build_auth sha256 file config =
    let none_yet : ApiAuth = record { api_key_hashes = [] } in
    let loaded =
      if empty config.api_keys_file
      then none_yet
      else (load_keys_from_file sha256 file none_yet).0 in
    if empty config.default_api_key then loaded else add_key sha256 config.default_api_key loaded

-- The constructor; `second` is the number of clock ticks in a second, and `now` the
-- reading that the metrics make.
unfoldable pub new_server :
    {J : Json} {Services Latency : Type 0}
    → (Str → List ℕ)
    → Option (List Str)
    → (second now : ℕ) → ServerConfig
    → Services
    → Server J Services Latency
new_server sha256 file second now config services = record {
  host = config.host;
  port = config.port;
  thread_pool_size = config.thread_pool_size;
  enable_rate_limiter = config.enable_rate_limiter;
  max_batch_size = config.max_batch_size;
  enable_api_auth = config.enable_api_auth;
  lookup_handler = none;
  mac_lookup_handler = none;
  cache_stats_handler = none;
  rate_limiter =
      if config.enable_rate_limiter
      then some (init config.max_requests_per_minute (60 * second) 10000)
      else none;
  api_auth = if config.enable_api_auth then some (build_auth sha256 file config) else none;
  metrics = new_metrics now;
  services = services;
}

-- The setters.
module _ {J : Json} {Services Latency : Type 0} where
  unfoldable pub set_lookup_handler :
      LookupHandler J Services → Server J Services Latency → Server J Services Latency
  set_lookup_handler handler s = record s { lookup_handler = some handler }

  unfoldable pub set_mac_lookup_handler :
      LookupHandler J Services → Server J Services Latency → Server J Services Latency
  set_mac_lookup_handler handler s = record s { mac_lookup_handler = some handler }

  unfoldable pub set_cache_stats_handler :
      (Services → CacheStats) → Server J Services Latency → Server J Services Latency
  set_cache_stats_handler handler s = record s { cache_stats_handler = some handler }
