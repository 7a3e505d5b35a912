-- ===== src/Http/Setup.antt =====
-- http_server.cpp, the constructor of `IPGeoHTTPServer`, on a configuration that was validated.
use ip_server.Base.{ℕ, ◌*◌, ◌≡◌, refl, List, Option, none, arith, ◌<◌, ◌^◌}
use ip_server.Base.Int.{ℤ, pos, negsuc, pos_part}
use ip_server.Base.Text.{Str}
use ip_server.Json.{Json}
use ip_server.RateLimiter.{init}
use ip_server.RateLimiter.History.{init-IsValid}
use ip_server.Config.{ServerConfig}
use ip_server.Config.Validate.{validate}
use ip_server.Config.Validate.Limits.{Within, validate_lem}
use ip_server.Http.{new_server}
use ip_server.Http.Gate.Admission.{IsServing}

small : (n : ℤ) → Within n (pos 1) (pos 10000) → pos_part n < 2 ^ 31
small (pos n) h = omega (arith, h.0, h.1)
small (negsuc n) h = omega arith

module _ (J : Json) {Services : Type 0} (Latency : Type 0) where
  -- The server that is built from a configuration that passes the validation has, if it limits
  -- requests, a valid limiter.
  pub new_server-IsServing :
      (sha256 : Str → List ℕ) (file : Option (List Str)) (second now : ℕ) (c : ServerConfig)
      (services : Services)
      → validate c ≡ none
      → IsServing (
          new_server {J = J} {Services = Services} {Latency = Latency} sha256 file second now c
            services)
  unfolding new_server
  new_server-IsServing sha256 file second now c services v on =
      let limit = ((validate_lem c).0 v).1.1.0 on in
      (
        init c.max_requests_per_minute (60 * second) 10000,
        rw on refl,
        init-IsValid c.max_requests_per_minute (60 * second) 10000
            (small c.max_requests_per_minute limit),
      )
