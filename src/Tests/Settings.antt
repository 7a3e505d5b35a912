-- ===== src/Tests/Settings.antt =====
-- The stored form of a configuration and the overrides at small inputs.
use ip_server.Base.{ℕ, ◌≡◌, Option, none, some, arith}
use ip_server.Base.Int.{ℤ}
use ip_server.Base.Text.{Str, codes}
use ip_server.Config.{ServerConfig, default_config}
use ip_server.Config.Stored.{to_json, load_config}
use ip_server.Config.Stored.RoundTrip.{Fits, stored, load_config-to_json}
use ip_server.Tests.Values.{plain, plain-IsLawful}

abbrev config : ServerConfig
config = record default_config { default_api_key = codes "k"; port = 81 }

fits : Fits config
unfolding default_config
fits = (
  omega arith,
  (omega arith, omega arith),
  (omega arith, omega arith),
  (omega arith, omega arith),
  (omega arith, omega arith),
  omega arith,
)

abbrev no_number : Str → Option ℤ
no_number s = none

abbrev no_size : Str → Option ℕ
no_size s = none

load_config-to_json_example :
    load_config plain no_number no_size (to_json plain config) ≡ some (stored config)
load_config-to_json_example = load_config-to_json plain-IsLawful no_number no_size config fits
