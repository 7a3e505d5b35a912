-- ===== src/Application/Services.antt =====
-- src/main.cpp, `run_application`: the two services behind the server, each with its cache. The
-- caches read the clock: the i-th reading that they make is `clock i`. After undefined behaviour
-- there are no services, `none`, and the handler has no value to give.
pub mod Form
pub mod Answers
pub mod Sequence
use ip_server.Base.{[], ℕ, ◌*◌, suc, Bool, List, Option, none, some, ◌>>=◌, ◌⊎◌, inl, inr}
use ip_server.Base.Text.{Str}
use ip_server.Json.{Json}
use ip_server.Application.{Lookups}
use ip_server.Cache.{CacheStats, no_stats}
use ip_server.Cache.Sharded.{get_stats, IpCache, new_cache}
use ip_server.MacDatabase.{Answer, OuiDatabase}
use ip_server.Service.{ip_lookup, mac_lookup}
use ip_server.Http.{LookupHandler, Thrown, other_error}

pub record Services (Value : Type 0) : Type 0 where
  pub geo_cache : IpCache Value
  pub mac_cache : IpCache Value
  pub clock : ℕ → ℕ
  pub tick : ℕ

-- The two readings of a lookup are behind it.
unfoldable pub ticked : {Value : Type 0} → Services Value → Services Value
ticked w = record w { tick = suc (suc w.tick) }

-- The constructors of the services, once the databases are open: the first cache has the default
-- size, 100 MB, the other 50 MB, and both have eight shards.
unfoldable pub new_services : {Value : Type 0} → (ℕ → ℕ) → Option (Services Value)
new_services clock = do
  geo ← new_cache (100 * 1024 * 1024) 8
  mac ← new_cache (50 * 1024 * 1024) 8
  some (record { geo_cache = geo; mac_cache = mac; clock = clock; tick = 0 })

-- What the server sees of a lookup.
unfoldable pub passed_on :
    {Value : Type 0}
    → (IpCache Value → Services Value)
    → Option (IpCache Value × Value × Bool)
    → Option (Services Value) × (Thrown ⊎ Value)
passed_on next none = (none, inl (other_error []))
passed_on next (some (c, v, hit)) = (some (next c), inr v)

-- `IPGeoService::cache_stats` and `MACLookupService::cache_stats`.
unfoldable pub geo_cache_stats : {Value : Type 0} → Option (Services Value) → CacheStats
geo_cache_stats none = no_stats
geo_cache_stats (some w) = get_stats w.geo_cache

unfoldable pub mac_cache_stats : {Value : Type 0} → Option (Services Value) → CacheStats
mac_cache_stats none = no_stats
mac_cache_stats (some w) = get_stats w.mac_cache

module _ (J : Json) (hash : Str → ℕ) (dump_size : J.Value → ℕ) (second : ℕ)
    (city asn : Str → Option J.Object) {Db : Type 0} (query : Db → Str → Answer)
    (oui_db : OuiDatabase Db) where
  unfoldable pub geo_handler : LookupHandler J (Option (Services J.Value))
  geo_handler ip none = (none, inl (other_error []))
  geo_handler ip (some w) =
      passed_on (λ c. record (ticked w) { geo_cache = c })
        (ip_lookup J city asn hash dump_size second (w.clock w.tick) (w.clock (suc w.tick)) ip
          w.geo_cache)

  unfoldable pub mac_handler : LookupHandler J (Option (Services J.Value))
  mac_handler mac none = (none, inl (other_error []))
  mac_handler mac (some w) =
      passed_on (λ c. record (ticked w) { mac_cache = c })
        (mac_lookup J query hash dump_size second oui_db (w.clock w.tick) (w.clock (suc w.tick)) mac
          w.mac_cache)

  -- The services as the server sees them; `key_lines` has the lines of a key file.
  unfoldable pub two_services :
      (Str → Option (List Str)) → (ℕ → ℕ) → Lookups J (Option (Services J.Value))
  two_services key_lines clock = record {
    open_services = λ c. (new_services clock >>= λ w. some (some w));
    lookup_ip = geo_handler;
    lookup_mac = mac_handler;
    geo_stats = geo_cache_stats;
    mac_stats = mac_cache_stats;
    key_lines = key_lines;
  }
