-- ===== src/Service.antt =====
-- src/service: the lookups of both services, a database behind a cache. A call takes the readings
-- of the clock that the cache's `get` and `put` make. A JSON dump is taken to succeed, so nothing in
-- the `try` blocks throws.
pub mod Through
pub mod Mac
pub mod Ip
use ip_server.MaxMind.{value_or_false}
use ip_server.Base.{if◌then◌else◌, not, ◌&&◌, ℕ, Bool, true, false, Option, none, some, ◌>>=◌}
use ip_server.Base.Text.{Str, codes}
use ip_server.Json.{Json}
use ip_server.Cache.{CacheDataType, ip_geolocation, mac_oui, negative}
use ip_server.Cache.Sharded.{IpCache}
use ip_server.Cache.Sharded
use ip_server.MacDatabase.{Answer, OuiDatabase}
use ip_server.MacDatabase

module _ {Value : Type 0} (hash : Str → ℕ) (dump_size : Value → ℕ) (second : ℕ) where
  -- The shape of both lookups: the cached value, or what the database resolves to, which goes into
  -- the cache if it has a type there. With the value, whether it was cached.
  unfoldable pub through_cache :
      (Str → Option (Value × Option CacheDataType))
      → (now later : ℕ) → Str
      → IpCache Value
      → Option (IpCache Value × Value × Bool)
  through_cache resolve now later key cache = do
    (c, cached) ← Sharded.get hash second now key cache
    elim cached [
      | some v ↦ some (c, v, true)
      | none ↦ do
        (v, type) ← resolve key
        elim type [
          | none ↦ some (c, v, false)
          | some ty ↦ do d ← Sharded.put hash dump_size later key v ty c; some (d, v, false)
        ]
    ]

module _ (J : Json) where
  -- As what a result of the OUI database is cached; an error is not.
  unfoldable pub mac_type : J.Object → Option CacheDataType
  mac_type result = elim (J.member (codes "error") result) [
    | some _ ↦ none
    | none ↦ elim (value_or_false J (codes "found") result) [
      | true ↦ some mac_oui
      | false ↦ some negative
    ]
  ]

module _ (J : Json) {Db : Type 0} (query : Db → Str → Answer) where
  unfoldable pub mac_resolve : OuiDatabase Db → Str → Option (J.Value × Option CacheDataType)
  mac_resolve oui_db mac = do
    result ← MacDatabase.lookup J query oui_db mac
    some (J.of_object result, mac_type J result)

  -- `MACLookupService::lookup`.
  unfoldable pub mac_lookup :
      (Str → ℕ)
      → (J.Value → ℕ)
      → ℕ
      → OuiDatabase Db
      → (now later : ℕ) → Str
      → IpCache J.Value
      → Option (IpCache J.Value × J.Value × Bool)
  mac_lookup hash dump_size second oui_db = through_cache hash dump_size second (mac_resolve oui_db)

module _ (J : Json) where
  -- The result before the databases are asked.
  unfoldable pub not_found : Str → J.Object
  not_found ip =
      J.set_member (codes "found") (J.of_bool false)
        (J.set_member (codes "ip") (J.of_str ip) J.no_members)

  -- `if (found) result.update(other)`.
  unfoldable pub update_if : Bool → J.Object → J.Object → J.Object
  update_if found other result = if found then J.update result other else result

  -- What the results of the two databases come to. An error of the city database is passed on and
  -- not cached; one of the other is not looked at.
  unfoldable pub merge_results : Str → J.Object → J.Object → J.Object × Option CacheDataType
  merge_results ip city_result asn_result = elim (J.member (codes "error") city_result) [
    | some e ↦ (J.set_member (codes "error") e (not_found ip), none)
    | none ↦
        let city_found = value_or_false J (codes "found") city_result in
        let asn_found = value_or_false J (codes "found") asn_result in
        let found = J.set_member (codes "found") (J.of_bool true) (not_found ip) in
        if not city_found && not asn_found then (not_found ip, some negative) else (
          update_if asn_found asn_result (update_if city_found city_result found),
          some ip_geolocation,
        )
  ]

-- `IPGeoService::lookup`, with the two databases as what their lookups give.
module _ (J : Json) (city asn : Str → Option J.Object) where
  unfoldable pub ip_resolve : Str → Option (J.Value × Option CacheDataType)
  ip_resolve ip = do
    city_result ← city ip
    asn_result ← asn ip
    let (result, type) = merge_results J ip city_result asn_result
    some (J.of_object result, type)

  unfoldable pub ip_lookup :
      (Str → ℕ)
      → (J.Value → ℕ)
      → ℕ
      → (now later : ℕ) → Str
      → IpCache J.Value
      → Option (IpCache J.Value × J.Value × Bool)
  ip_lookup hash dump_size second = through_cache hash dump_size second ip_resolve
