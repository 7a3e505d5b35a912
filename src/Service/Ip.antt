-- ===== src/Service/Ip.antt =====
-- src/service/ip_geo_service.cpp: what the results of the two databases come to.
use ip_server.Base.{◌≡◌, refl, Bool, true, Option, some}
use ip_server.Base.Text.{Str, codes}
use ip_server.Json.{Json, IsLawful}
use ip_server.Cache.{CacheDataType}
use ip_server.MaxMind.{value_or_false}
use ip_server.Service.{ip_resolve, not_found, update_if, merge_results}

module _ {J : Json} (L : IsLawful J) where
  -- `found` of an object, as its two conversions.
  abbrev pub is_found : J.Object → Bool
  is_found r = value_or_false J (codes "found") r

  module _ (ip : Str) (c a : J.Object) where
    abbrev merged : J.Object
    merged = update_if J (is_found a) a (
        update_if J (is_found c) c (J.set_member (codes "found") (J.of_bool true) (not_found J ip)))

-- Where both databases answer every address, so does the service.
pub ip_resolve-Resolves :
    (J : Json) (city asn : Str → Option J.Object)
    → ((k : Str) → (r : J.Object) × (city k ≡ some r))
    → ((k : Str) → (r : J.Object) × (asn k ≡ some r))
    → (k : Str) → (a : J.Value × Option CacheDataType) × (ip_resolve J city asn k ≡ some a)
unfolding ip_resolve
ip_resolve-Resolves J city asn c a k =
    let (r, e) = c k in
    let (q, f) = a k in let m = merge_results J k r q in ((J.of_object m.0, m.1), rw e (rw f refl))
