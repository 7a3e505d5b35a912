-- ===== src/Http/Pages/Members.antt =====
-- http_server.cpp, `handle_health`: the members of its answer.
use ip_server.Base.{false, ℕ, ◌≡◌, refl, ◌∙◌, List, [], ◌∷◌, Option, none, some}
use ip_server.Base.Int.{pos}
use ip_server.Base.Text.{Str, codes, str_eq}
use ip_server.Base.Real.{IsOrdered, Real}
use ip_server.Json.{Json, IsLawful, member-set_apart}
use ip_server.Cache.{CacheStats}
use ip_server.Metrics.Stats.{Stats, get_stats}
use ip_server.Config.Stored.Members.{field, member-set_all}
use ip_server.Metrics.Ranks.{get_stats-IsRanked}
use ip_server.Http.{Response, Server, set_content}
use ip_server.Http.Pages.{
  handle_health, metrics_json, cache_json, errors_json, set_cache, health_json,
}

module _ {J : Json} (L : IsLawful J) (R : Real) (of_double : R.Double → J.Value)
    {Services : Type 0} where
  -- The member `cache` for a handler.
  abbrev pub shown : Option (Services → CacheStats) → Services → Option J.Value
  shown none w = none
  shown (some handler) w = some (cache_json J R of_double (handler w))

  set_cache_other :
      (k : Str) (handler : Option (Services → CacheStats)) (w : Services) (o : J.Object)
      → str_eq (codes "cache") k ≡ false
      → J.member k (set_cache J R of_double handler w o) ≡ J.member k o
  unfolding set_cache
  set_cache_other k none w o h = refl
  set_cache_other k (some f) w o h = member-set_apart L (codes "cache") k _ o h

  set_cache_lem :
      (handler : Option (Services → CacheStats)) (w : Services) (o : J.Object)
      → J.member (codes "cache") o ≡ none
      → J.member (codes "cache") (set_cache J R of_double handler w o) ≡ shown handler w
  unfolding set_cache
  set_cache_lem none w o h = h
  set_cache_lem (some f) w o h = L.member-set_self (codes "cache") _ o

  module _ (epoch : ℕ) (handler : Option (Services → CacheStats)) (w : Services) (t : Stats R) where
    abbrev object : J.Object
    object = health_json J R of_double epoch handler w t

    page_fields : List (Str × J.Value)
    page_fields =
        (codes "status", J.of_str (codes "ok"))
        ∷ (codes "timestamp", J.of_int (pos epoch))
        ∷ (codes "metrics", metrics_json J R of_double t)
        ∷ []

    -- A member that is set before the one for the cache.
    early :
        (k : Str) (v : J.Value)
        → str_eq (codes "cache") k ≡ false
        → str_eq (codes "errors") k ≡ false
        → str_eq (codes "system") k ≡ false
        → field k page_fields ≡ some v
        → J.member k object ≡ some v
    unfolding health_json page_fields
    early k v c e y f =
        member-set_all L k _ _
        ∙ (rw (e, y)
            (set_cache_other k handler w _ c
              ∙ member-set_all L k page_fields J.no_members
              ∙ rw f refl))

    object_cache : J.member (codes "cache") object ≡ shown handler w
    unfolding health_json
    object_cache =
        member-set_all L (codes "cache") _ _
        ∙ set_cache_lem handler w _
            (member-set_all L (codes "cache") _ J.no_members ∙ L.member-no_members (codes "cache"))

    object_errors : J.member (codes "errors") object ≡ some (errors_json J R of_double t)
    unfolding health_json
    object_errors = member-set_all L (codes "errors") _ _

  -- The health page is defined and sets nothing but the content: an object with the statistics of
  -- the moment, and with those of the cache exactly when their handler is set.
  pub handle_health_lem :
      IsOrdered R
      → (second now epoch : ℕ) (s : Server J Services R.Double) (res : Response J)
      → (t : Stats R) × (o : J.Object) × (get_stats R second now s.metrics ≡ some t)
        × (handle_health J R of_double second now epoch s res
            ≡ some (record res { content = some (J.of_object o) }))
        × (J.member (codes "status") o ≡ some (J.of_str (codes "ok")))
        × (J.member (codes "metrics") o ≡ some (metrics_json J R of_double t))
        × (J.member (codes "cache") o ≡ shown s.cache_stats_handler s.services)
        × (J.member (codes "errors") o ≡ some (errors_json J R of_double t))
  unfolding handle_health set_content page_fields
  handle_health_lem order second now epoch s res =
      let (t, e, l, k, r) = get_stats-IsRanked R order second now s.metrics in
      let f = s.cache_stats_handler in
      let w = s.services in
      (
        t,
        health_json J R of_double epoch f w t,
        e,
        rw (handle_health, e) refl,
        early epoch f w t (codes "status") (J.of_str (codes "ok")) refl refl refl refl,
        early epoch f w t (codes "metrics") (metrics_json J R of_double t) refl refl refl refl,
        object_cache epoch f w t,
        object_errors epoch f w t,
      )
