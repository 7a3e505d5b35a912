-- ===== src/Http/Pages.antt =====
-- http_server.cpp, `handle_root` and `handle_health`, with the numbers that `CacheStats` of
-- src/cache.h computes. `of_double` is the JSON value of a floating-point number, `epoch` the
-- system's time in seconds.
pub mod Members
use ip_server.Base.{ℕ, [], ◌∷◌, Option, none, some, if◌then◌else◌, ◌>>=◌, ltb}
use ip_server.Base.Int.{pos}
use ip_server.Base.Text.{codes}
use ip_server.Base.Real.{Real}
use ip_server.Json.{Json}
use ip_server.Cache.{CacheStats}
use ip_server.Metrics.Stats.{Stats, get_stats}
use ip_server.Config.Stored.{set_all}
use ip_server.Http.{Response, Server, set_content}

module _ (J : Json) where
  unfoldable pub handle_root : Response J → Response J
  handle_root res =
      let endpoints = J.of_list (
        J.of_str (codes "/")
        ∷ J.of_str (codes "/lookup")
        ∷ J.of_str (codes "/health")
        ∷ J.of_str (codes "/password/generate")
        ∷ []) in
      set_content J
        (J.of_object (
          set_all J
            ((codes "service", J.of_str (codes "IP Geolocation & AS Lookup Service"))
              ∷ (codes "version", J.of_str (codes "2.0.0"))
              ∷ (codes "endpoints", endpoints)
              ∷ (
                codes "description",
                J.of_str (
                    codes
                      "Use /lookup with 'ip=' or 'mac=' parameter for single queries, or 'ips'/'macs' array for batch queries"),
              )
              ∷ [])
            J.no_members))
        res

  module _ (R : Real) (of_double : R.Double → J.Value) where
    unfoldable pub hit_rate : CacheStats → R.Double
    hit_rate c =
        if ltb 0 c.total_lookups
        then R.mul (R.div (R.of_nat c.hits) (R.of_nat c.total_lookups)) (R.of_nat 100)
        else R.of_nat 0

    unfoldable pub get_memory_usage_mb : CacheStats → R.Double
    get_memory_usage_mb c =
        R.div (R.of_nat c.memory_usage_bytes) (R.mul (R.of_nat 1024) (R.of_nat 1024))

    -- `round(x * n) / n`.
    unfoldable pub rounded : ℕ → R.Double → J.Value
    rounded n x = of_double (R.div (R.round (R.mul x (R.of_nat n))) (R.of_nat n))

    unfoldable pub metrics_json : Stats R → J.Value
    metrics_json t = J.of_object (
        set_all J
          ((codes "total_requests", J.of_int (pos t.total_requests))
            ∷ (codes "qps", rounded 100 t.current_qps)
            ∷ (codes "avg_latency_ms", rounded 1000 t.avg_latency_ms)
            ∷ (codes "p50_latency_ms", rounded 1000 t.p50_latency_ms)
            ∷ (codes "p95_latency_ms", rounded 1000 t.p95_latency_ms)
            ∷ (codes "p99_latency_ms", rounded 1000 t.p99_latency_ms)
            ∷ [])
          J.no_members)

    unfoldable pub cache_json : CacheStats → J.Value
    cache_json c = J.of_object (
        set_all J
          ((codes "hits", J.of_int (pos c.hits))
            ∷ (codes "misses", J.of_int (pos c.misses))
            ∷ (codes "hit_rate_percent", rounded 100 (hit_rate c))
            ∷ (codes "evictions", J.of_int (pos c.evictions))
            ∷ (codes "expired_entries", J.of_int (pos c.expired_entries))
            ∷ (codes "memory_usage_mb", rounded 100 (get_memory_usage_mb c))
            ∷ [])
          J.no_members)

    unfoldable pub errors_json : Stats R → J.Value
    errors_json t = J.of_object (
        set_all J
          ((codes "total", J.of_int (pos t.total_errors))
            ∷ (codes "rate_percent", rounded 100 t.error_rate)
            ∷ [])
          J.no_members)

    -- `if (cache_stats_handler_)`.
    unfoldable pub set_cache :
        {Services : Type 0} → Option (Services → CacheStats) → Services → J.Object → J.Object
    set_cache none w o = o
    set_cache (some handler) w o = J.set_member (codes "cache") (cache_json (handler w)) o

    unfoldable pub health_json :
        {Services : Type 0} → ℕ → Option (Services → CacheStats) → Services → Stats R → J.Object
    health_json epoch handler w t =
        let uptime =
          J.of_object (
            J.set_member (codes "uptime_seconds") (J.of_int (pos t.uptime_seconds)) J.no_members) in
        set_all J ((codes "errors", errors_json t) ∷ (codes "system", uptime) ∷ []) (
          set_cache handler w (
            set_all J
              ((codes "status", J.of_str (codes "ok"))
                ∷ (codes "timestamp", J.of_int (pos epoch))
                ∷ (codes "metrics", metrics_json t)
                ∷ [])
              J.no_members))

    unfoldable pub handle_health :
        {Services : Type 0}
        → (second now epoch : ℕ) → Server J Services R.Double
        → Response J
        → Option (Response J)
    handle_health second now epoch s res = do
      stats ← get_stats R second now s.metrics
      some (
          set_content J (J.of_object (health_json epoch s.cache_stats_handler s.services stats))
            res)
