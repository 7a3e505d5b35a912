-- ===== src/Cache/Stats.antt =====
-- src/cache.h, `get_stats`: the sums over the shards.
use ip_server.Base.{ℕ, ◌∙◌, ◌+◌, ◌%◌, ◌≡◌, refl, List, [], ◌∷◌, arith, All}
use ip_server.Base.Int.{size_mod}
use ip_server.Cache.{CacheShard, CacheStats, no_stats, add_stats}
use ip_server.Cache.Lookup.{Counted}
use ip_server.Cache.Sharded.{IpCache, add_shard, sum_stats, get_stats}

-- A shard keeps its memory beside its counters, not in them; its counters are in step.
pub record IsCounted {Json : Type 0} (s : CacheShard Json) : Type 0 where
  pub in_step : Counted s.stats
  pub apart : s.stats.memory_usage_bytes ≡ 0

module _ {Json : Type 0} where
  abbrev pub memory_sum : List (CacheShard Json) → ℕ
  memory_sum [] = 0
  memory_sum (s ∷ ss) = s.memory_usage_bytes + memory_sum ss

  add_shard-Counted :
      (a : CacheStats) (s : CacheShard Json) → Counted a → IsCounted s → Counted (add_shard a s)
  unfolding add_shard add_stats
  add_shard-Counted a s c h = omega (arith, c, h.in_step)

  add_shard_memory :
      (a : CacheStats) (s : CacheShard Json) (rest : ℕ)
      → IsCounted s
      → ((add_shard a s).memory_usage_bytes + rest) % size_mod
        ≡ (a.memory_usage_bytes + (s.memory_usage_bytes + rest)) % size_mod
  unfolding add_shard add_stats
  add_shard_memory a s rest h = omega (arith, h.apart)

  sum_stats_lem :
      (ss : List (CacheShard Json)) (a : CacheStats)
      → Counted a
      → All IsCounted ss
      → Counted (sum_stats a ss)
        × ((sum_stats a ss).memory_usage_bytes % size_mod
            ≡ (a.memory_usage_bytes + memory_sum ss) % size_mod)
  unfolding sum_stats
  sum_stats_lem [] a c h = (c, omega arith)
  sum_stats_lem (s ∷ ss) a c h =
      let (c', m) = sum_stats_lem ss (add_shard a s) (add_shard-Counted a s c h.0) h.1 in
      (c', m ∙ add_shard_memory a s (memory_sum ss) h.0)

  -- In the statistics of a cache whose shards count right, every lookup is a hit or a miss, and the
  -- memory in use is the sum over the shards, modulo 2^64.
  pub get_stats_lem :
      (c : IpCache Json)
      → All IsCounted c.shards
      → Counted (get_stats c)
        × ((get_stats c).memory_usage_bytes % size_mod ≡ memory_sum c.shards % size_mod)
  unfolding get_stats
  get_stats_lem c h = let (c', m) = sum_stats_lem c.shards no_stats refl h in (c', m ∙ omega arith)
