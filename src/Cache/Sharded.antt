-- ===== src/Cache/Sharded.antt =====
-- src/cache.h, `IPCache`: shards chosen by the hash of the key. `std::hash` is a parameter.
-- A shard index out of range, and a shard count of 0 in the constructor (a division by zero), are
-- undefined behaviour, `none`.
use ip_server.Base.{
  ℕ, zero, suc, ◌+◌, ◌-◌, ◌/◌, ◌%◌, List, [], ◌∷◌, Option, none, some, get_elem?, set, ◌>>=◌, ◌==◌,
  if◌then◌else◌,
}
use ip_server.Base.Int.{size_mod}
use ip_server.Base.Text.{Str}
use ip_server.Cache.{
  CacheShard, CacheStats, CacheDataType, new_shard, no_stats, add_size, add_stats,
}
use ip_server.Cache

pub record IpCache (Json : Type 0) : Type 0 where
  pub shards : List (CacheShard Json)
  pub shard_count : ℕ

module _ {Json : Type 0} where
  -- The loop of the constructor.
  unfoldable pub make_shards : ℕ → ℕ → List (CacheShard Json)
  make_shards zero memory = []
  make_shards (suc n) memory = new_shard memory ∷ make_shards n memory

  unfoldable pub new_cache : ℕ → ℕ → Option (IpCache Json)
  new_cache max_memory_bytes shard_count =
      if shard_count == 0
      then none
      else some (record {
        shards =
            make_shards shard_count
              ((max_memory_bytes + shard_count + size_mod - 1) % size_mod / shard_count);
        shard_count = shard_count;
      })

  -- One round of the loop of `get_stats`: the counters of a shard, and its memory in use.
  unfoldable pub add_shard : CacheStats → CacheShard Json → CacheStats
  add_shard combined s =
      let added = add_stats combined s.stats in
      record added { memory_usage_bytes = add_size added.memory_usage_bytes s.memory_usage_bytes }

  unfoldable pub sum_stats : CacheStats → List (CacheShard Json) → CacheStats
  sum_stats combined [] = combined
  sum_stats combined (s ∷ ss) = sum_stats (add_shard combined s) ss

  unfoldable pub get_stats : IpCache Json → CacheStats
  get_stats c = sum_stats no_stats c.shards

  module _ (hash : Str → ℕ) where
    unfoldable pub get_shard_index : Str → IpCache Json → ℕ
    get_shard_index key c = hash key % c.shard_count

    unfoldable pub get : ℕ → ℕ → Str → IpCache Json → Option (IpCache Json × Option Json)
    get second now key c = do
      let i = get_shard_index key c
      shard ← get_elem? c.shards i
      (shard', found) ← Cache.get second now key shard
      some (record c { shards = set c.shards i shard' }, found)

    unfoldable pub put :
        (Json → ℕ) → ℕ → Str → Json → CacheDataType → IpCache Json → Option (IpCache Json)
    put dump_size now key result data_type c = do
      let i = get_shard_index key c
      shard ← get_elem? c.shards i
      shard' ← Cache.put dump_size now key result data_type shard
      some (record c { shards = set c.shards i shard' })
