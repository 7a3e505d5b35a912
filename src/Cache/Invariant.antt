-- ===== src/Cache/Invariant.antt =====
-- cache.h, `CacheShard`: the invariant and the accounting of memory.
use ip_server.Base.{ℕ, ◌+◌, ◌<◌, ◌≡◌, refl, List, [], ◌∷◌, some, arith}
use ip_server.Base.Int.{size_mod}
use ip_server.Base.Text.{Str, Str-discrete as dec}
use ip_server.Store.Dict.{find, erase, assign}
use ip_server.Store.Linked.{Linked, Linked-empty}
use ip_server.Cache.{CacheEntry, CacheShard, estimate_entry_size, new_shard}

module _ {Json : Type 0} where
  abbrev pub list_it : CacheEntry Json → ℕ
  list_it e = e.list_it

  -- The sizes of all entries.
  unfoldable pub total : List (Str × CacheEntry Json) → ℕ
  total [] = 0
  total ((_, e) ∷ m) = e.size_bytes + total m

  pub total-erase :
      (k : Str) (e : CacheEntry Json) (m : List (Str × CacheEntry Json))
      → find dec k m ≡ some e
      → total (erase dec k m) + e.size_bytes ≡ total m
  unfolding total find erase
  total-erase k e [] h = cc
  total-erase k e ((j, x) ∷ m) h = ground (arith, total-erase k e m)

  pub total-assign :
      (k : Str) (e e' : CacheEntry Json) (m : List (Str × CacheEntry Json))
      → find dec k m ≡ some e
      → total (assign dec k e' m) + e.size_bytes ≡ total m + e'.size_bytes
  unfolding total find assign
  total-assign k e e' [] h = cc
  total-assign k e e' ((j, x) ∷ m) h = ground (arith, total-assign k e e' m)

  module _ (dump_size : Json → ℕ) where
    -- The links between map and list; each entry carries the size of what it holds; the memory in
    -- use is the sum of the sizes, and fits a `size_t`.
    pub record IsValid (s : CacheShard Json) : Type 0 where
      pub links : Linked dec list_it s.cache_map s.cache_list
      pub sized :
          (k : Str) (e : CacheEntry Json)
          → find dec k s.cache_map ≡ some e
          → e.size_bytes ≡ estimate_entry_size dump_size k e.result
      pub accounted : s.memory_usage_bytes ≡ total s.cache_map
      pub fits : s.memory_usage_bytes < size_mod

    pub new_shard-IsValid : (max_memory_bytes : ℕ) → IsValid (new_shard max_memory_bytes)
    unfolding new_shard find total
    new_shard-IsValid max_memory_bytes = record {
      links = Linked-empty dec list_it;
      sized = λ k e f. cc;
      accounted = refl;
      fits = omega arith;
    }
