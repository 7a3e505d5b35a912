-- ===== src/Cache.antt =====
-- src/cache.h, `CacheShard`: a map with expiry, a budget in bytes and least-recently-used
-- eviction. The JSON library enters as the type `Json` and the size of `dump()`; the clock as the
-- reading `now` of each call and the number `second` of its ticks in a second. A shard's lock is
-- held over each call. `none` is undefined behaviour. Counters and sizes wrap at 2^64.
pub mod Invariant
pub mod Evict
pub mod Put
pub mod Lookup
pub mod ReadBack
pub mod Sharded
pub mod History
pub mod Run
pub mod Stats
use ip_server.Base.{
  ℕ, zero, suc, ◌+◌, ◌-◌, ◌*◌, ◌%◌, Bool, true, false, List, [], ◌∷◌, Option, none, some, length,
  ltb, ◌&&◌, not, if◌then◌else◌, ◌>>=◌,
}
use ip_server.Base.Int.{size_mod}
use ip_server.Base.Text.{Str, Str-discrete}
use ip_server.Store.Dict.{find, erase, assign, emplace}
use ip_server.Store.NodeList.{NodeList, empty_list, push_front, splice_front, erase_node, back}

pub data CacheDataType : Type 0 where
  ip_geolocation mac_oui negative : CacheDataType

pub record CacheStats : Type 0 where
  pub total_lookups : ℕ
  pub hits : ℕ
  pub misses : ℕ
  pub evictions : ℕ
  pub expired_entries : ℕ
  pub memory_usage_bytes : ℕ

abbrev pub no_stats : CacheStats
no_stats = record {
  total_lookups = 0;
  hits = 0;
  misses = 0;
  evictions = 0;
  expired_entries = 0;
  memory_usage_bytes = 0;
}

-- `+`, `-` and `++` of the 64-bit unsigned types.
abbrev pub add_size : ℕ → ℕ → ℕ
add_size a b = (a + b) % size_mod

abbrev pub sub_size : ℕ → ℕ → ℕ
sub_size a b = (a + size_mod - b) % size_mod

abbrev pub inc : ℕ → ℕ
inc n = add_size n 1

-- `operator+=`.
unfoldable pub add_stats : CacheStats → CacheStats → CacheStats
add_stats a o = record {
  total_lookups = add_size a.total_lookups o.total_lookups;
  hits = add_size a.hits o.hits;
  misses = add_size a.misses o.misses;
  evictions = add_size a.evictions o.evictions;
  expired_entries = add_size a.expired_entries o.expired_entries;
  memory_usage_bytes = add_size a.memory_usage_bytes o.memory_usage_bytes;
}

-- In seconds.
unfoldable pub ttl_for_type : CacheDataType → ℕ
ttl_for_type ip_geolocation = 3600
ttl_for_type mac_oui = 7 * 24 * 3600
ttl_for_type negative = 300

-- `empty()` of the list.
abbrev pub is_empty : List (ℕ × Str) → Bool
is_empty [] = true
is_empty (_ ∷ _) = false

module _ (Json : Type 0) where
  pub record CacheEntry : Type 0 where
    pub result : Json
    pub timestamp : ℕ
    pub list_it : ℕ
    pub size_bytes : ℕ
    pub data_type : CacheDataType

  pub record CacheShard : Type 0 where
    pub cache_map : List (Str × CacheEntry)
    pub cache_list : NodeList Str
    pub max_memory_bytes : ℕ
    pub memory_usage_bytes : ℕ
    pub stats : CacheStats

module _ {Json : Type 0} where
  -- The constructor.
  unfoldable pub new_shard : ℕ → CacheShard Json
  new_shard max_memory_bytes = record {
    cache_map = [];
    cache_list = empty_list;
    max_memory_bytes = max_memory_bytes;
    memory_usage_bytes = 0;
    stats = no_stats;
  }

  -- `now - timestamp > ttl`. An entry from the future has a negative age in the source and age 0
  -- here; neither exceeds the ttl.
  unfoldable pub is_expired : ℕ → ℕ → CacheEntry Json → Bool
  is_expired second now e = ltb (ttl_for_type e.data_type * second) (now - e.timestamp)

  unfoldable pub get : ℕ → ℕ → Str → CacheShard Json → Option (CacheShard Json × Option Json)
  get second now key s =
      let asked = record s.stats { total_lookups = inc s.stats.total_lookups } in
      elim (find Str-discrete key s.cache_map) [
        | none ↦ some (record s { stats = record asked { misses = inc asked.misses } }, none)
        | some e ↦
            if is_expired second now e
            then (do
              rest ← erase_node e.list_it s.cache_list
              some (
                record s {
                  cache_list = rest;
                  memory_usage_bytes = sub_size s.memory_usage_bytes e.size_bytes;
                  cache_map = erase Str-discrete key s.cache_map;
                  stats = record asked {
                    expired_entries = inc asked.expired_entries;
                    misses = inc asked.misses;
                  };
                },
                none,
              ))
            else (do
              order ← splice_front e.list_it s.cache_list
              some (
                record s { cache_list = order; stats = record asked { hits = inc asked.hits } },
                some e.result,
              ))
      ]

  -- One round of the loop of `evict_if_needed`.
  unfoldable pub evict_one : CacheShard Json → Option (CacheShard Json)
  evict_one s = do
    key ← back s.cache_list
    node ← find Str-discrete key s.cache_map
    rest ← erase_node node.list_it s.cache_list
    some (record s {
      memory_usage_bytes = sub_size s.memory_usage_bytes node.size_bytes;
      cache_list = rest;
      cache_map = erase Str-discrete key s.cache_map;
      stats = record s.stats { evictions = inc s.stats.evictions };
    })

  -- The test of the loop.
  unfoldable pub over_budget : ℕ → CacheShard Json → Bool
  over_budget new_entry_size s =
      not (is_empty s.cache_list.nodes)
      && ltb s.max_memory_bytes (add_size s.memory_usage_bytes new_entry_size)

  -- The loop on fuel; each round takes one node off the list.
  unfoldable pub evict_rounds : ℕ → ℕ → CacheShard Json → Option (CacheShard Json)
  evict_rounds zero new_entry_size s = none
  evict_rounds (suc fuel) new_entry_size s =
      let more = (do t ← evict_one s; evict_rounds fuel new_entry_size t) in
      if over_budget new_entry_size s then more else some s

  unfoldable pub evict_if_needed : ℕ → CacheShard Json → Option (CacheShard Json)
  evict_if_needed new_entry_size s = evict_rounds (suc (length s.cache_list.nodes)) new_entry_size s

  module _ (dump_size : Json → ℕ) where
    unfoldable pub estimate_entry_size : Str → Json → ℕ
    estimate_entry_size key result = (length key * 2 + dump_size result) % size_mod

    -- The branch of `put` for a key that is there.
    unfoldable pub update_entry :
        ℕ
        → Str
        → Json
        → CacheDataType
        → CacheEntry Json
        → CacheShard Json
        → Option (CacheShard Json)
    update_entry now key result data_type e s = do
      let entry_size = estimate_entry_size key result
      order ← splice_front e.list_it s.cache_list
      some (record s {
        memory_usage_bytes = add_size (sub_size s.memory_usage_bytes e.size_bytes) entry_size;
        cache_map =
            assign Str-discrete key
              (record e {
                result = result;
                timestamp = now;
                size_bytes = entry_size;
                data_type = data_type;
              })
              s.cache_map;
        cache_list = order;
      })

    -- The end of `put`, for a key that is not there.
    unfoldable pub insert_entry : ℕ → Str → Json → CacheDataType → CacheShard Json → CacheShard Json
    insert_entry now key result data_type s =
        let entry_size = estimate_entry_size key result in
        record s {
          cache_list = push_front key s.cache_list;
          cache_map =
              emplace Str-discrete key
                (record {
                  result = result;
                  timestamp = now;
                  list_it = s.cache_list.next;
                  size_bytes = entry_size;
                  data_type = data_type;
                })
                s.cache_map;
          memory_usage_bytes = add_size s.memory_usage_bytes entry_size;
        }

    unfoldable pub put : ℕ → Str → Json → CacheDataType → CacheShard Json → Option (CacheShard Json)
    put now key result data_type s = elim (find Str-discrete key s.cache_map) [
      | some e ↦ update_entry now key result data_type e s
      | none ↦ do
        room ← evict_if_needed (estimate_entry_size key result) s
        some (insert_entry now key result data_type room)
    ]
