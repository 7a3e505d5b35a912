-- ===== src/Cache/Lookup.antt =====
-- cache.h, `get`: a hit, a miss and an expired entry; and reading back what `put` wrote.
use ip_server.Base.{
  ◌≤◌, ℕ, ◌+◌, ◌≡◌, refl, inl, inr, true, false, Option, none, some, arith, Bool-cases,
  Option-cases, if◌then◌else◌,
}
use ip_server.Base.Text.{Str, Str-discrete as dec}
use ip_server.Store.Dict.{find, erase}
use ip_server.Store.Linked.{moved, without, splice_front-Linked, erase_node-Linked}
use ip_server.Cache.{CacheEntry, CacheShard, CacheStats, get, is_expired, add_size, sub_size, inc}
use ip_server.Cache.Invariant.{IsValid, list_it, total-erase}
use ip_server.Cache.Evict.{without-IsValid}

-- The counters of a shard are in step: every lookup was a hit or a miss.
abbrev pub Counted : CacheStats → Type 0
Counted c = add_size c.hits c.misses ≡ c.total_lookups

module _ {Json : Type 0} (dump_size : Json → ℕ) (second now : ℕ) (key : Str)
    (s : CacheShard Json) where
  -- What `get` returns for an entry.
  abbrev pub answer : CacheEntry Json → Option Json
  answer e = if is_expired second now e then none else some e.result

  -- The entry looked for, and what `get` does: a miss changes counters only; an expired entry is
  -- dropped; a hit moves the key to the front.
  pub data Outcome (t : CacheShard Json) (r : Option Json) : Type 0 where
    miss : find dec key s.cache_map ≡ none → t.cache_map ≡ s.cache_map → r ≡ none → Outcome t r
    expired :
        (e : CacheEntry Json)
        → find dec key s.cache_map ≡ some e
        → is_expired second now e ≡ true
        → t.cache_map ≡ erase dec key s.cache_map
        → t.memory_usage_bytes + e.size_bytes ≡ s.memory_usage_bytes
        → r ≡ none
        → Outcome t r
    hit :
        (e : CacheEntry Json)
        → find dec key s.cache_map ≡ some e
        → is_expired second now e ≡ false
        → t.cache_map ≡ s.cache_map
        → t.cache_list ≡ moved e.list_it key s.cache_list
        → r ≡ some e.result
        → Outcome t r

  -- `get` on a valid shard is defined, leaves a valid shard with the same budget and no more memory
  -- in use, and keeps the counters in step.
  pub get_lem :
      IsValid dump_size s
      → (t : CacheShard Json) × (r : Option Json) × (get second now key s ≡ some (t, r))
        × IsValid dump_size t
        × Outcome t r
        × (Counted s.stats → Counted t.stats)
        × (t.max_memory_bytes ≡ s.max_memory_bytes)
        × (t.memory_usage_bytes ≤ s.memory_usage_bytes)
  unfolding get
  get_lem h = elim (Option-cases (find dec key s.cache_map)) [
    | inl absent ↦ (
      missed,
      none,
      rw (absent, get),
      record { links = h.links; sized = h.sized; accounted = h.accounted; fits = h.fits },
      miss absent refl refl,
      λ c. omega arith,
      refl,
      omega arith,
    )
    | inr (e, stored) ↦ elim (Bool-cases (is_expired second now e)) [
      | inl old ↦
          let (erased, _) =
            erase_node-Linked dec list_it s.cache_map s.cache_list h.links key e stored in
          let valid = without-IsValid dump_size s h key e stored (dropped e) refl refl refl in
          (
            dropped e,
            none,
            rw (stored, get) (rw old (rw erased)),
            valid,
            expired e stored old refl
                (omega (
                  arith,
                  h.accounted,
                  h.fits,
                  valid.accounted,
                  total-erase key e s.cache_map stored,
                ))
                refl,
            λ c. omega arith,
            refl,
            omega
                (arith, h.accounted, h.fits, valid.accounted, total-erase key e s.cache_map stored),
          )
      | inr young ↦
          let (defined, links) =
            splice_front-Linked dec list_it s.cache_map s.cache_list h.links key e stored in
          (
            touched e,
            some e.result,
            rw (stored, get) (rw young (rw defined)),
            record { links = links; sized = h.sized; accounted = h.accounted; fits = h.fits },
            hit e stored young refl refl refl,
            λ c. omega arith,
            refl,
            omega arith,
          )
    ]
  ]
    where
      asked : CacheStats
      asked = record s.stats { total_lookups = inc s.stats.total_lookups }

      missed : CacheShard Json
      missed = record s { stats = record asked { misses = inc asked.misses } }

      dropped : CacheEntry Json → CacheShard Json
      dropped e = record s {
        cache_list = without e.list_it s.cache_list;
        memory_usage_bytes = sub_size s.memory_usage_bytes e.size_bytes;
        cache_map = erase dec key s.cache_map;
        stats = record asked {
          expired_entries = inc asked.expired_entries;
          misses = inc asked.misses;
        };
      }

      touched : CacheEntry Json → CacheShard Json
      touched e = record s {
        cache_list = moved e.list_it key s.cache_list;
        stats = record asked { hits = inc asked.hits };
      }
