-- ===== src/Tests/Cached.antt =====
-- src/cache.h with numbers for JSON values, each as large as its value, a clock of one tick a
-- second, and the length of a key for its hash.
use ip_server.Base.{
  ℕ, ◌+◌, ◌-◌, ◌*◌, ◌≤◌, ◌<◌, ◌≡◌, refl, ◌⊎◌, false, List, [], ◌∷◌, Option, some, none, arith,
  length, ltb, if◌then◌else◌,
}
use ip_server.Base.Int.{size_mod}
use ip_server.Base.Text.{Str, codes, Str-discrete as dec}
use ip_server.Store.Dict.{find, emplace, erase, assign}
use ip_server.Store.NodeList.{splice_front, push_front, back, erase_node, last_node}
use ip_server.Cache.{
  CacheShard, mac_oui, negative, new_shard, get, put, evict_if_needed, over_budget,
  estimate_entry_size, is_expired, ttl_for_type, evict_one, evict_rounds, update_entry,
  insert_entry,
}
use ip_server.Cache.Invariant.{IsValid, new_shard-IsValid, total}
use ip_server.Cache.Evict.{Evicts, evict_if_needed_lem}
use ip_server.Cache.Put.{inserted, inserted-IsValid, written, Stores, put_new, put_known}
use ip_server.Cache.Lookup.{Outcome, Counted, get_lem}
use ip_server.Cache.ReadBack.{get-put}
use ip_server.Cache.Sharded.{IpCache, new_cache}
use ip_server.Cache.Run.{Request, lookup, store, run, run_permitted, AllPermitted, nothing}

program : Unit {0}
unfolding dec find emplace erase assign splice_front push_front back erase_node last_node new_shard
    get put evict_if_needed over_budget estimate_entry_size is_expired ttl_for_type evict_one
    evict_rounds update_entry insert_entry
program = tt

abbrev size : ℕ → ℕ
size n = n

abbrev key : Str
key = codes "aa"

abbrev other : Str
other = codes "bb"

abbrev none_yet : CacheShard ℕ
none_yet = new_shard 20

-- A shard of 20 bytes that holds one entry of 4 + 7 bytes.
abbrev one : CacheShard ℕ
one = inserted size 10 key 7 negative none_yet

one-IsValid : IsValid size one
unfolding program total
one-IsValid =
    inserted-IsValid size 10 key 7 negative none_yet (new_shard-IsValid size 20) refl (omega arith)

-- A second entry of 13 bytes drives out the first.
abbrev memory_after : Option (CacheShard ℕ) → Option ℕ
memory_after none = none
memory_after (some t) = some t.memory_usage_bytes

abbrev answer_of : Option (CacheShard ℕ × Option ℕ) → Option ℕ
answer_of none = some 0
answer_of (some (_, r)) = r

second_put : memory_after (put size 11 other 9 mac_oui one) ≡ some 13
unfolding program
second_put = refl

expiry : answer_of (get 1 310 key one) ≡ some 7
unfolding program
expiry = refl

expired_run : answer_of (get 1 311 key one) ≡ none
unfolding program
expired_run = refl

evict_if_needed_lem_example :
    (t : CacheShard ℕ) × (evict_if_needed 13 one ≡ some t)
    × Evicts size one t
    × (over_budget 13 t ≡ false)
    × (over_budget 13 one ≡ false → t ≡ one)
evict_if_needed_lem_example = evict_if_needed_lem size 13 one one-IsValid

one_room : one.memory_usage_bytes + estimate_entry_size size other 9 < size_mod
unfolding program
one_room = omega arith

put_new_example :
    (t : CacheShard ℕ) × (put size 11 other 9 mac_oui one ≡ some t)
    × Stores size 11 other 9 mac_oui one one-IsValid one_room t
    × ((t.memory_usage_bytes ≤ t.max_memory_bytes) ⊎ (length t.cache_map ≡ 1))
unfolding program
put_new_example = put_new size 11 other 9 mac_oui one one-IsValid one_room refl

again_room : one.memory_usage_bytes + estimate_entry_size size key 50 < size_mod
unfolding program
again_room = omega arith

-- An update past the budget of 20 bytes.
put_known_example :
    (t : CacheShard ℕ) × (put size 11 key 50 mac_oui one ≡ some t)
    × Stores size 11 key 50 mac_oui one one-IsValid again_room t
    × (t.memory_usage_bytes + 11 ≡ 11 + 54)
    × (length t.cache_map ≡ 1)
unfolding program
put_known_example =
    put_known size 11 key 50 mac_oui one one-IsValid again_room (written size 10 key 7 negative 0)
      refl

get_lem_example :
    (t : CacheShard ℕ) × (r : Option ℕ) × (get 1 20 key one ≡ some (t, r))
    × IsValid size t
    × Outcome size 1 20 key one t r
    × (Counted one.stats → Counted t.stats)
    × (t.max_memory_bytes ≡ one.max_memory_bytes)
    × (t.memory_usage_bytes ≤ one.memory_usage_bytes)
get_lem_example = get_lem size 1 20 key one one-IsValid

none_room : none_yet.memory_usage_bytes + estimate_entry_size size key 7 < size_mod
unfolding program
none_room = omega arith

get-put_example :
    (u : CacheShard ℕ) × (get 1 20 key one
      ≡ some (u, if ltb (300 * 1) (20 - 10) then none else some 7))
unfolding program
get-put_example =
    get-put size 1 20 key 10 7 negative none_yet (new_shard-IsValid size 20) none_room refl

abbrev requests : List (Request ℕ)
requests = store 5 key 7 negative ∷ lookup 6 key ∷ store 7 other 9 mac_oui ∷ lookup 400 key ∷ []

run_permitted_example :
    (c d : IpCache ℕ) × (out : List (Option ℕ)) × (new_cache 100 4 ≡ some c)
    × (run size length 1 requests c ≡ some (d, out))
    × AllPermitted 1 nothing requests out
unfolding estimate_entry_size
run_permitted_example = run_permitted size length 1 100 4 requests (omega arith) (omega arith)

abbrev two_shards : IpCache ℕ
two_shards = record { shards = one ∷ none_yet ∷ []; shard_count = 2 }
