-- ===== src/Cache/History.antt =====
-- src/cache.h, `IPCache`, against an abstract store that remembers the last value put under each
-- key: the cache may forget, and never answers with anything else.
use ip_server.Base.{
  get_elem?_of_lt, get_elem?-set_self, get_elem?-set_ne, ℕ, ◌+◌, ◌-◌, ◌*◌, ◌%◌, ◌≤◌, ◌<◌, ◌≡◌, ◌≢◌,
  sym, ap, ◌∙◌, ite, if_pos, if_neg, List, Option, some, arith, length, get_elem?, set, length-set,
  eq_of_some, subst, ℕ_discrete,
}
use native.Mathlib.Nat.{mod-lt}
use ip_server.Base.Int.{size_mod}
use ip_server.Base.Text.{Str, Str-discrete as dec}
use ip_server.Store.Dict.{find, find-erase_cases}
use ip_server.Cache.{
  CacheEntry, CacheShard, CacheDataType, is_expired, ttl_for_type, estimate_entry_size,
}
use ip_server.Cache.Invariant.{IsValid}
use ip_server.Cache.Put.{put_lem}
use ip_server.Cache.Lookup.{get_lem, Outcome, miss, expired, hit}
use ip_server.Cache.Sharded.{IpCache, get_shard_index}
use ip_server.Cache.Sharded

-- What was last put under each key, when, and as what.
abbrev pub Last : Type 0 → Type 0
Last Json = Str → Option (Json × ℕ × CacheDataType)

abbrev pub remember : {Json : Type 0} → Str → Json → ℕ → CacheDataType → Last Json → Last Json
remember key v now ty last k = ite (dec k key) (some (v, now, ty)) (last k)

module _ {Json : Type 0} (dump_size : Json → ℕ) (hash : Str → ℕ) where
  -- Every shard is valid and uses at most `spent` bytes; a key is held by the shard of its hash
  -- only, with the value last put under it.
  pub record ShardSound (count spent i : ℕ) (last : Last Json) (s : CacheShard Json) : Type 0 where
    pub valid : IsValid dump_size s
    pub frugal : s.memory_usage_bytes ≤ spent
    pub homed :
        (k : Str) (e : CacheEntry Json) → find dec k s.cache_map ≡ some e → hash k % count ≡ i
    pub current :
        (k : Str) (e : CacheEntry Json)
        → find dec k s.cache_map ≡ some e
        → last k ≡ some (e.result, e.timestamp, e.data_type)

  pub record IsSound (spent : ℕ) (last : Last Json) (c : IpCache Json) : Type 0 where
    pub counted : length c.shards ≡ c.shard_count
    pub some_shard : 0 < c.shard_count
    pub each :
        (i : ℕ) (s : CacheShard Json)
        → get_elem? c.shards i ≡ some s
        → ShardSound c.shard_count spent i last s

-- A lookup holds no entry that was not there.
Outcome-held :
    {Json : Type 0} (dump_size : Json → ℕ) (second now : ℕ) (key : Str) (s : CacheShard Json)
    {t : CacheShard Json} {r : Option Json}
    → IsValid dump_size s
    → Outcome dump_size second now key s t r
    → (k : Str) (e : CacheEntry Json) → find dec k t.cache_map ≡ some e
    → find dec k s.cache_map ≡ some e
Outcome-held dump_size second now key s h (miss _ m _) k e f = sym (ap (find dec k) m) ∙ f
Outcome-held dump_size second now key s h (expired _ _ _ m _ _) k e f =
    (find-erase_cases dec k key e s.cache_map h.links.keys_distinct (sym (ap (find dec k) m) ∙ f)).1
Outcome-held dump_size second now key s h (hit _ _ _ m _ _) k e f = sym (ap (find dec k) m) ∙ f

-- A hit returns a stored value that is not too old.
Outcome-hit :
    {Json : Type 0} (dump_size : Json → ℕ) (second now : ℕ) (key : Str) (s : CacheShard Json)
    {t : CacheShard Json} {r : Option Json} (v : Json)
    → Outcome dump_size second now key s t r
    → r ≡ some v
    → (e : CacheEntry Json) × (find dec key s.cache_map ≡ some e)
      × (e.result ≡ v)
      × (now - e.timestamp ≤ ttl_for_type e.data_type * second)
unfolding is_expired
Outcome-hit dump_size second now key s v (miss _ _ q) f = absurd (cc)
Outcome-hit dump_size second now key s v (expired _ _ _ _ _ q) f = absurd (cc)
Outcome-hit dump_size second now key s v (hit e stored young _ _ q) f =
    (e, stored, eq_of_some (sym q ∙ f), ground arith)

module _ {Json : Type 0} (dump_size : Json → ℕ) (hash : Str → ℕ) (count : ℕ)
    (shards : List (CacheShard Json)) where
  -- One shard changes.
  replace_shard :
      (spent : ℕ) (last : Last Json) (i : ℕ) (s t : CacheShard Json)
      → get_elem? shards i ≡ some s
      → ShardSound dump_size hash count spent i last t
      → ((j : ℕ) (x : CacheShard Json)
          → i ≢ j
          → get_elem? shards j ≡ some x
          → ShardSound dump_size hash count spent j last x)
      → (j : ℕ) (x : CacheShard Json) → get_elem? (set shards i t) j ≡ some x
      → ShardSound dump_size hash count spent j last x
  replace_shard spent last i s t at_i new old j x f = elim (ℕ_discrete i j) [
    | yes p ↦
        let same : t ≡ x =
          eq_of_some
            (sym (get_elem?-set_self shards i s t at_i) ∙ ap (get_elem? (set shards i t)) p ∙ f) in
        subst (λ n. ShardSound dump_size hash count spent n last x) p
          (subst (ShardSound dump_size hash count spent i last) same new)
    | no n ↦ old j x n (sym (get_elem?-set_ne shards i j t n) ∙ f)
  ]

module _ {Json : Type 0} (dump_size : Json → ℕ) (hash : Str → ℕ) (spent : ℕ) (last : Last Json)
    (c : IpCache Json) (h : IsSound dump_size hash spent last c) where
  module _ (key : Str) where
    here : ℕ
    here = get_shard_index hash key c

    -- The shard of a key is there.
    shard_of : (s : CacheShard Json) × (get_elem? c.shards (get_shard_index hash key c) ≡ some s)
    unfolding get_shard_index
    shard_of =
        get_elem?_of_lt c.shards (hash key % c.shard_count)
          (rw h.counted (mod-lt (hash key) h.some_shard))

  -- `get` on a sound cache is defined, and leaves it sound. A hit returns the value last put under
  -- the key, no older than the time to live of its type.
  pub get-IsSound :
      (second now : ℕ) (key : Str)
      → (d : IpCache Json) × (r : Option Json) × (Sharded.get hash second now key c ≡ some (d, r))
        × IsSound dump_size hash spent last d
        × ((v : Json)
            → r ≡ some v
            → (at : ℕ) × (ty : CacheDataType) × (last key ≡ some (v, at, ty))
              × (now - at ≤ ttl_for_type ty * second))
  unfolding Sharded.get
  get-IsSound second now key =
      let (s, at_i) = shard_of key in
      let sound = h.each (get_shard_index hash key c) s at_i in
      let (t, r, run, valid, out, _, _, less) = get_lem dump_size second now key s sound.valid in
      (
        record c { shards = set c.shards (get_shard_index hash key c) t },
        r,
        rw (at_i, Sharded.get) (rw run),
        record {
          counted = length-set c.shards (get_shard_index hash key c) t ∙ h.counted;
          some_shard = h.some_shard;
          each =
              replace_shard dump_size hash c.shard_count c.shards spent last
                (get_shard_index hash key c) s t at_i
                (record {
                  valid = valid;
                  frugal = omega (arith, sound.frugal, less);
                  homed = λ k e f.
                      sound.homed k e
                        (Outcome-held dump_size second now key s sound.valid out k e f);
                  current = λ k e f.
                      sound.current k e
                        (Outcome-held dump_size second now key s sound.valid out k e f);
                })
                (λ j x _ g. h.each j x g);
        },
        λ v q.
            let (e, stored, is_v, age) = Outcome-hit dump_size second now key s v out q in
            (
              e.timestamp,
              e.data_type,
              sound.current key e stored ∙ ap (λ x. some (x, e.timestamp, e.data_type)) is_v,
              age,
            ),
      )

  -- A put on one shard says nothing of the keys of another.
  elsewhere :
      (key : Str) (v : Json) (now : ℕ) (ty : CacheDataType) (j : ℕ) (x : CacheShard Json)
      → hash key % c.shard_count ≢ j
      → ShardSound dump_size hash c.shard_count spent j last x
      → ShardSound dump_size hash c.shard_count
          (spent + estimate_entry_size dump_size key v)
          j
          (remember key v now ty last)
          x
  elsewhere key v now ty j x other sound = record {
    valid = sound.valid;
    frugal = omega (arith, sound.frugal);
    homed = sound.homed;
    current = λ k e f.
        if_neg (dec k key)
          (λ p. other (ap (λ y. hash y % c.shard_count) (sym p) ∙ sound.homed k e f))
          (some (v, now, ty)) (last k)
        ∙ sound.current k e f;
  }

  -- `put` on a sound cache is defined while the bytes spent fit a `size_t`, and the cache stays
  -- sound for the store that remembers the new value.
  pub put-IsSound :
      (now : ℕ) (key : Str) (v : Json) (ty : CacheDataType)
      → spent + estimate_entry_size dump_size key v < size_mod
      → (d : IpCache Json) × (Sharded.put hash dump_size now key v ty c ≡ some d)
        × IsSound dump_size hash
            (spent + estimate_entry_size dump_size key v)
            (remember key v now ty last)
            d
  unfolding Sharded.put get_shard_index
  put-IsSound now key v ty room =
      let (s, at_i) = shard_of key in
      let sound = h.each (get_shard_index hash key c) s at_i in
      let (t, run, st) =
        put_lem dump_size now key v ty s sound.valid (omega (arith, sound.frugal)) in
      (
        record c { shards = set c.shards (get_shard_index hash key c) t },
        rw (at_i, Sharded.put) (rw run),
        record {
          counted = length-set c.shards (get_shard_index hash key c) t ∙ h.counted;
          some_shard = h.some_shard;
          each =
              replace_shard dump_size hash c.shard_count c.shards
                (spent + estimate_entry_size dump_size key v) (remember key v now ty last)
                (get_shard_index hash key c) s t at_i
                (record {
                  valid = st.valid;
                  frugal = omega (arith, sound.frugal, st.growth);
                  homed = λ k e f. elim (dec k key) [
                    | yes p ↦ ap (λ x. hash x % c.shard_count) p
                    | no n ↦ sound.homed k e (st.others k e n f)
                  ];
                  current = λ k e f. elim (dec k key) [
                    | yes p ↦
                        let same =
                          eq_of_some
                            (sym st.holds ∙ ap (λ x. find dec x t.cache_map) (sym p) ∙ f) in
                        if_pos (dec k key) p (some (v, now, ty)) (last k)
                        ∙ ap (λ (x : CacheEntry Json). some (x.result, x.timestamp, x.data_type))
                            same
                    | no n ↦
                        if_neg (dec k key) n (some (v, now, ty)) (last k)
                        ∙ sound.current k e (st.others k e n f)
                  ];
                })
                (λ j x other g. elsewhere key v now ty j x other (h.each j x g));
        },
      )
