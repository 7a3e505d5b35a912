-- ===== src/Cache/Run.antt =====
-- src/cache.h, `IPCache`, over a whole sequence of lookups and stores from the constructor on.
use ip_server.Base.{
  ℕ, zero, suc, ◌+◌, ◌-◌, ◌*◌, ◌/◌, ◌%◌, ◌≤◌, ◌<◌, ◌≡◌, refl, List, [], ◌∷◌, Option, some, none,
  arith, get_elem?, length, ap, ◌>>=◌, eq_of_some, sym, subst,
}
use ip_server.Base.Int.{size_mod}
use ip_server.Base.Text.{Str}
use ip_server.Store.Dict.{find}
use ip_server.Cache.{CacheShard, CacheDataType, new_shard, ttl_for_type, estimate_entry_size}
use ip_server.Cache.Invariant.{new_shard-IsValid}
use ip_server.Cache.Sharded.{IpCache, make_shards, new_cache}
use ip_server.Cache.Sharded
use ip_server.Cache.History.{Last, remember, ShardSound, IsSound, get-IsSound, put-IsSound}

pub data Request (Json : Type 0) : Type 0 where
  lookup : ℕ → Str → Request Json
  store : ℕ → Str → Json → CacheDataType → Request Json

-- The abstract store starts empty.
abbrev pub nothing : {Json : Type 0} → Last Json
nothing k = none

module _ {Json : Type 0} (second : ℕ) where
  -- An answer that the abstract store permits: a miss, or the value last put under the key, at most
  -- its time to live old.
  abbrev pub Permitted : Last Json → ℕ → Str → Option Json → Type 0
  Permitted last now key r =
      (v : Json)
      → r ≡ some v
      → (at : ℕ) × (ty : CacheDataType) × (last key ≡ some (v, at, ty))
        × (now - at ≤ ttl_for_type ty * second)

  -- The answers to a sequence of requests, one for each lookup.
  abbrev pub AllPermitted : Last Json → List (Request Json) → List (Option Json) → Type 0
  AllPermitted last [] [] = Unit {0}
  AllPermitted last [] (_ ∷ _) = ⊥
  AllPermitted last (lookup now key ∷ rs) [] = ⊥
  AllPermitted last (lookup now key ∷ rs) (a ∷ out) =
      Permitted last now key a × AllPermitted last rs out
  AllPermitted last (store now key v ty ∷ rs) out = AllPermitted (remember key v now ty last) rs out

module _ {Json : Type 0} (dump_size : Json → ℕ) (hash : Str → ℕ) (second : ℕ) where
  -- The bytes that a sequence stores, with no entry ever dropped.
  abbrev pub bytes : List (Request Json) → ℕ
  bytes [] = 0
  bytes (lookup _ _ ∷ rs) = bytes rs
  bytes (store _ key v _ ∷ rs) = estimate_entry_size dump_size key v + bytes rs

  unfoldable pub run :
      List (Request Json) → IpCache Json → Option (IpCache Json × List (Option Json))
  run [] c = some (c, [])
  run (lookup now key ∷ rs) c = do
    (d, a) ← Sharded.get hash second now key c
    (e, out) ← run rs d
    some (e, a ∷ out)
  run (store now key v ty ∷ rs) c = do d ← Sharded.put hash dump_size now key v ty c; run rs d

  run_sound :
      (rs : List (Request Json)) (spent : ℕ) (last : Last Json) (c : IpCache Json)
      → IsSound dump_size hash spent last c
      → spent + bytes rs < size_mod
      → (d : IpCache Json) × (out : List (Option Json)) × (run rs c ≡ some (d, out))
        × AllPermitted second last rs out
  unfolding run
  run_sound [] spent last c h room = (c, [], refl, tt)
  run_sound (lookup now key ∷ rs) spent last c h room =
      let (d, a, e, sound, ok) = get-IsSound dump_size hash spent last c h second now key in
      let (f, out, e', all_ok) = run_sound rs spent last d sound room in
      (f, a ∷ out, rw e (rw e'), (ok, all_ok))
  run_sound (store now key v ty ∷ rs) spent last c h room =
      let (d, e, sound) = put-IsSound dump_size hash spent last c h now key v ty (omega arith) in
      let (f, out, e', all_ok) =
        run_sound rs _ (remember key v now ty last) d sound (omega arith) in
      (f, out, rw e e', all_ok)

  length-make_shards : (n memory : ℕ) → length (make_shards {Json = Json} n memory) ≡ n
  unfolding make_shards
  length-make_shards zero memory = refl
  length-make_shards (suc n) memory = ap suc (length-make_shards n memory)

  make_shards_new :
      (n memory i : ℕ) (s : CacheShard Json)
      → get_elem? (make_shards n memory) i ≡ some s
      → s ≡ new_shard memory
  unfolding make_shards
  make_shards_new zero memory i s f = cc
  make_shards_new (suc n) memory zero s f = sym (eq_of_some f)
  make_shards_new (suc n) memory (suc i) s f = make_shards_new n memory i s f

  new_shard_sound :
      (count memory i : ℕ) → ShardSound dump_size hash count 0 i nothing (new_shard memory)
  unfolding new_shard find
  new_shard_sound count memory i = record {
    valid = new_shard-IsValid dump_size memory;
    frugal = omega arith;
    homed = λ k e f. absurd (cc f);
    current = λ k e f. absurd (cc f);
  }

  -- A new cache is sound for the store that holds nothing.
  pub new_cache-IsSound :
      (max_memory_bytes shard_count : ℕ)
      → 0 < shard_count
      → (c : IpCache Json) × (new_cache max_memory_bytes shard_count ≡ some c)
        × IsSound dump_size hash 0 nothing c
  unfolding new_cache
  new_cache-IsSound max_memory_bytes shard_count positive =
      let memory = (max_memory_bytes + shard_count + size_mod - 1) % size_mod / shard_count in
      (
        record { shards = make_shards shard_count memory; shard_count = shard_count },
        ground arith,
        record {
          counted = length-make_shards shard_count memory;
          some_shard = positive;
          each = λ i s f.
              subst (ShardSound dump_size hash shard_count 0 i nothing)
                (sym (make_shards_new shard_count memory i s f))
                (new_shard_sound shard_count memory i);
        },
      )

  -- A cache built with at least one shard serves any sequence of lookups and stores, whose bytes
  -- fit a `size_t`, without undefined behaviour; each lookup misses, or returns the value last put
  -- under its key, at most the time to live of its type old.
  pub run_permitted :
      (max_memory_bytes shard_count : ℕ) (rs : List (Request Json))
      → 0 < shard_count
      → bytes rs < size_mod
      → (c d : IpCache Json) × (out : List (Option Json)) × (new_cache max_memory_bytes shard_count
          ≡ some c)
        × (run rs c ≡ some (d, out))
        × AllPermitted second nothing rs out
  run_permitted max_memory_bytes shard_count rs positive room =
      let (c, e, sound) = new_cache-IsSound max_memory_bytes shard_count positive in
      let (d, out, f, ok) = run_sound rs 0 nothing c sound (omega arith) in (c, d, out, e, f, ok)
