-- ===== src/Service/Through.antt =====
-- src/service: a cache in front of a database changes no answer.
use ip_server.Base.{
  ℕ, ◌+◌, ◌≤◌, ◌<◌, ◌≡◌, refl, sym, ap, ◌∙◌, if_pos, if_neg, inl, inr, Bool, true, false, List, [],
  ◌∷◌, Option, none, some, arith, ◌>>=◌, eq_of_some, Option-cases,
}
use ip_server.Base.Int.{size_mod}
use ip_server.Base.Text.{Str, Str-discrete as dec}
use ip_server.Cache.{CacheDataType, estimate_entry_size}
use ip_server.Cache.Sharded.{IpCache, new_cache}
use ip_server.Cache.Sharded
use ip_server.Cache.History.{Last, remember, IsSound, get-IsSound, put-IsSound}
use ip_server.Cache.Run.{nothing, new_cache-IsSound}
use ip_server.Service.{through_cache}

module _ {Value : Type 0} (hash : Str → ℕ) (dump_size : Value → ℕ) (second : ℕ)
    (resolve : Str → Option (Value × Option CacheDataType)) where
  -- The database resolves every key.
  abbrev pub Resolves : Type 0
  Resolves = (k : Str) → (a : Value × Option CacheDataType) × (resolve k ≡ some a)

  -- Whatever was put under a key is what the database resolves it to.
  abbrev Honest : Last Value → Type 0
  Honest last =
      (k : Str) (v : Value) (at : ℕ) (ty : CacheDataType)
      → last k ≡ some (v, at, ty)
      → resolve k ≡ some (v, some ty)

  remember-Honest :
      (last : Last Value) (key : Str) (v : Value) (now : ℕ) (ty : CacheDataType)
      → Honest last
      → resolve key ≡ some (v, some ty)
      → Honest (remember key v now ty last)
  remember-Honest last key v now ty h e k w at ty' f = elim (dec k key) [
    | yes p ↦
        let q = eq_of_some (sym (if_pos (dec k key) p (some (v, now, ty)) (last k)) ∙ f) in
        ap resolve p ∙ e ∙ ap (λ (x : Value × ℕ × CacheDataType). some (x.0, some x.2)) q
    | no n ↦ h k w at ty' (sym (if_neg (dec k key) n (some (v, now, ty)) (last k)) ∙ f)
  ]

  module _ (r : Resolves) where
    -- What the database answers to a key, without a cache.
    abbrev pub answer : Str → Value
    answer k = (r k).0.0

    -- A cache that is sound, and was only ever given answers.
    abbrev pub Serves : ℕ → IpCache Value → Type 0
    Serves spent c = (last : Last Value) × IsSound dump_size hash spent last c × Honest last

    abbrev Step : (spent now later : ℕ) → Str → IpCache Value → Type 0
    Step spent now later key c =
        (d : IpCache Value) × (v : Value) × (hit : Bool) × (through_cache hash dump_size second
            resolve now later key c
          ≡ some (d, v, hit))
        × (v ≡ answer key)
        × ((spent' : ℕ) × Serves spent' d
            × (spent' ≤ spent + estimate_entry_size dump_size key (answer key)))

    missed :
        (spent now later : ℕ) (key : Str) (c d : IpCache Value) (last : Last Value)
        → IsSound dump_size hash spent last d
        → Honest last
        → Sharded.get hash second now key c ≡ some (d, none)
        → (ty : Option CacheDataType) → resolve key ≡ some (answer key, ty)
        → spent + estimate_entry_size dump_size key (answer key) < size_mod
        → Step spent now later key c
    unfolding through_cache
    missed spent now later key c d last s h e none a room =
        (d, answer key, false, rw (e, a) refl, refl, (spent, (last, s, h), omega arith))
    missed spent now later key c d last s h e (some ty) a room =
        let v = answer key in
        let (d', e', s') = put-IsSound dump_size hash spent last d s later key v ty room in
        (
          d',
          v,
          false,
          rw (e, a, e') refl,
          refl,
          (
            spent + estimate_entry_size dump_size key v,
            (remember key v later ty last, s', remember-Honest last key v later ty h a),
            omega arith,
          ),
        )

    pub through_cache-Step :
        (spent now later : ℕ) (key : Str) (c : IpCache Value)
        → Serves spent c
        → spent + estimate_entry_size dump_size key (answer key) < size_mod
        → Step spent now later key c
    unfolding through_cache
    through_cache-Step spent now later key c (last, s, h) room =
        let (d, out, e, s', ok) = get-IsSound dump_size hash spent last c s second now key in
        elim (Option-cases out) [
          | inl n ↦
              missed spent now later key c d last s' h (e ∙ ap (λ o. some (d, o)) n) (r key).0.1
                (r key).1 room
          | inr (v, n) ↦
              let (at, ty, l, _) = ok v n in
              let same = eq_of_some (sym (h key v at ty l) ∙ (r key).1) in
              (
                d,
                v,
                true,
                rw (e, n) refl,
                ap (λ (x : Value × Option CacheDataType). x.0) same,
                (spent, (last, s', h), omega arith),
              )
        ]

    -- A sequence of lookups.
    abbrev pub serve : List (ℕ × ℕ × Str) → IpCache Value → Option (IpCache Value × List Value)
    serve [] c = some (c, [])
    serve ((now, later, key) ∷ calls) c = do
      (d, v, _) ← through_cache hash dump_size second resolve now later key c
      (e, vs) ← serve calls d
      some (e, v ∷ vs)

    abbrev pub answers : List (ℕ × ℕ × Str) → List Value
    answers [] = []
    answers ((now, later, key) ∷ calls) = answer key ∷ answers calls

    -- The bytes that the answers take in a cache.
    abbrev pub bytes : List (ℕ × ℕ × Str) → ℕ
    bytes [] = 0
    bytes ((now, later, key) ∷ calls) = estimate_entry_size dump_size key (answer key) + bytes calls

    serve-Serves :
        (calls : List (ℕ × ℕ × Str)) (spent : ℕ) (c : IpCache Value)
        → Serves spent c
        → spent + bytes calls < size_mod
        → (d : IpCache Value) × (serve calls c ≡ some (d, answers calls))
    serve-Serves [] spent c s room = (c, refl)
    serve-Serves ((now, later, key) ∷ calls) spent c s room =
        let (d, v, hit, e, a, (spent', s', less)) =
          through_cache-Step spent now later key c s (omega arith) in
        let (d', e') = serve-Serves calls spent' d s' (omega (arith, less, room)) in
        (d', rw (serve, e, e', a) refl)

    -- A cache in front of a database that resolves every key changes no answer: from a new cache
    -- with at least one shard on, any sequence of lookups whose answers fit a `size_t` is defined,
    -- and gives what the database gives, whatever was cached, evicted or expired.
    pub through_cache_lem :
        (max_memory_bytes shard_count : ℕ) (calls : List (ℕ × ℕ × Str))
        → 0 < shard_count
        → bytes calls < size_mod
        → (c d : IpCache Value) × (new_cache max_memory_bytes shard_count ≡ some c)
          × (serve calls c ≡ some (d, answers calls))
    through_cache_lem max_memory_bytes shard_count calls positive room =
        let (c, e, s) =
          new_cache-IsSound dump_size hash second max_memory_bytes shard_count positive in
        let (d, f) =
          serve-Serves calls 0 c (nothing, s, λ k v at ty q. absurd (cc q)) (omega arith) in
        (c, d, e, f)
