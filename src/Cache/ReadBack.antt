-- ===== src/Cache/ReadBack.antt =====
-- cache.h, `get` after `put` on one shard.
use ip_server.Base.{
  ℕ, ◌+◌, ◌-◌, ◌*◌, ◌<◌, ◌≡◌, sym, ap, ◌∙◌, Option, none, some, if◌then◌else◌, ltb, eq_of_some,
}
use ip_server.Base.Int.{size_mod}
use ip_server.Base.Text.{Str, Str-discrete as dec}
use ip_server.Store.Dict.{find}
use ip_server.Cache.{
  CacheEntry, CacheShard, CacheDataType, get, put, is_expired, ttl_for_type, estimate_entry_size,
}
use ip_server.Cache.Invariant.{IsValid}
use ip_server.Cache.Put.{put_lem, written}
use ip_server.Cache.Lookup.{get_lem, Outcome, miss, expired, hit, answer}

module _ {Json : Type 0} (dump_size : Json → ℕ) (second now : ℕ) (key : Str) where
  -- Whatever the branch, a lookup of a stored entry returns its value, unless it is too old.
  pub Outcome-answer :
      (s t : CacheShard Json) (r : Option Json) (e : CacheEntry Json)
      → find dec key s.cache_map ≡ some e
      → Outcome dump_size second now key s t r
      → r ≡ answer dump_size second now key s e
  Outcome-answer s t r e stored (miss absent _ _) = absurd (cc)
  Outcome-answer s t r e stored (expired x f old _ _ q) =
      let same : x ≡ e = eq_of_some (sym f ∙ stored) in
      rw (ap (is_expired second now) (sym same) ∙ old) q
  Outcome-answer s t r e stored (hit x f young _ _ q) =
      let same : x ≡ e = eq_of_some (sym f ∙ stored) in
      rw (ap (is_expired second now) (sym same) ∙ young)
        (q ∙ ap (λ (y : CacheEntry Json). some y.result) same)

  -- A `get` after a `put` of the same key on one shard is defined, and returns the value that was
  -- put while its age is at most the time to live of its type, and nothing afterwards.
  pub get-put :
      (put_at : ℕ) (result : Json) (data_type : CacheDataType) (s : CacheShard Json)
      {t : CacheShard Json}
      → IsValid dump_size s
      → s.memory_usage_bytes + estimate_entry_size dump_size key result < size_mod
      → put dump_size put_at key result data_type s ≡ some t
      → (u : CacheShard Json) × (get second now key t
          ≡ some (
            u,
            if ltb (ttl_for_type data_type * second) (now - put_at) then none else some result,
          ))
  unfolding is_expired
  get-put put_at result data_type s {t} h room e =
      let (t', e', st) = put_lem dump_size put_at key result data_type s h room in
      let same : t' ≡ t = eq_of_some (sym e' ∙ e) in
      let (u, r, run, _, out, _, _, _) = get_lem dump_size second now key t' st.valid in
      (
        u,
        ap (get second now key) (sym same)
            ∙ run
            ∙ ap (λ (x : Option Json). some (u, x))
                (Outcome-answer t' u r (written dump_size put_at key result data_type st.node)
                  st.holds out),
      )
