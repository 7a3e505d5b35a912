-- ===== src/Cache/Evict.antt =====
-- cache.h, `evict_if_needed`: the loop ends, drops entries from the least recent end only, and
-- only while the new entry does not fit.
use ip_server.Base.{
  ◌⊎◌, ℕ_discrete, eq_of_some, ℕ_discrete, ℕ, zero, suc, ◌≤◌, ◌<◌, ◌≡◌, refl, sym, ap, ◌∙◌, inl,
  inr, true, false, List, [], ◌∷◌, ◌++◌, none, some, arith, length, Bool-cases,
}
use mathlib.Core.List.{append_assoc, append-nil}
use ip_server.Base.Text.{Str, Str-discrete as dec}
use ip_server.Store.Dict.{find, erase, find-erase_cases, find-erase-none, length-erase, Distinct}
use ip_server.Store.NodeList.{last_node-find, last_node, last_node-cons}
use ip_server.Store.Linked.{without, pop_back-Linked, erase_node-Linked}
use ip_server.Cache.{
  add_size, CacheEntry, CacheShard, evict_one, evict_rounds, evict_if_needed, over_budget, is_empty,
  sub_size, inc,
}
use ip_server.Cache.Invariant.{IsValid, list_it, total, total-erase}

-- An eviction drops the end of the list.
erase-last :
    (ns : List (ℕ × Str)) (i : ℕ) (k : Str)
    → Distinct ℕ_discrete ns
    → last_node ns ≡ some (i, k)
    → erase ℕ_discrete i ns ++ (i, k) ∷ [] ≡ ns
unfolding last_node erase
erase-last [] i k d e = cc
erase-last ((j, x) ∷ []) i k d e = ground arith
erase-last ((j, x) ∷ n ∷ ns) i k d e =
    ground (arith, erase-last (n ∷ ns) i k d.1 e, last_node-find (n ∷ ns) i k d.1 e)

is_empty-length : (ns : List (ℕ × Str)) → is_empty ns ≡ true → length ns ≡ 0
is_empty-length [] h = refl
is_empty-length (n ∷ ns) h = absurd (cc)

module _ {Json : Type 0} where
  over_budget_full :
      (new : ℕ) (s : CacheShard Json)
      → over_budget new s ≡ true
      → is_empty s.cache_list.nodes ≡ false
  unfolding over_budget
  over_budget_full new s h = ground arith

  -- Where the loop stops the new entry fits, or nothing is left to drop.
  pub over_budget_stop :
      (new : ℕ) (s : CacheShard Json)
      → over_budget new s ≡ false
      → (add_size s.memory_usage_bytes new ≤ s.max_memory_bytes) ⊎ (length s.cache_list.nodes ≡ 0)
  unfolding over_budget
  over_budget_stop new s h = elim (Bool-cases (is_empty s.cache_list.nodes)) [
    | inl none_left ↦ inr (is_empty-length s.cache_list.nodes none_left)
    | inr some_left ↦ inl (ground arith)
  ]

  evict_rounds_stop :
      (fuel new : ℕ) (s : CacheShard Json)
      → over_budget new s ≡ false
      → evict_rounds (suc fuel) new s ≡ some s
  unfolding evict_rounds
  evict_rounds_stop fuel new s h = rw h

module _ {Json : Type 0} (dump_size : Json → ℕ) where
  -- What evictions leave: a valid shard that holds some of the entries, the most recent ones, as
  -- they were.
  pub record Evicts (s t : CacheShard Json) : Type 0 where
    pub valid : IsValid dump_size t
    pub held :
        (k : Str) (e : CacheEntry Json)
        → find dec k t.cache_map ≡ some e
        → find dec k s.cache_map ≡ some e
    pub missing : (k : Str) → find dec k s.cache_map ≡ none → find dec k t.cache_map ≡ none
    pub dropped : (end : List (ℕ × Str)) × (t.cache_list.nodes ++ end ≡ s.cache_list.nodes)
    pub memory : t.memory_usage_bytes ≤ s.memory_usage_bytes
    pub same_budget : t.max_memory_bytes ≡ s.max_memory_bytes

  Evicts-refl : (s : CacheShard Json) → IsValid dump_size s → Evicts s s
  Evicts-refl s h = record {
    valid = h;
    held = λ k e f. f;
    missing = λ k f. f;
    dropped = ([], append-nil s.cache_list.nodes);
    memory = omega arith;
    same_budget = refl;
  }

  Evicts-trans : {s t u : CacheShard Json} → Evicts s t → Evicts t u → Evicts s u
  Evicts-trans {s} {t} {u} a b =
      let (e, p) = a.dropped in
      let (f, q) = b.dropped in
      record {
        valid = b.valid;
        held = λ k x g. a.held k x (b.held k x g);
        missing = λ k g. b.missing k (a.missing k g);
        dropped = (f ++ e, sym (append_assoc u.cache_list.nodes f e) ∙ ap (λ x. x ++ e) q ∙ p);
        memory = omega (arith, a.memory, b.memory);
        same_budget = b.same_budget ∙ a.same_budget;
      }

  module _ (s : CacheShard Json) (h : IsValid dump_size s) (k : Str) (e : CacheEntry Json)
      (stored : find dec k s.cache_map ≡ some e) where
    -- The accounts after an entry leaves.
    pub sub_size-total :
        sub_size s.memory_usage_bytes e.size_bytes ≡ total (erase dec k s.cache_map)
    sub_size-total = omega (arith, h.accounted, h.fits, total-erase k e s.cache_map stored)

    -- A valid shard without one of its entries is valid, whatever the counters.
    pub without-IsValid :
        (x : CacheShard Json)
        → x.cache_map ≡ erase dec k s.cache_map
        → x.cache_list ≡ without e.list_it s.cache_list
        → x.memory_usage_bytes ≡ sub_size s.memory_usage_bytes e.size_bytes
        → IsValid dump_size x
    without-IsValid x map list memory =
        let links = (erase_node-Linked dec list_it s.cache_map s.cache_list h.links k e stored).1 in
        record {
          links = rw (map, list) links;
          sized = λ j y f.
              h.sized j y
                (find-erase_cases dec j k y s.cache_map h.links.keys_distinct
                  (sym (ap (find dec j) map) ∙ f)).1;
          accounted = memory ∙ sub_size-total ∙ ap total (sym map);
          fits = omega (arith, memory);
        }

  last_of :
      (ns : List (ℕ × Str))
      → is_empty ns ≡ false
      → (i : ℕ) × (k : Str) × (last_node ns ≡ some (i, k))
  last_of [] h = absurd (cc)
  last_of (n ∷ ns) h = let ((i, k), e) = last_node-cons n ns in (i, k, e)

  -- The shard after a round.
  abbrev drop_entry : CacheShard Json → Str → CacheEntry Json → CacheShard Json
  drop_entry s k e = record s {
    memory_usage_bytes = sub_size s.memory_usage_bytes e.size_bytes;
    cache_list = without e.list_it s.cache_list;
    cache_map = erase dec k s.cache_map;
    stats = record s.stats { evictions = inc s.stats.evictions };
  }

  -- A round on a shard that is not empty is defined, and drops one entry.
  evict_one_lem :
      (s : CacheShard Json)
      → IsValid dump_size s
      → is_empty s.cache_list.nodes ≡ false
      → (t : CacheShard Json) × (evict_one s ≡ some t)
        × Evicts s t
        × (suc (length t.cache_list.nodes) ≡ length s.cache_list.nodes)
  unfolding evict_one
  evict_one_lem s h full =
      let (i, k, last) = last_of s.cache_list.nodes full in
      let (e, stored, at, at_back, _, _) =
        pop_back-Linked dec list_it s.cache_map s.cache_list h.links i k last in
      let (erased, _) = erase_node-Linked dec list_it s.cache_map s.cache_list h.links k e stored in
      let here = h.links.points k e stored in
      (
        drop_entry s k e,
        ground (arith, at_back, stored, erased),
        record {
          valid = without-IsValid s h k e stored (drop_entry s k e) refl refl refl;
          held = λ j x f. (find-erase_cases dec j k x s.cache_map h.links.keys_distinct f).1;
          missing = λ j f. find-erase-none dec j k s.cache_map f;
          dropped =
              ((i, k) ∷ [], rw at (erase-last s.cache_list.nodes i k h.links.nodes_distinct last));
          memory = omega (arith, h.accounted, h.fits, total-erase k e s.cache_map stored);
          same_budget = refl;
        },
        length-erase ℕ_discrete e.list_it k s.cache_list.nodes here,
      )

  -- The loop, given a round of fuel for each node and one more, ends by its own test.
  evict_rounds_lem :
      (fuel new : ℕ) (s : CacheShard Json)
      → IsValid dump_size s
      → length s.cache_list.nodes < fuel
      → (t : CacheShard Json) × (evict_rounds fuel new s ≡ some t)
        × Evicts s t
        × (over_budget new t ≡ false)
  unfolding evict_rounds
  evict_rounds_lem zero new s h lt = absurd (omega arith)
  evict_rounds_lem (suc fuel) new s h lt = elim (Bool-cases (over_budget new s)) [
    | inr fits ↦ (s, rw fits, Evicts-refl s h, fits)
    | inl over ↦
        let (t, e, ev, fewer) = evict_one_lem s h (over_budget_full new s over) in
        let (u, run, ev', fits) = evict_rounds_lem fuel new t ev.valid (omega (arith, fewer)) in
        (u, rw over (rw e run), Evicts-trans ev ev', fits)
  ]

  -- `evict_if_needed` on a valid shard is defined. It drops entries from the least recently used
  -- end only, until the list is empty or the new entry fits the budget, and none if it fits.
  pub evict_if_needed_lem :
      (new : ℕ) (s : CacheShard Json)
      → IsValid dump_size s
      → (t : CacheShard Json) × (evict_if_needed new s ≡ some t)
        × Evicts s t
        × (over_budget new t ≡ false)
        × (over_budget new s ≡ false → t ≡ s)
  unfolding evict_if_needed
  evict_if_needed_lem new s h =
      let fuel = suc (length s.cache_list.nodes) in
      let (t, e, ev, fits) = evict_rounds_lem fuel new s h (omega arith) in
      (t, e, ev, fits, λ q. eq_of_some (sym e ∙ evict_rounds_stop _ new s q))
