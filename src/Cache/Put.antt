-- ===== src/Cache/Put.antt =====
-- cache.h, `put`: what it stores, what it leaves alone, and the budget.
use ip_server.Base.{
  ℕ, ◌+◌, ◌≤◌, ◌<◌, ◌≡◌, ◌≢◌, refl, sym, ap, ◌⊎◌, inl, inr, ◌∷◌, none, some, arith, length,
  Option-cases,
}
use ip_server.Base.Int.{size_mod}
use ip_server.Base.Text.{Str, Str-discrete as dec}
use ip_server.Store.Dict.{
  find, assign, length-assign, emplace_absent, find-cons_self, find-cons_cases, find-assign_self,
  find-assign_cases,
}
use ip_server.Store.NodeList.{push_front}
use ip_server.Store.Linked.{moved, push_front-Linked, splice_front-Linked, assign-Linked}
use ip_server.Cache.{
  CacheEntry, CacheShard, CacheDataType, add_size, sub_size, estimate_entry_size, update_entry,
  insert_entry, put,
}
use ip_server.Cache.Invariant.{IsValid, list_it, total, total-erase, total-assign}
use ip_server.Cache.Evict.{evict_if_needed_lem, over_budget_stop}

module _ {Json : Type 0} (dump_size : Json → ℕ) (now : ℕ) (key : Str) (result : Json)
    (data_type : CacheDataType) where
  abbrev pub new_size : ℕ
  new_size = estimate_entry_size dump_size key result

  -- The entry that a call writes, at a node of the list.
  abbrev pub written : ℕ → CacheEntry Json
  written node = record {
    result = result;
    timestamp = now;
    list_it = node;
    size_bytes = new_size;
    data_type = data_type;
  }

  -- The shard after an insertion at the front.
  abbrev pub inserted : CacheShard Json → CacheShard Json
  inserted s = record s {
    cache_list = push_front key s.cache_list;
    cache_map = (key, written s.cache_list.next) ∷ s.cache_map;
    memory_usage_bytes = add_size s.memory_usage_bytes new_size;
  }

  pub insert_entry_lem :
      (s : CacheShard Json)
      → find dec key s.cache_map ≡ none
      → insert_entry dump_size now key result data_type s ≡ inserted s
  unfolding insert_entry
  insert_entry_lem s absent =
      ap
        (λ m. record s {
          cache_list = push_front key s.cache_list;
          cache_map = m;
          memory_usage_bytes = add_size s.memory_usage_bytes new_size;
        })
        (emplace_absent dec key (written s.cache_list.next) s.cache_map absent)

  pub inserted-IsValid :
      (s : CacheShard Json)
      → IsValid dump_size s
      → find dec key s.cache_map ≡ none
      → s.memory_usage_bytes + new_size < size_mod
      → IsValid dump_size (inserted s)
  unfolding total
  inserted-IsValid s h absent room = record {
    links =
        push_front-Linked dec list_it s.cache_map s.cache_list h.links key
          (written s.cache_list.next) absent refl;
    sized = λ k e f. elim (find-cons_cases dec key k (written s.cache_list.next) e s.cache_map f) [
      | inl (p, q) ↦ rw q (ap (λ j. estimate_entry_size dump_size j result) p)
      | inr (_, g) ↦ h.sized k e g
    ];
    accounted = omega (arith, h.accounted);
    fits = omega arith;
  }

  -- The shard after an update in place.
  abbrev pub updated : CacheShard Json → CacheEntry Json → CacheShard Json
  updated s e = record s {
    memory_usage_bytes = add_size (sub_size s.memory_usage_bytes e.size_bytes) new_size;
    cache_map = assign dec key (written e.list_it) s.cache_map;
    cache_list = moved e.list_it key s.cache_list;
  }

  module _ (s : CacheShard Json) (h : IsValid dump_size s)
      (room : s.memory_usage_bytes + new_size < size_mod) where
    update_entry_lem :
        (e : CacheEntry Json)
        → find dec key s.cache_map ≡ some e
        → (update_entry dump_size now key result data_type e s ≡ some (updated s e))
          × IsValid dump_size (updated s e)
          × ((updated s e).memory_usage_bytes + e.size_bytes ≡ s.memory_usage_bytes + new_size)
    unfolding update_entry
    update_entry_lem e stored =
        let (defined, links) =
          splice_front-Linked dec list_it s.cache_map s.cache_list h.links key e stored in
        let erased = total-erase key e s.cache_map stored in
        let changed = total-assign key e (written e.list_it) s.cache_map stored in
        (
          rw (defined, update_entry),
          record {
            links =
                assign-Linked dec list_it s.cache_map (moved e.list_it key s.cache_list) links key
                  (written e.list_it) e stored refl;
            sized = λ k x f.
                elim (find-assign_cases dec k key (written e.list_it) x s.cache_map f) [
                  | inl (p, q) ↦ rw q (ap (λ j. estimate_entry_size dump_size j result) (sym p))
                  | inr (_, g) ↦ h.sized k x g
                ];
            accounted = omega (arith, h.accounted, h.fits, erased, changed);
            fits = omega (arith, h.accounted, h.fits, erased);
          },
          omega (arith, h.accounted, h.fits, erased),
        )

    -- The shard after `put`: it is valid and holds the new value under the key, with the time of
    -- the call; every other entry it holds was there before, unchanged.
    pub record Stores (t : CacheShard Json) : Type 0 where
      pub valid : IsValid dump_size t
      pub node : ℕ
      pub holds : find dec key t.cache_map ≡ some (written node)
      pub others :
          (k : Str) (e : CacheEntry Json)
          → k ≢ key
          → find dec k t.cache_map ≡ some e
          → find dec k s.cache_map ≡ some e
      pub same_budget : t.max_memory_bytes ≡ s.max_memory_bytes
      pub growth : t.memory_usage_bytes ≤ s.memory_usage_bytes + new_size

    -- `put` of a key that is there is defined and evicts nothing: the memory in use changes by the
    -- difference of the sizes, whatever the budget.
    pub put_known :
        (e : CacheEntry Json)
        → find dec key s.cache_map ≡ some e
        → (t : CacheShard Json) × (put dump_size now key result data_type s ≡ some t)
          × Stores t
          × (t.memory_usage_bytes + e.size_bytes ≡ s.memory_usage_bytes + new_size)
          × (length t.cache_map ≡ length s.cache_map)
    unfolding put
    put_known e stored =
        let (defined, valid, memory) = update_entry_lem e stored in
        (
          updated s e,
          rw (stored, put) defined,
          record {
            valid = valid;
            node = e.list_it;
            holds = find-assign_self dec key (written e.list_it) e s.cache_map stored;
            others = λ k x other f.
                elim (find-assign_cases dec k key (written e.list_it) x s.cache_map f) [
                  | inl (p, _) ↦ absurd (other p)
                  | inr (_, g) ↦ g
                ];
            same_budget = refl;
            growth = omega (arith, memory);
          },
          memory,
          length-assign dec key (written e.list_it) s.cache_map,
        )

    -- `put` of a new key is defined, and afterwards the memory in use is within the budget, or the
    -- new entry is the only one.
    pub put_new :
        find dec key s.cache_map ≡ none
        → (t : CacheShard Json) × (put dump_size now key result data_type s ≡ some t)
          × Stores t
          × ((t.memory_usage_bytes ≤ t.max_memory_bytes) ⊎ (length t.cache_map ≡ 1))
    unfolding put
    put_new absent =
        let (t, e, ev, fits, _) = evict_if_needed_lem dump_size new_size s h in
        let gone = ev.missing key absent in
        (
          inserted t,
          rw (absent, put) (rw e (ap some (insert_entry_lem t gone))),
          record {
            valid = inserted-IsValid t ev.valid gone (omega (arith, ev.memory));
            node = t.cache_list.next;
            holds = find-cons_self dec key (written t.cache_list.next) t.cache_map;
            others = λ k x other f.
                elim (find-cons_cases dec key k (written t.cache_list.next) x t.cache_map f) [
                  | inl (p, _) ↦ absurd (other (sym p))
                  | inr (_, g) ↦ ev.held k x g
                ];
            same_budget = ev.same_budget;
            growth = omega (arith, ev.memory);
          },
          elim (over_budget_stop new_size t fits) [
            | inl within ↦ inl within
            | inr empty ↦ inr (omega (arith, ev.valid.links.same_size, empty))
          ],
        )

    -- `put` is defined on every valid shard whose sizes fit a `size_t`.
    pub put_lem :
        (t : CacheShard Json) × (put dump_size now key result data_type s ≡ some t) × Stores t
    put_lem = elim (Option-cases (find dec key s.cache_map)) [
      | inl absent ↦ let (t, e, st, _) = put_new absent in (t, e, st)
      | inr (x, stored) ↦ let (t, e, st, _, _) = put_known x stored in (t, e, st)
    ]
