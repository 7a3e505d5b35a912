-- ===== src/RateLimiter/Invariant.antt =====
-- rate_limiter.cpp: the invariant of the limiter, and what each private step does to it.
use ip_server.Base.{
  ℕ, suc, ◌+◌, ◌-◌, ◌^◌, ◌≤◌, ◌<◌, ◌≡◌, refl, sym, ap, ◌∙◌, ◌⊎◌, inl, inr, List, [], ◌∷◌, some,
  arith, length,
}
use ip_server.Base.Int.{pos_part}
use ip_server.Base.Text.{Str, Str-discrete as dec}
use ip_server.Store.Dict.{find, erase, find-erase_ne, find-erase_self, length-erase}
use ip_server.Store.NodeList.{last_node, last_node-cons}
use ip_server.Store.Linked.{Linked, without, pop_back-Linked}
use ip_server.RateLimiter.{RateLimiter, IpRecord, pop_old, evict_lru}

abbrev pub lru_it : IpRecord → ℕ
lru_it r = r.lru_it

-- The links between the map and the list; at most `max_ip_records` records (one if that is 0); and
-- no record with more timestamps than `max_requests`, an `int` that is positive where there are
-- records.
pub record IsValid (s : RateLimiter) : Type 0 where
  pub links : Linked dec lru_it s.ip_records s.lru_list
  pub bounded : length s.ip_records ≤ s.max_ip_records + (1 - s.max_ip_records)
  pub filled :
      (ip : Str) (r : IpRecord)
      → find dec ip s.ip_records ≡ some r
      → length r.timestamps ≤ pos_part s.max_requests
  pub int_range : pos_part s.max_requests < 2 ^ 31

pub length-pop_old-le : (w now : ℕ) (ts : List ℕ) → length (pop_old w now ts) ≤ length ts
unfolding pop_old
length-pop_old-le w now [] = omega arith
length-pop_old-le w now (t ∷ ts) = ground (arith, length-pop_old-le w now ts)

-- The limiter without its least recently used client.
abbrev pub evicted : ℕ → Str → RateLimiter → RateLimiter
evicted i k s = record s { ip_records = erase dec k s.ip_records; lru_list = without i s.lru_list }

module _ (s : RateLimiter) (h : IsValid s) where
  evicted-IsValid :
      (i : ℕ) (k : Str) → last_node s.lru_list.nodes ≡ some (i, k) → IsValid (evicted i k s)
  evicted-IsValid i k e =
      let (v, stored, _, _, _, links) =
        pop_back-Linked dec lru_it s.ip_records s.lru_list h.links i k e in
      record {
        links = links;
        bounded = omega (arith, h.bounded, length-erase dec k v s.ip_records stored);
        filled = λ ip r f. elim (dec ip k) [
          | yes q ↦ absurd (
              cc (
                ap (λ x. find dec x (erase dec k s.ip_records)) q,
                find-erase_self dec k s.ip_records h.links.keys_distinct,
              ))
          | no n ↦ h.filled ip r (sym (find-erase_ne dec ip k s.ip_records n) ∙ f)
        ];
        int_range = h.int_range;
      }

  -- `evict_lru` is defined; it does nothing on an empty limiter, and otherwise drops the client
  -- of the last node.
  pub evict_lru_lem :
      ((s.ip_records ≡ []) × (evict_lru s ≡ some s))
      ⊎ ((i : ℕ) × (k : Str) × (last_node s.lru_list.nodes ≡ some (i, k))
          × (evict_lru s ≡ some (evicted i k s))
          × IsValid (evicted i k s)
          × (suc (length (evicted i k s).ip_records) ≡ length s.ip_records))
  unfolding evict_lru
  evict_lru_lem = go s.lru_list.nodes s.ip_records refl refl
    where
      go :
          (ns : List (ℕ × Str)) (m : List (Str × IpRecord))
          → s.lru_list.nodes ≡ ns
          → s.ip_records ≡ m
          → ((s.ip_records ≡ []) × (evict_lru s ≡ some s))
            ⊎ ((i : ℕ) × (k : Str) × (last_node s.lru_list.nodes ≡ some (i, k))
                × (evict_lru s ≡ some (evicted i k s))
                × IsValid (evicted i k s)
                × (suc (length (evicted i k s).ip_records) ≡ length s.ip_records))
      go [] [] e f = inl (f, ground (arith, e))
      go [] (x ∷ m) e f = absurd (omega (arith, h.links.same_size, ap length e, ap length f))
      go (n ∷ ns) m e f =
          let ((i, k), last) = last_node-cons n ns in
          let last' : last_node s.lru_list.nodes ≡ some (i, k) = ap last_node e ∙ last in
          let (v, stored, _, at_back, popped, _) =
            pop_back-Linked dec lru_it s.ip_records s.lru_list h.links i k last' in
          inr (
            i,
            k,
            last',
            ground (arith, e, at_back, popped),
            evicted-IsValid i k last',
            length-erase dec k v s.ip_records stored,
          )
