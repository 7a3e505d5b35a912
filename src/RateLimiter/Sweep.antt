-- ===== src/RateLimiter/Sweep.antt =====
-- rate_limiter.cpp, `cleanup` as a whole: the invariant, and which clients are forgotten.
use ip_server.Base.{
  ℕ, ◌≤◌, ◌≡◌, refl, ap, ◌∙◌, inl, inr, [], ◌∷◌, some, none, arith, length, Option-cases,
  length-keep-le, not, if◌then◌else◌,
}
use native.Mathlib.Nat.{le_trans}
use ip_server.Base.Int.{pos_part}
use ip_server.Base.Text.{Str, Str-discrete as dec}
use ip_server.Store.Dict.{find, Distinct}
use ip_server.Store.NodeList.{NodeList}
use ip_server.Store.Linked.{Linked}
use ip_server.RateLimiter.{
  RateLimiter, IpRecord, cleanup_old_timestamps, clean_all, is_idle, cleanup,
}
use ip_server.RateLimiter.Invariant.{IsValid, lru_it, length-pop_old-le}
use ip_server.RateLimiter.Cleanup.{
  Records, active, remove_idle_lem, find-clean_all, find-clean_all_back, find-clean_all-none,
  clean_all-Distinct, length-clean_all,
}

find-active-none : (m : Records) (ip : Str) → find dec ip m ≡ none → find dec ip (active m) ≡ none
unfolding find
find-active-none [] ip f = refl
find-active-none ((k, x) ∷ m) ip f = ground (arith, find-active-none m ip)

find-active :
    (m : Records) (ip : Str) (r : IpRecord)
    → Distinct dec m
    → find dec ip m ≡ some r
    → find dec ip (active m) ≡ (if is_idle r then none else some r)
unfolding find
find-active [] ip r d f = cc
find-active ((k, x) ∷ m) ip r d f =
    ground
      (arith, find-active m ip r d.1, find-active-none m k d.0, ap (λ y. find dec y (active m)))

find-active_back :
    (m : Records) (ip : Str) (r : IpRecord)
    → Distinct dec m
    → find dec ip (active m) ≡ some r
    → find dec ip m ≡ some r
find-active_back m ip r d f = elim (Option-cases (find dec ip m)) [
  | inl e ↦ absurd (cc (find-active-none m ip e))
  | inr (x, e) ↦ ground (arith, find-active m ip x d e)
]

module _ (w : ℕ) (clock : ℕ → ℕ) where
  clean_all-Linked :
      (m : Records) (l : NodeList Str)
      → Linked dec lru_it m l
      → Linked dec lru_it (clean_all w clock 0 m) l
  unfolding cleanup_old_timestamps
  clean_all-Linked m l h = record {
    keys_distinct = clean_all-Distinct w clock 0 m h.keys_distinct;
    nodes_distinct = h.nodes_distinct;
    points =
        λ k v f. let (j, r, e, q) = find-clean_all_back w clock 0 m k v f in rw q (h.points k r e);
    owned = λ i k f.
        let (r, e, at) = h.owned i k f in
        let (j, e') = find-clean_all w clock 0 m k r e in
        (cleanup_old_timestamps w (clock j) r, e', at);
    fresh = h.fresh;
    same_size = length-clean_all w clock 0 m ∙ h.same_size;
  }

clean-le :
    (s : RateLimiter) (h : IsValid s) (ip : Str) (r : IpRecord) (now : ℕ)
    → find dec ip s.ip_records ≡ some r
    → length (cleanup_old_timestamps s.window now r).timestamps ≤ pos_part s.max_requests
unfolding cleanup_old_timestamps
clean-le s h ip r now e = le_trans (length-pop_old-le s.window now r.timestamps) (h.filled ip r e)

-- `cleanup` on a valid limiter is defined, and the limiter it leaves is valid. A client without a
-- record gets none. The record of a client is cleaned at one of the readings; it stays, cleaned,
-- if a timestamp is left in it, and goes otherwise.
pub cleanup_lem :
    (s : RateLimiter) (clock : ℕ → ℕ)
    → IsValid s
    → (t : RateLimiter) × (cleanup clock s ≡ some t)
      × IsValid t
      × ((ip : Str) → find dec ip s.ip_records ≡ none → find dec ip t.ip_records ≡ none)
      × ((ip : Str) (r : IpRecord)
          → find dec ip s.ip_records ≡ some r
          → (j : ℕ) × (find dec ip t.ip_records ≡ (
              if is_idle (cleanup_old_timestamps s.window (clock j) r)
              then none
              else some (cleanup_old_timestamps s.window (clock j) r))))
unfolding cleanup
cleanup_lem s clock h =
    let m = clean_all s.window clock 0 s.ip_records in
    let links = clean_all-Linked s.window clock s.ip_records s.lru_list h.links in
    let (l, run, links') = remove_idle_lem [] m s.lru_list links in
    (
      record s { ip_records = active m; lru_list = l },
      rw (run, cleanup),
      record {
        links = links';
        bounded = omega (
          arith,
          h.bounded,
          length-keep-le (λ (e : Str × IpRecord). not (is_idle e.1)) m,
          length-clean_all s.window clock 0 s.ip_records,
        );
        filled = λ ip r f.
            let (j, r₀, e, q) =
              find-clean_all_back s.window clock 0 s.ip_records ip r
                (find-active_back m ip r links.keys_distinct f) in
            rw q (clean-le s h ip r₀ (clock j) e);
        int_range = h.int_range;
      },
      λ ip f. find-active-none m ip (find-clean_all-none s.window clock 0 s.ip_records ip f),
      λ ip r f.
          let (j, e) = find-clean_all s.window clock 0 s.ip_records ip r f in
          (j, find-active m ip _ links.keys_distinct e),
    )
