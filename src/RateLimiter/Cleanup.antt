-- ===== src/RateLimiter/Cleanup.antt =====
-- rate_limiter.cpp, `cleanup`: the two loops over the table.
use ip_server.Base.{
  if_pos, ℕ, suc, ◌≡◌, refl, sym, ap, subst, ◌∙◌, inl, inr, true, false, List, [], ◌∷◌, ◌++◌, some,
  none, arith, length, if_pos, not, Bool-cases, keep,
}
use mathlib.Core.List.{append_assoc}
use ip_server.Base.Text.{Str, Str-discrete as dec}
use ip_server.Store.Dict.{find, erase, Distinct}
use ip_server.Store.NodeList.{NodeList, erase_node}
use ip_server.Store.Linked.{Linked, without, erase_node-Linked}
use ip_server.RateLimiter.{IpRecord, cleanup_old_timestamps, clean_all, is_idle, remove_idle}
use ip_server.RateLimiter.Invariant.{lru_it}

abbrev pub Records : Type 0
Records = List (Str × IpRecord)

-- The records that stay.
abbrev pub active : Records → Records
active = keep λ e. not (is_idle e.1)

module _ (ip : Str) (r : IpRecord) (m : Records) where
  find-middle :
      (done : Records)
      → Distinct dec (done ++ (ip, r) ∷ m)
      → find dec ip (done ++ (ip, r) ∷ m) ≡ some r
  unfolding find
  find-middle [] d = if_pos (dec ip ip) refl _ _
  find-middle ((j, x) ∷ done) d =
      ground (arith, find-middle done d.1, ap (λ k. find dec k (done ++ (ip, r) ∷ m)))

  erase-middle :
      (done : Records)
      → Distinct dec (done ++ (ip, r) ∷ m)
      → erase dec ip (done ++ (ip, r) ∷ m) ≡ done ++ m
  unfolding find erase
  erase-middle [] d = if_pos (dec ip ip) refl _ _
  erase-middle ((j, x) ∷ done) d = ground (arith, find-middle done d.1, erase-middle done d.1)

remove_idle_drop :
    (ip : Str) (r : IpRecord) (m : Records) (l : NodeList Str) {l' : NodeList Str}
    → is_idle r ≡ true
    → erase_node r.lru_it l ≡ some l'
    → remove_idle ((ip, r) ∷ m) l ≡ remove_idle m l'
unfolding remove_idle
remove_idle_drop ip r m l e f = rw (e, f)

remove_idle_keep :
    (ip : Str) (r : IpRecord) (m : Records) (l : NodeList Str) {l' : NodeList Str} {m' : Records}
    → is_idle r ≡ false
    → remove_idle m l ≡ some (m', l')
    → remove_idle ((ip, r) ∷ m) l ≡ some ((ip, r) ∷ m', l')
unfolding remove_idle
remove_idle_keep ip r m l e f = rw (e, f)

-- The second loop never meets a dangling iterator; it keeps the active records in order, and the
-- links.
pub remove_idle_lem :
    (done m : Records) (l : NodeList Str)
    → Linked dec lru_it (done ++ m) l
    → (l' : NodeList Str) × (remove_idle m l ≡ some (active m, l'))
      × Linked dec lru_it (done ++ active m) l'
remove_idle_lem done [] l h = (l, unfold remove_idle in refl, h)
remove_idle_lem done ((ip, r) ∷ m) l h = elim (Bool-cases (is_idle r)) [
  | inl idle ↦
      let here = find-middle ip r m done h.keys_distinct in
      let (erased, links) = erase_node-Linked dec lru_it (done ++ (ip, r) ∷ m) l h ip r here in
      let (l', run, links') = remove_idle_lem done m (without r.lru_it l) (
        subst (λ x. Linked dec lru_it x (without r.lru_it l))
          (erase-middle ip r m done h.keys_distinct) links) in
      (l', rw idle (remove_idle_drop ip r m l idle erased ∙ run), rw idle links')
  | inr busy ↦
      let (l', run, links') =
        remove_idle_lem (done ++ (ip, r) ∷ []) m l
          (subst (λ x. Linked dec lru_it x l) (sym (append_assoc done ((ip, r) ∷ []) m)) h) in
      (
        l',
        rw busy (remove_idle_keep ip r m l busy run),
        rw busy (
            subst (λ x. Linked dec lru_it x l') (append_assoc done ((ip, r) ∷ []) (active m))
              links'),
      )
]

-- What the first loop does to the record of a client: it is cleaned at some reading.
module _ (w : ℕ) (clock : ℕ → ℕ) where
  pub find-clean_all :
      (i : ℕ) (m : Records) (ip : Str) (r : IpRecord)
      → find dec ip m ≡ some r
      → (j : ℕ) × (find dec ip (clean_all w clock i m)
          ≡ some (cleanup_old_timestamps w (clock j) r))
  unfolding find clean_all
  find-clean_all i [] ip r f = absurd (cc f)
  find-clean_all i ((k, x) ∷ m) ip r f = elim (dec k ip) [
    | yes p ↦ (i, ground arith)
    | no n ↦ let (j, e) = find-clean_all (suc i) m ip r (ground arith) in (j, ground arith)
  ]

  pub find-clean_all_back :
      (i : ℕ) (m : Records) (ip : Str) (r' : IpRecord)
      → find dec ip (clean_all w clock i m) ≡ some r'
      → (j : ℕ) × (r : IpRecord) × (find dec ip m ≡ some r)
        × (r' ≡ cleanup_old_timestamps w (clock j) r)
  unfolding find clean_all
  find-clean_all_back i [] ip r f = absurd (cc f)
  find-clean_all_back i ((k, x) ∷ m) ip r' f = elim (dec k ip) [
    | yes p ↦ (i, x, ground arith, ground arith)
    | no n ↦
        let (j, r, e, q) = find-clean_all_back (suc i) m ip r' (ground arith) in
        (j, r, ground arith, q)
  ]

  pub find-clean_all-none :
      (i : ℕ) (m : Records) (ip : Str)
      → find dec ip m ≡ none
      → find dec ip (clean_all w clock i m) ≡ none
  unfolding find clean_all
  find-clean_all-none i [] ip f = refl
  find-clean_all-none i ((k, x) ∷ m) ip f = ground (arith, find-clean_all-none (suc i) m ip)

  pub clean_all-Distinct :
      (i : ℕ) (m : Records) → Distinct dec m → Distinct dec (clean_all w clock i m)
  unfolding clean_all
  clean_all-Distinct i [] d = tt
  clean_all-Distinct i ((k, x) ∷ m) d =
      (find-clean_all-none (suc i) m k d.0, clean_all-Distinct (suc i) m d.1)

  pub length-clean_all : (i : ℕ) (m : Records) → length (clean_all w clock i m) ≡ length m
  unfolding clean_all
  length-clean_all i [] = refl
  length-clean_all i ((k, x) ∷ m) = ap suc (length-clean_all (suc i) m)
