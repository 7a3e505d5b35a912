-- ===== src/Store/Dict.antt =====
-- `std::unordered_map`: the calls that rate_limiter.cpp and cache.h make of it, over an
-- association list. The order of the list stands for the iteration order of the table.
use ip_server.Base.{
  suc, ◌≡◌, refl, sym, ap, subst, ◌∙◌, ◌≢◌, ◌⊎◌, inl, inr, ite, if_pos, if_neg, List, [], ◌∷◌,
  Option, none, some, arith, length, Option-cases,
}

module _ {ℓ} {K : Type ℓ} (dec : Discrete K) where
  -- `find`: `none` for `end()`.
  unfoldable pub find : {V : Type ℓ} → K → List (K × V) → Option V
  find k [] = none
  find k ((j, v) ∷ m) = ite (dec j k) (some v) (find k m)

  -- `erase` of the entry with a key.
  unfoldable pub erase : {V : Type ℓ} → K → List (K × V) → List (K × V)
  erase k [] = []
  erase k ((j, v) ∷ m) = ite (dec j k) m ((j, v) ∷ erase k m)

  -- A write through a reference to the mapped value.
  unfoldable pub assign : {V : Type ℓ} → K → V → List (K × V) → List (K × V)
  assign k v [] = []
  assign k v ((j, w) ∷ m) = ite (dec j k) ((j, v) ∷ m) ((j, w) ∷ assign k v m)

  -- `emplace`: nothing changes when the key is there.
  unfoldable pub emplace : {V : Type ℓ} → K → V → List (K × V) → List (K × V)
  unfolding find
  emplace k v m = elim (find k m) [ none ↦ (k, v) ∷ m | some _ ↦ m ]

  -- No key occurs twice.
  abbrev pub Distinct : {V : Type ℓ} → List (K × V) → Type ℓ
  Distinct [] = Unit
  Distinct ((k, v) ∷ m) = (find k m ≡ none) × Distinct m

  module _ {V : Type ℓ} where
    pub find-cons_self : (k : K) (v : V) (m : List (K × V)) → find k ((k, v) ∷ m) ≡ some v
    unfolding find
    find-cons_self k v m = if_pos (dec k k) refl _ _

    pub find-cons_ne : (j k : K) (v : V) (m : List (K × V)) → j ≢ k → find k ((j, v) ∷ m) ≡ find k m
    unfolding find
    find-cons_ne j k v m h = if_neg (dec j k) h _ _

    pub find-erase_ne : (j k : K) (m : List (K × V)) → j ≢ k → find j (erase k m) ≡ find j m
    unfolding find erase
    find-erase_ne j k [] h = refl
    find-erase_ne j k ((i, w) ∷ m) h = ground (arith, find-erase_ne j k m)

    pub find-erase_self : (k : K) (m : List (K × V)) → Distinct m → find k (erase k m) ≡ none
    unfolding find erase
    find-erase_self k [] d = refl
    find-erase_self k ((i, w) ∷ m) d = ground (arith, find-erase_self k m d.1)

    pub find-assign_self :
        (k : K) (v w : V) (m : List (K × V)) → find k m ≡ some w → find k (assign k v m) ≡ some v
    unfolding find assign
    find-assign_self k v w [] h = cc
    find-assign_self k v w ((i, x) ∷ m) h = ground (arith, find-assign_self k v w m)

    pub find-assign_ne :
        (j k : K) (v : V) (m : List (K × V)) → j ≢ k → find j (assign k v m) ≡ find j m
    unfolding find assign
    find-assign_ne j k v [] h = refl
    find-assign_ne j k v ((i, x) ∷ m) h = ground (arith, find-assign_ne j k v m)

    pub find-assign-none :
        (k : K) (v : V) (m : List (K × V)) → find k m ≡ none → find k (assign k v m) ≡ none
    unfolding find assign
    find-assign-none k v [] h = refl
    find-assign-none k v ((i, x) ∷ m) h = ground (arith, find-assign-none k v m)

    pub emplace_absent :
        (k : K) (v : V) (m : List (K × V)) → find k m ≡ none → emplace k v m ≡ (k, v) ∷ m
    unfolding emplace
    emplace_absent k v m h = rw (h, emplace)

    pub find-erase-none : (j k : K) (m : List (K × V)) → find j m ≡ none → find j (erase k m) ≡ none
    unfolding find erase
    find-erase-none j k [] h = refl
    find-erase-none j k ((i, x) ∷ m) h = ground (arith, find-erase-none j k m)

    pub erase-Distinct : (k : K) (m : List (K × V)) → Distinct m → Distinct (erase k m)
    unfolding erase
    erase-Distinct k [] d = tt
    erase-Distinct k ((i, w) ∷ m) d = ground (arith, erase-Distinct k m d.1, find-erase_ne i k m)

    pub assign-Distinct : (k : K) (v : V) (m : List (K × V)) → Distinct m → Distinct (assign k v m)
    unfolding assign
    assign-Distinct k v [] d = tt
    assign-Distinct k v ((i, w) ∷ m) d =
        ground (arith, assign-Distinct k v m d.1, find-assign_ne i k v m)

    pub length-erase :
        (k : K) (v : V) (m : List (K × V)) → find k m ≡ some v → suc (length (erase k m)) ≡ length m
    unfolding find erase
    length-erase k v [] h = cc
    length-erase k v ((i, w) ∷ m) h = ground (arith, length-erase k v m)

    pub length-assign : (k : K) (v : V) (m : List (K × V)) → length (assign k v m) ≡ length m
    unfolding assign
    length-assign k v [] = refl
    length-assign k v ((i, w) ∷ m) = ground (arith, length-assign k v m)

    -- Where a value that is found after a change comes from.
    pub find-cons_cases :
        (j k : K) (v w : V) (m : List (K × V))
        → find k ((j, v) ∷ m) ≡ some w
        → ((j ≡ k) × (w ≡ v)) ⊎ ((j ≢ k) × (find k m ≡ some w))
    find-cons_cases j k v w m f = elim (dec j k) [
      | yes q ↦ inl (q, ground (arith, find-cons_self j v m, ap (λ y. find y ((j, v) ∷ m)) q))
      | no n ↦ inr (n, sym (find-cons_ne j k v m n) ∙ f)
    ]

    pub find-assign_cases :
        (j k : K) (v w : V) (m : List (K × V))
        → find j (assign k v m) ≡ some w
        → ((j ≡ k) × (w ≡ v)) ⊎ ((j ≢ k) × (find j m ≡ some w))
    find-assign_cases j k v w m f = elim (dec j k) [
      | yes q ↦ inl (q, subst (λ y. find y (assign k v m) ≡ some w → w ≡ v) (sym q) (same m) f)
      | no n ↦ inr (n, sym (find-assign_ne j k v m n) ∙ f)
    ]
      where
        same : (m : List (K × V)) → find k (assign k v m) ≡ some w → w ≡ v
        same m f = elim (Option-cases (find k m)) [
          | inl e ↦ absurd (ground (arith, find-assign-none k v m e))
          | inr (x, e) ↦ ground (arith, find-assign_self k v x m e)
        ]

    pub find-erase_cases :
        (j k : K) (w : V) (m : List (K × V))
        → Distinct m
        → find j (erase k m) ≡ some w
        → (j ≢ k) × (find j m ≡ some w)
    find-erase_cases j k w m d f =
        let other : j ≢ k = λ q. cc (find-erase_self k m d, ap (λ x. find x (erase k m)) q) in
        (other, sym (find-erase_ne j k m other) ∙ f)
