-- ===== src/Metrics/Percentile.antt =====
-- metrics.cpp, `calculate_percentile`: the rank of an element of the sorted latencies.
use ip_server.Base.{
  ℕ, zero, suc, ◌+◌, ◌≤◌, ◌≡◌, refl, subst, inl, inr, Bool, true, false, List, [], ◌∷◌, some,
  if◌then◌else◌, length, get_elem?, All, arith, Bool-cases, eq_of_some,
}
use ip_server.Base.Real.{Real, IsOrdered}
use ip_server.Metrics.Stats.{insert, sort}

-- How many elements pass a test.
abbrev pub count_if : {A : Type 0} → (A → Bool) → List A → ℕ
count_if p [] = 0
count_if p (x ∷ xs) = (if p x then 1 else 0) + count_if p xs

module _ (R : Real) where
  count_if-insert :
      (p : R.Double → Bool) (x : R.Double) (ys : List R.Double)
      → count_if p (insert R x ys) ≡ (if p x then 1 else 0) + count_if p ys
  unfolding insert
  count_if-insert p x [] = refl
  count_if-insert p x (y ∷ ys) = ground (arith, count_if-insert p x ys)

  pub count_if-sort :
      (p : R.Double → Bool) (xs : List R.Double) → count_if p (sort R xs) ≡ count_if p xs
  unfolding sort
  count_if-sort p [] = refl
  count_if-sort p (x ∷ xs) = omega (arith, count_if-insert p x (sort R xs), count_if-sort p xs)

  length-insert : (x : R.Double) (ys : List R.Double) → length (insert R x ys) ≡ suc (length ys)
  unfolding insert
  length-insert x [] = refl
  length-insert x (y ∷ ys) = ground (arith, length-insert x ys)

  pub length-sort : (xs : List R.Double) → length (sort R xs) ≡ length xs
  unfolding sort
  length-sort [] = refl
  length-sort (x ∷ xs) = omega (arith, length-insert x (sort R xs), length-sort xs)

  module _ (o : IsOrdered R) where
    abbrev pub Below : R.Double → List R.Double → Type 0
    Below x = All (λ y. R.le x y ≡ true)

    abbrev pub IsSorted : List R.Double → Type 0
    IsSorted [] = Unit
    IsSorted (x ∷ xs) = Below x xs × IsSorted xs

    Below-lower : (x y : R.Double) (zs : List R.Double) → R.le x y ≡ true → Below y zs → Below x zs
    Below-lower x y [] h b = tt
    Below-lower x y (z ∷ zs) h (b, bs) = (o.le_trans x y z h b, Below-lower x y zs h bs)

    other_way : (x y : R.Double) → R.le x y ≡ false → R.le y x ≡ true
    other_way x y h = elim (o.le_total x y) [ inl l ↦ absurd (cc (h, l)) | inr l ↦ l ]

    Below-insert :
        (z x : R.Double) (ys : List R.Double)
        → R.le z x ≡ true
        → Below z ys
        → Below z (insert R x ys)
    unfolding insert
    Below-insert z x [] h b = (h, tt)
    Below-insert z x (y ∷ ys) h (b, bs) = elim (Bool-cases (R.le x y)) [
      | inl e ↦ rw e (h, (b, bs))
      | inr e ↦ rw e (b, Below-insert z x ys h bs)
    ]

    insert-IsSorted : (x : R.Double) (ys : List R.Double) → IsSorted ys → IsSorted (insert R x ys)
    unfolding insert
    insert-IsSorted x [] s = (tt, tt)
    insert-IsSorted x (y ∷ ys) (b, s) = elim (Bool-cases (R.le x y)) [
      | inl e ↦ rw e ((e, Below-lower x y ys e b), (b, s))
      | inr e ↦ rw e (Below-insert y x ys (other_way x y e) b, insert-IsSorted x ys s)
    ]

    pub sort-IsSorted : (xs : List R.Double) → IsSorted (sort R xs)
    unfolding sort
    sort-IsSorted [] = tt
    sort-IsSorted (x ∷ xs) = insert-IsSorted x (sort R xs) (sort-IsSorted xs)

    pub le_refl : (x : R.Double) → R.le x x ≡ true
    le_refl x = elim (o.le_total x x) [ inl l ↦ l | inr l ↦ l ]

    Below-get :
        (x : R.Double) (ys : List R.Double) (k : ℕ) (v : R.Double)
        → Below x ys
        → get_elem? ys k ≡ some v
        → R.le x v ≡ true
    Below-get x [] k v b e = cc
    Below-get x (y ∷ ys) zero v (b, bs) e = subst (λ z. R.le x z ≡ true) (eq_of_some e) b
    Below-get x (y ∷ ys) (suc k) v (b, bs) e = Below-get x ys k v bs e

    count_all : (v : R.Double) (zs : List R.Double) → Below v zs → count_if (R.le v) zs ≡ length zs
    count_all v [] b = refl
    count_all v (z ∷ zs) (b, bs) = rw b (omega (arith, count_all v zs bs))

    -- In a sorted list the k-th element has as many elements below and above it.
    pub at_or_below :
        (zs : List R.Double) (k : ℕ) (v : R.Double)
        → IsSorted zs
        → get_elem? zs k ≡ some v
        → suc k ≤ count_if (λ x. R.le x v) zs
    at_or_below [] k v s e = cc
    at_or_below (z ∷ zs) zero v (b, s) e =
        rw (subst (λ y. R.le z y ≡ true) (eq_of_some e) (le_refl z)) (omega arith)
    at_or_below (z ∷ zs) (suc k) v (b, s) e =
        rw (Below-get z zs k v b e) (omega (arith, at_or_below zs k v s e))

    pub at_or_above :
        (zs : List R.Double) (k : ℕ) (v : R.Double)
        → IsSorted zs
        → get_elem? zs k ≡ some v
        → length zs ≤ count_if (R.le v) zs + k
    at_or_above [] k v s e = omega arith
    at_or_above (z ∷ zs) zero v (b, s) e =
        let q = eq_of_some e in
        let t : Below v (z ∷ zs) = subst (λ y. Below y (z ∷ zs)) q (le_refl z, b) in
        omega (arith, count_all v (z ∷ zs) t)
    at_or_above (z ∷ zs) (suc k) v (b, s) e = omega (arith, at_or_above zs k v s e)

    pub sorted_le :
        (zs : List R.Double) (j k : ℕ) (u v : R.Double)
        → IsSorted zs
        → j ≤ k
        → get_elem? zs j ≡ some u
        → get_elem? zs k ≡ some v
        → R.le u v ≡ true
    sorted_le [] j k u v s l e f = cc
    sorted_le (z ∷ zs) zero zero u v (b, s) l e f =
        subst (λ y. R.le y v ≡ true) (eq_of_some e)
          (subst (λ y. R.le z y ≡ true) (eq_of_some f) (le_refl z))
    sorted_le (z ∷ zs) zero (suc k) u v (b, s) l e f =
        subst (λ y. R.le y v ≡ true) (eq_of_some e) (Below-get z zs k v b f)
    sorted_le (z ∷ zs) (suc j) zero u v (b, s) l e f = absurd (omega (arith, l))
    sorted_le (z ∷ zs) (suc j) (suc k) u v (b, s) l e f =
        sorted_le zs j k u v s (omega (arith, l)) e f
