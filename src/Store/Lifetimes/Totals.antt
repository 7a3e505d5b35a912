-- ===== src/Store/Lifetimes/Totals.antt =====
-- What the objects of a list hold in all, and how a write to one place changes it.
use ip_server.Base.{
  ap, ◌≢◌, ◌≤◌, subst, ℕ, ◌+◌, ◌≡◌, refl, List, [], ◌∷◌, ◌++◌, some, get_elem?, set, arith, All,
  zero, suc, eq_of_some,
}

module _ {A : Type 0} (weight : A → ℕ) where
  abbrev pub total : List A → ℕ
  total [] = 0
  total (x ∷ xs) = weight x + total xs

  pub total-snoc : (xs : List A) (x : A) → total (xs ++ x ∷ []) ≡ total xs + weight x
  total-snoc [] x = omega arith
  total-snoc (y ∷ ys) x = omega (arith, total-snoc ys x)

  pub total-set :
      (xs : List A) (i : ℕ) (x v : A)
      → get_elem? xs i ≡ some x
      → total (set xs i v) + weight x ≡ total xs + weight v
  total-set [] i x v h = cc
  total-set (y ∷ ys) zero x v h = grind arith
  total-set (y ∷ ys) (suc i) x v h = omega (arith, total-set ys i x v h)

  pub le-total : (xs : List A) (i : ℕ) (x : A) → get_elem? xs i ≡ some x → weight x ≤ total xs
  le-total [] i x h = absurd (cc h)
  le-total (y ∷ ys) zero x h = rw (← eq_of_some h) (omega arith)
  le-total (y ∷ ys) (suc i) x h = omega (arith, le-total ys i x h)

  pub two-le-total :
      (xs : List A) (i j : ℕ) (x y : A)
      → i ≢ j
      → get_elem? xs i ≡ some x
      → get_elem? xs j ≡ some y
      → weight x + weight y ≤ total xs
  two-le-total [] i j x y n h k = absurd (cc h)
  two-le-total (z ∷ zs) zero zero x y n h k = absurd (n refl)
  two-le-total (z ∷ zs) zero (suc j) x y n h k =
      rw (← eq_of_some h) (omega (arith, le-total zs j y k))
  two-le-total (z ∷ zs) (suc i) zero x y n h k =
      rw (← eq_of_some k) (omega (arith, le-total zs i x h))
  two-le-total (z ∷ zs) (suc i) (suc j) x y n h k =
      omega (arith, two-le-total zs i j x y (λ e. n (ap suc e)) h k)

  pub total-zero :
      (xs : List A) → ((i : ℕ) (x : A) → get_elem? xs i ≡ some x → weight x ≡ 0) → total xs ≡ 0
  total-zero [] h = refl
  total-zero (x ∷ xs) h = omega (arith, h 0 x refl, total-zero xs (λ i y e. h (suc i) y e))

pub set-same :
    {A : Type 0} (xs : List A) (i : ℕ) (x : A) → get_elem? xs i ≡ some x → set xs i x ≡ xs
set-same [] i x h = refl
set-same (y ∷ ys) zero x h = cc
set-same (y ∷ ys) (suc i) x h = rw (set-same ys i x h) refl

pub All-set :
    {A : Type 0} (P : A → Type 0) (xs : List A) (i : ℕ) (v : A)
    → All P xs
    → P v
    → All P (set xs i v)
All-set P [] i v h p = tt
All-set P (y ∷ ys) zero v h p = (p, h.1)
All-set P (y ∷ ys) (suc i) v h p = (h.0, All-set P ys i v h.1 p)

pub All-at :
    {A : Type 0} (P : A → Type 0) (xs : List A) (i : ℕ) (x : A)
    → All P xs
    → get_elem? xs i ≡ some x
    → P x
All-at P [] i x h e = absurd (cc e)
All-at P (y ∷ ys) zero x h e = subst P (eq_of_some e) h.0
All-at P (y ∷ ys) (suc i) x h e = All-at P ys i x h.1 e
