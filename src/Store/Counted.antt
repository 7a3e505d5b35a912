-- ===== src/Store/Counted.antt =====
-- How often a number stands in a list: what a library has open, with the calls that release one.
use ip_server.Base.{
  ℕ, ◌+◌, ◌≤◌, ◌<◌, ◌≡◌, ◌≢◌, refl, List, [], ◌∷◌, Option, none, some, ◌==◌, ◌>>=◌, arith, ==_iff,
  ==_apart, Bool, Bool-cases, inl, inr, if◌then◌else◌,
}

unfoldable pub one_if : Bool → ℕ
one_if b = if b then 1 else 0

unfoldable pub count : ℕ → List ℕ → ℕ
count c [] = 0
count c (x ∷ xs) = one_if (c == x) + count c xs

-- Takes one away; `none` when there is none.
unfoldable pub take_one : ℕ → List ℕ → Option (List ℕ)
take_one c [] = none
take_one c (x ∷ xs) =
    let rest = take_one c xs in if c == x then some xs else (rest >>= λ ys. some (x ∷ ys))

pub one_if_self : (c : ℕ) → one_if (c == c) ≡ 1
unfolding one_if
one_if_self c = rw ((==_iff c c).1 refl) refl

pub one_if_le : (d c : ℕ) → one_if (d == c) ≤ 1
unfolding one_if
one_if_le d c = ground arith

pub one_if_apart : (d c : ℕ) → d ≢ c → one_if (d == c) ≡ 0
unfolding one_if
one_if_apart d c n = rw (==_apart d c n) refl

pub take_one_lem :
    (c : ℕ) (xs : List ℕ)
    → 0 < count c xs
    → (ys : List ℕ) × (take_one c xs ≡ some ys)
      × ((d : ℕ) → count d ys + one_if (d == c) ≡ count d xs)
unfolding take_one count one_if
take_one_lem c [] h = absurd (omega (arith, h))
take_one_lem c (x ∷ xs) h = elim (Bool-cases (c == x)) [
  | inl e ↦ (xs, rw e refl, λ d. rw ((==_iff c x).0 e) (omega arith))
  | inr e ↦
      let off : one_if (c == x) ≡ 0 = rw (e, one_if) refl in
      let (ys, t, k) = take_one_lem c xs (omega (arith, h, off)) in
      (x ∷ ys, rw e (rw t refl), λ d. omega (arith, k d))
]

pub count-zero : (xs : List ℕ) → ((c : ℕ) → count c xs ≡ 0) → xs ≡ []
unfolding count
count-zero [] h = refl
count-zero (x ∷ xs) h = absurd (omega (arith, h x, one_if_self x))
