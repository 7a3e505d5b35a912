-- ===== src/Base/Decimal/RoundTrip.antt =====
-- `std::stoi` reads back what `std::to_string` writes.
use ip_server.Base.{
  ℕ, zero, suc, ◌+◌, ◌-◌, ◌*◌, ◌/◌, ◌%◌, ◌^◌, ◌≤◌, ◌<◌, ◌≡◌, refl, ◌∙◌, true, false, [], ◌∷◌, ◌++◌,
  if◌then◌else◌, ltb, ◌==◌, Bool-cases, inl, inr, All, arith,
}
use ip_server.Base.Int.{ℤ, pos, negsuc, pos_part, neg_part}
use ip_server.Base.Text.{Str, empty}
use ip_server.Base.Decimal.{
  is_space, is_digit, read_digits, of_magnitude, stoi, number, digits, to_string,
}

abbrev IsDigits : Str → Type 0
IsDigits = All (λ c. is_digit c ≡ true)

IsDigits-snoc : (s : Str) (c : ℕ) → IsDigits s → is_digit c ≡ true → IsDigits (s ++ c ∷ [])
IsDigits-snoc [] c h k = (k, tt)
IsDigits-snoc (x ∷ s) c (h, hs) k = (h, IsDigits-snoc s c hs k)

digit : (n : ℕ) → is_digit (b'0' + n % 10) ≡ true
unfolding is_digit
digit n = ground arith

read_digits-snoc :
    (acc : ℕ) (s : Str) (c : ℕ)
    → IsDigits s
    → is_digit c ≡ true
    → read_digits acc (s ++ c ∷ []) ≡ read_digits acc s * 10 + (c - b'0')
unfolding read_digits
read_digits-snoc acc [] c h k = rw k refl
read_digits-snoc acc (x ∷ s) c (h, hs) k = rw h (read_digits-snoc (acc * 10 + (x - b'0')) s c hs k)

digits-IsDigits : (fuel n : ℕ) → IsDigits (digits fuel n)
unfolding digits
digits-IsDigits zero n = tt
digits-IsDigits (suc fuel) n = elim (Bool-cases (ltb n 10)) [
  | inl h ↦ rw h (digit n, tt)
  | inr h ↦ rw h (
      IsDigits-snoc (digits fuel (n / 10)) (b'0' + n % 10) (digits-IsDigits fuel (n / 10))
        (digit n))
]

read_digits-digits : (fuel n : ℕ) → n < fuel → read_digits 0 (digits fuel n) ≡ n
unfolding digits read_digits
read_digits-digits zero n h = elim h [ ]
read_digits-digits (suc fuel) n h = elim (Bool-cases (ltb n 10)) [
  | inl e ↦ rw e (read_digits-snoc 0 [] (b'0' + n % 10) tt (digit n) ∙ ground (arith, e))
  | inr e ↦ rw e (
      read_digits-snoc 0 (digits fuel (n / 10)) (b'0' + n % 10) (digits-IsDigits fuel (n / 10))
        (digit n)
      ∙ ground (arith, e, read_digits-digits fuel (n / 10)))
]

plain :
    (c : ℕ)
    → is_digit c ≡ true
    → (is_space c ≡ false) × ((c == b'-') ≡ false) × ((c == b'+') ≡ false)
unfolding is_digit is_space
plain c h = ground arith

-- Texts that begin with a digit, or with a sign and a digit.
module _ (c : ℕ) (s : Str) (h : is_digit c ≡ true) where
  stoi_digits : stoi (c ∷ s) ≡ of_magnitude false (read_digits 0 (c ∷ s))
  unfolding stoi
  stoi_digits = let (p, q, r) = plain c h in rw (stoi, p, q, r, h) refl

  stoi_minus : stoi (b'-' ∷ c ∷ s) ≡ of_magnitude true (read_digits 0 (c ∷ s))
  unfolding stoi
  stoi_minus = rw h refl

-- Texts of digits that are not empty.
first_digit :
    (t : Str) (x : ℕ)
    → IsDigits (t ++ x ∷ [])
    → (c : ℕ) × (s : Str) × (t ++ x ∷ [] ≡ c ∷ s) × (is_digit c ≡ true)
first_digit [] x h = (x, [], refl, h.0)
first_digit (y ∷ t) x h = (y, t ++ x ∷ [], refl, h.0)

digits_cons :
    (fuel n : ℕ) → (c : ℕ) × (s : Str) × (digits (suc fuel) n ≡ c ∷ s) × (is_digit c ≡ true)
unfolding digits
digits_cons fuel n =
    first_digit (if ltb n 10 then [] else digits fuel (n / 10)) (b'0' + n % 10)
      (digits-IsDigits (suc fuel) n)

plain_range : (n : ℕ) → n < 2 ^ 31 → of_magnitude false n ≡ number (pos n)
unfolding of_magnitude
plain_range n h = ground (arith, h)

minus_range : (n : ℕ) → suc n ≤ 2 ^ 31 → of_magnitude true (suc n) ≡ number (negsuc n)
unfolding of_magnitude
minus_range n h = ground (arith, h)

pub stoi-to_string :
    (n : ℤ) → neg_part n ≤ 2 ^ 31 → pos_part n < 2 ^ 31 → stoi (to_string n) ≡ number n
unfolding to_string
stoi-to_string (pos n) l h =
    let (c, s, e, d) = digits_cons n n in
    let k = read_digits-digits (suc n) n (omega arith) in
    rw e (stoi_digits c s d ∙ rw (← e) (rw k (plain_range n h)))
stoi-to_string (negsuc n) l h =
    let (c, s, e, d) = digits_cons (suc n) (suc n) in
    let k = read_digits-digits (suc (suc n)) (suc n) (omega arith) in
    rw e (stoi_minus c s d ∙ rw (← e) (rw k (minus_range n l)))

pub to_string_filled : (n : ℕ) → empty (to_string (pos n)) ≡ false
unfolding to_string
to_string_filled n = let (c, s, e, d) = digits_cons n n in rw e refl
