-- ===== src/Base/Real.antt =====
-- The operations that the program makes on `double`, and the laws of them that the proofs rely
-- on. No value is a NaN: what is measured and computed here never is.
use Prim.Native.Nat.{ℕ, ◌≤◌}
use mathlib.Core.Path.{◌≡◌}
use mathlib.Core.Logic.{◌⊎◌}
use mathlib.Core.Bool.{Bool, true}

pub record Real : Type 1 where
  pub Double : Type 0
  -- `static_cast<double>`, and the literals that are hundredths.
  pub of_nat : ℕ → Double
  pub of_percent : ℕ → Double
  pub add : Double → Double → Double
  pub mul : Double → Double → Double
  pub div : Double → Double → Double
  -- `static_cast<size_t>` of a number that is in range, and `std::round`.
  pub trunc : Double → ℕ
  pub round : Double → Double
  pub le : Double → Double → Bool

-- `<=` is a total order, and a part of a whole is no more than it and grows with the part: the
-- rounding of IEEE 754 is monotone, and these numbers are far below 2^53.
pub record IsOrdered (R : Real) : Type 0 where
  pub le_total : (x y : R.Double) → (R.le x y ≡ true) ⊎ (R.le y x ≡ true)
  pub le_trans : (x y z : R.Double) → R.le x y ≡ true → R.le y z ≡ true → R.le x z ≡ true
  pub part_le : (c k : ℕ) → c ≤ 100 → R.trunc (R.mul (R.of_percent c) (R.of_nat k)) ≤ k
  pub part_mono :
      (c d k : ℕ)
      → c ≤ d
      → R.trunc (R.mul (R.of_percent c) (R.of_nat k))
        ≤ R.trunc (R.mul (R.of_percent d) (R.of_nat k))
