-- ===== src/Base/Decimal.antt =====
-- `std::stoi` and `std::to_string`, in base ten.
pub mod RoundTrip
use Prim.Native.Nat.{ℕ, zero, suc, ◌+◌, ◌-◌, ◌*◌, ◌/◌, ◌%◌, ◌^◌}
use mathlib.Core.Bool.{Bool, true, false, ◌&&◌, ◌||◌}
use mathlib.Core.List.{[], ◌∷◌, ◌++◌}
use ip_server.Base.Tests.{ltb, leb, ◌==◌, if◌then◌else◌}
use ip_server.Base.Int.{ℤ, pos, negsuc, sub_ℕ}
use ip_server.Base.Text.{Str}

-- `isspace` and `isdigit` in the C locale.
unfoldable pub is_space : ℕ → Bool
is_space c = c == b' ' || (leb 9 c && leb c 13)

unfoldable pub is_digit : ℕ → Bool
is_digit c = leb b'0' c && leb c b'9'

unfoldable pub skip_space : Str → Str
skip_space [] = []
skip_space (c ∷ s) = let rest = skip_space s in if is_space c then rest else c ∷ s

-- The number of the digits in front, behind `acc`.
unfoldable pub read_digits : ℕ → Str → ℕ
read_digits acc [] = acc
read_digits acc (c ∷ s) =
    let rest = read_digits (acc * 10 + (c - b'0')) s in if is_digit c then rest else acc

-- No conversion, and a number that is no `int`.
pub data Failed : Type 0 where
  invalid : Failed
  out_of_range : Failed

pub data Stoi : Type 0 where
  number : ℤ → Stoi
  fails : Failed → Stoi

unfoldable pub of_magnitude : Bool → ℕ → Stoi
of_magnitude negative n =
    if ltb n (if negative then 2 ^ 31 + 1 else 2 ^ 31)
    then number (if negative then sub_ℕ 0 n else pos n)
    else fails out_of_range

unfoldable pub unsigned_part : Bool → Str → Stoi
unfolding is_digit read_digits of_magnitude
unsigned_part negative [] = fails invalid
unsigned_part negative (c ∷ s) =
    if is_digit c then of_magnitude negative (read_digits 0 (c ∷ s)) else fails invalid

unfoldable pub signed_part : Str → Stoi
unfolding unsigned_part
signed_part [] = fails invalid
signed_part (c ∷ s) =
    if c == b'-'
    then unsigned_part true s
    else if c == b'+'
    then unsigned_part false s
    else unsigned_part false (c ∷ s)

unfoldable pub stoi : Str → Stoi
unfolding signed_part skip_space is_space
stoi s = signed_part (skip_space s)

-- The digits of a number, most significant first; the fuel is above the number of digits.
unfoldable pub digits : ℕ → ℕ → Str
digits zero n = []
digits (suc fuel) n =
    let more = digits fuel (n / 10) in (if ltb n 10 then [] else more) ++ (b'0' + n % 10) ∷ []

unfoldable pub to_string : ℤ → Str
unfolding digits
to_string (pos n) = digits (suc n) n
to_string (negsuc n) = b'-' ∷ digits (suc (suc n)) (suc n)
