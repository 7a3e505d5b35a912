-- ===== src/Base/Text.antt =====
-- `std::string` as the list of its bytes, with the members of the class that the program calls.
use Prim.Native.Nat.{ℕ, suc}
use Prim.Native.Char.{code}
use Prim.Native.String.{String}
use mathlib.Core.Path.{◌≡◌}
use mathlib.Core.Logic.{◌↔◌}
use mathlib.Core.Bool.{Bool, true, false, ◌&&◌, ◌||◌}
use mathlib.Core.List.{List, [], ◌∷◌}
use mathlib.Core.Option.{Option, none, some}
use native.Mathlib.Decide.{ℕ_discrete}
use native.Mathlib.Omega.{arith}
use ip_server.Base.Tests.{◌==◌, if◌then◌else◌}
use ip_server.Base.Lists.{take, drop}

abbrev pub Str : Type 0
Str = List ℕ

-- The bytes of an ASCII literal. `String` has its own `[]` and `∷`.
abbrev pub codes : String → Str
codes String.[] = []
codes (String.◌∷◌ c s) = code c ∷ codes s

unfoldable pub Str-discrete : Discrete Str
unfolding ℕ_discrete
Str-discrete = hlevel ℕ_discrete

abbrev pub str_eq : Str → Str → Bool
str_eq [] [] = true
str_eq (a ∷ s) (b ∷ t) = a == b && str_eq s t
str_eq _ _ = false

pub str_eq_iff : (s t : Str) → (str_eq s t ≡ true) ↔ (s ≡ t)
str_eq_iff [] [] = ground arith
str_eq_iff [] (b ∷ t) = ground arith
str_eq_iff (a ∷ s) [] = ground arith
str_eq_iff (a ∷ s) (b ∷ t) = ground (arith, str_eq_iff s t)

abbrev pub empty : Str → Bool
empty [] = true
empty (_ ∷ _) = false

-- `s.substr(pos, len)`; the program never calls it with `pos` past the end.
abbrev pub substr : Str → ℕ → ℕ → Str
substr s pos len = take len (drop pos s)

abbrev pub starts_with : Str → Str → Bool
starts_with s [] = true
starts_with [] (b ∷ p) = false
starts_with (a ∷ s) (b ∷ p) = a == b && starts_with s p

abbrev pub contains : ℕ → Str → Bool
contains c [] = false
contains c (a ∷ s) = a == c || contains c s

-- `s.find(c)`: the first position, `none` for `npos`.
abbrev pub find_char : Str → ℕ → Option ℕ
find_char [] c = none
find_char (a ∷ s) c =
    if a == c then some 0 else elim (find_char s c) [ none ↦ none | some i ↦ some (suc i) ]

-- `s.find_first_not_of(set)`.
abbrev pub find_first_not_of : Str → Str → Option ℕ
find_first_not_of [] cs = none
find_first_not_of (a ∷ s) cs =
    if contains a cs
    then elim (find_first_not_of s cs) [ none ↦ none | some i ↦ some (suc i) ]
    else some 0

-- `s.find_last_not_of(set)`.
abbrev pub find_last_not_of : Str → Str → Option ℕ
find_last_not_of [] cs = none
find_last_not_of (a ∷ s) cs = elim (find_last_not_of s cs) [
  | some i ↦ some (suc i)
  | none ↦ if contains a cs then none else some 0
]
