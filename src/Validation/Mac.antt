-- ===== src/Validation/Mac.antt =====
-- validation.cpp, `isValidMacFormat`, against a grammar of MAC addresses.
use ip_server.Base.{
  ℕ, zero, suc, ◌+◌, ◌*◌, ◌≡◌, refl, ◌⊎◌, ◌↔◌, true, [], ◌∷◌, arith, length, all, All,
}
use ip_server.Base.Text.{Str}
use ip_server.Validation.{is_hex, mac_char, mac_chars, is_valid_mac_format}

abbrev pub IsHex : ℕ → Type 0
IsHex c = is_hex c ≡ true

abbrev pub IsSeparator : ℕ → Type 0
IsSeparator c = (c ≡ b':') ⊎ (c ≡ b'-')

-- `Octets n s`: n more pairs of hexadecimal digits, each behind a separator.
abbrev pub Octets : ℕ → Str → Type 0
Octets zero [] = Unit {0}
Octets (suc n) (x ∷ a ∷ b ∷ s) = IsSeparator x × IsHex a × IsHex b × Octets n s
Octets _ _ = ⊥

-- A first pair of digits, and n pairs behind separators.
abbrev pub Pairs : ℕ → Str → Type 0
Pairs n (a ∷ b ∷ s) = IsHex a × IsHex b × Octets n s
Pairs n _ = ⊥

-- Six pairs of digits with a separator between any two, or twelve digits.
abbrev pub IsMac : Str → Type 0
IsMac s = Pairs 5 s ⊎ ((length s ≡ 12) × All IsHex s)

mac_chars-period : (i : ℕ) (s : Str) → mac_chars (3 + i) s ≡ mac_chars i s
unfolding mac_chars mac_char
mac_chars-period i [] = refl
mac_chars-period i (c ∷ s) = ground (arith, mac_chars-period (suc i) s)

-- The loop from a separator's position, on a whole number of groups.
mac_chars-Octets : (n : ℕ) (s : Str) → length s ≡ 3 * n → (mac_chars 2 s ≡ true) ↔ Octets n s
unfolding mac_chars mac_char
mac_chars-Octets zero [] h = ground arith
mac_chars-Octets zero (x ∷ s) h = absurd (omega (arith, h))
mac_chars-Octets (suc n) [] h = absurd (omega (arith, h))
mac_chars-Octets (suc n) (x ∷ []) h = absurd (omega (arith, h))
mac_chars-Octets (suc n) (x ∷ a ∷ []) h = absurd (omega (arith, h))
mac_chars-Octets (suc n) (x ∷ a ∷ b ∷ s) h =
    ground (arith, mac_chars-period 2 s, mac_chars-Octets n s (omega (arith, h)))

length-Octets : (n : ℕ) (s : Str) → Octets n s → length s ≡ 3 * n
length-Octets zero [] h = omega arith
length-Octets zero (x ∷ s) h = elim h [ ]
length-Octets (suc n) [] h = elim h [ ]
length-Octets (suc n) (x ∷ []) h = elim h [ ]
length-Octets (suc n) (x ∷ a ∷ []) h = elim h [ ]
length-Octets (suc n) (x ∷ a ∷ b ∷ s) (_, _, _, h) = omega (arith, length-Octets n s h)

all-IsHex : (s : Str) → (all is_hex s ≡ true) ↔ All IsHex s
all-IsHex [] = ground arith
all-IsHex (c ∷ s) = ground (arith, all-IsHex s)

length-mac_chars : (s : Str) → length s ≡ 17 → (mac_chars 0 s ≡ true) ↔ Pairs 5 s
unfolding mac_chars mac_char
length-mac_chars [] h = absurd (omega (arith, h))
length-mac_chars (a ∷ []) h = absurd (omega (arith, h))
length-mac_chars (a ∷ b ∷ s) h = ground (arith, mac_chars-Octets 5 s (omega (arith, h)))

length-Pairs : (s : Str) → Pairs 5 s → length s ≡ 17
length-Pairs [] h = elim h [ ]
length-Pairs (a ∷ []) h = elim h [ ]
length-Pairs (a ∷ b ∷ s) (_, _, h) = omega (arith, length-Octets 5 s h)

-- A text is accepted exactly when it is six pairs of hexadecimal digits with one of the
-- separators ':' and '-' between any two, not necessarily the same, or twelve such digits.
pub is_valid_mac_format_lem : (s : Str) → (is_valid_mac_format s ≡ true) ↔ IsMac s
unfolding is_valid_mac_format
is_valid_mac_format_lem s = ground (arith, length-mac_chars s, length-Pairs s, all-IsHex s)
