-- ===== src/MacDatabase/Normal.antt =====
-- mac_database.cpp: the digits of a MAC address, and the OUI they start with.
use ip_server.Base.{
  ℕ, zero, suc, ◌*◌, ◌≡◌, refl, ◌∙◌, ◌⊎◌, inl, inr, true, false, [], ◌∷◌, map, arith, length, keep,
  All,
}
use ip_server.Base.Text.{Str}
use ip_server.Validation.{is_hex, is_valid_mac_format}
use ip_server.Validation.Mac.{IsHex, Pairs, Octets, is_valid_mac_format_lem}
use ip_server.MacDatabase.{to_upper, normalize_mac_address}

-- The result is the hexadecimal digits of the text, in order and in upper case.
pub normalize_mac_address_lem : (s : Str) → normalize_mac_address s ≡ map to_upper (keep is_hex s)
unfolding normalize_mac_address
normalize_mac_address_lem [] = refl
normalize_mac_address_lem (c ∷ s) = ground (arith, normalize_mac_address_lem s)

pub is_hex-to_upper : (c : ℕ) → is_hex c ≡ true → is_hex (to_upper c) ≡ true
unfolding is_hex to_upper
is_hex-to_upper c h = ground (arith, h)

pub to_upper-to_upper : (c : ℕ) → is_hex c ≡ true → to_upper (to_upper c) ≡ to_upper c
unfolding is_hex to_upper
to_upper-to_upper c h = ground (arith, h)

-- Normalising a text twice is normalising it once.
pub normalize_mac_address_idem :
    (s : Str) → normalize_mac_address (normalize_mac_address s) ≡ normalize_mac_address s
unfolding normalize_mac_address
normalize_mac_address_idem [] = refl
normalize_mac_address_idem (c ∷ s) =
    ground (arith, normalize_mac_address_idem s, is_hex-to_upper c, to_upper-to_upper c)

length-normalize-All : (s : Str) → All IsHex s → length (normalize_mac_address s) ≡ length s
unfolding normalize_mac_address
length-normalize-All [] h = refl
length-normalize-All (c ∷ s) (h, hs) = ground (arith, h, length-normalize-All s hs)

separator-is_hex : (x : ℕ) → (x ≡ b':') ⊎ (x ≡ b'-') → is_hex x ≡ false
unfolding is_hex
separator-is_hex x h = ground (arith, h)

length-normalize-Octets : (n : ℕ) (s : Str) → Octets n s → length (normalize_mac_address s) ≡ 2 * n
unfolding normalize_mac_address
length-normalize-Octets zero [] h = omega arith
length-normalize-Octets zero (x ∷ s) h = elim h [ ]
length-normalize-Octets (suc n) [] h = elim h [ ]
length-normalize-Octets (suc n) (x ∷ []) h = elim h [ ]
length-normalize-Octets (suc n) (x ∷ a ∷ []) h = elim h [ ]
length-normalize-Octets (suc n) (x ∷ a ∷ b ∷ s) (hx, ha, hb, h) =
    ground (arith, separator-is_hex x hx, ha, hb, length-normalize-Octets n s h)

length-normalize-Pairs : (s : Str) → Pairs 5 s → length (normalize_mac_address s) ≡ 12
unfolding normalize_mac_address
length-normalize-Pairs [] h = elim h [ ]
length-normalize-Pairs (a ∷ []) h = elim h [ ]
length-normalize-Pairs (a ∷ b ∷ s) (ha, hb, h) =
    ground (arith, ha, hb, length-normalize-Octets 5 s h)

-- An address that the validation accepts has the twelve digits that a lookup asks for.
pub length-normalize-valid :
    (s : Str) → is_valid_mac_format s ≡ true → length (normalize_mac_address s) ≡ 12
length-normalize-valid s h = elim ((is_valid_mac_format_lem s).0 h) [
  | inl p ↦ length-normalize-Pairs s p
  | inr (n, p) ↦ length-normalize-All s p ∙ n
]
