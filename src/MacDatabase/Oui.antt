-- ===== src/MacDatabase/Oui.antt =====
-- mac_database.cpp, `extract_oui`: the OUI of the digits of an address.
use ip_server.Base.{inr, ℕ, ◌≤◌, ◌≡◌, inl, [], ◌∷◌, arith, length, All, Bool-cases, take}
use ip_server.Base.Text.{Str}
use ip_server.Validation.{is_hex}
use ip_server.Validation.Mac.{IsHex, Pairs}
use ip_server.MacDatabase.{to_upper, normalize_mac_address, extract_oui}
use ip_server.MacDatabase.Normal.{is_hex-to_upper, to_upper-to_upper}

abbrev pub IsUpperHex : ℕ → Type 0
IsUpperHex c = IsHex c × (to_upper c ≡ c)

All-normalize : (s : Str) → All IsUpperHex (normalize_mac_address s)
unfolding normalize_mac_address
All-normalize [] = tt
All-normalize (c ∷ s) = elim (Bool-cases (is_hex c)) [
  | inl h ↦ rw h ((is_hex-to_upper c h, to_upper-to_upper c h), All-normalize s)
  | inr h ↦ rw h (All-normalize s)
]

extract_oui_digits :
    (n : Str)
    → All IsUpperHex n
    → 6 ≤ length n
    → Pairs 2 (extract_oui n) × (normalize_mac_address (extract_oui n) ≡ take 6 n)
unfolding extract_oui normalize_mac_address is_hex
extract_oui_digits (a ∷ b ∷ c ∷ d ∷ e ∷ f ∷ n)
      ((ha, ua), ((hb, ub), ((hc, uc), ((hd, ud), ((he, ue), ((hf, uf), _)))))) h =
    ground (arith, ha, hb, hc, hd, he, hf, ua, ub, uc, ud, ue, uf)
extract_oui_digits [] _ h = absurd (omega (arith, h))
extract_oui_digits (a ∷ []) _ h = absurd (omega (arith, h))
extract_oui_digits (a ∷ b ∷ []) _ h = absurd (omega (arith, h))
extract_oui_digits (a ∷ b ∷ c ∷ []) _ h = absurd (omega (arith, h))
extract_oui_digits (a ∷ b ∷ c ∷ d ∷ []) _ h = absurd (omega (arith, h))
extract_oui_digits (a ∷ b ∷ c ∷ d ∷ e ∷ []) _ h = absurd (omega (arith, h))

-- The OUI of an address with six digits or more is three pairs of digits between colons, and has
-- the first six digits of the address.
pub extract_oui_lem :
    (s : Str)
    → 6 ≤ length (normalize_mac_address s)
    → Pairs 2 (extract_oui (normalize_mac_address s))
      × (normalize_mac_address (extract_oui (normalize_mac_address s))
          ≡ take 6 (normalize_mac_address s))
extract_oui_lem s h = extract_oui_digits (normalize_mac_address s) (All-normalize s) h
