-- ===== src/Validation.antt =====
-- src/validation.h and src/validation.cpp. `inet_pton` and `getaddrinfo` are parameters: whether
-- the system reads a text as an IPv4, and as a numeric IPv6 address.
pub mod Mac
use ip_server.Base.{
  ℕ, zero, suc, ◌+◌, ◌%◌, Bool, true, false, not, ◌&&◌, ◌||◌, List, [], ◌∷◌, leb, ◌==◌,
  if◌then◌else◌, length, all,
}
use ip_server.Base.Text.{Str, codes, str_eq, empty, contains}

-- `std::isxdigit` in the C locale.
unfoldable pub is_hex : ℕ → Bool
is_hex c = (leb b'0' c && leb c b'9') || (leb b'A' c && leb c b'F') || (leb b'a' c && leb c b'f')

-- The test that the loop makes at position `i`.
unfoldable pub mac_char : ℕ → ℕ → Bool
mac_char i c = if i % 3 == 2 then c == b':' || c == b'-' else is_hex c

-- The loop of `isValidMacFormat`, from position `i` on.
unfoldable pub mac_chars : ℕ → Str → Bool
mac_chars i [] = true
mac_chars i (c ∷ s) = let rest = mac_chars (suc i) s in if mac_char i c then rest else false

unfoldable pub is_valid_mac_format : Str → Bool
is_valid_mac_format mac =
    if length mac == 17 then mac_chars 0 mac else if length mac == 12 then all is_hex mac else false

unfoldable pub is_valid_ip_format : (Str → Bool) → (Str → Bool) → Str → Bool
is_valid_ip_format inet_pton getaddrinfo ip =
    if inet_pton ip then true else if empty ip || contains b'%' ip then false else getaddrinfo ip

unfoldable pub parse_bool_string : Str → Bool
parse_bool_string value = str_eq value (codes "true") || str_eq value (codes "1")
