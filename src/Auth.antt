-- ===== src/Auth.antt =====
-- src/auth.cpp, `APIAuth`. `SHA256` is a parameter, the bytes of the digest of a text. The hash
-- set is the list of its members. A file is the list of its lines, or nothing if it does not
-- open. The mutex makes calls sequential; log lines are left out.
pub mod Digest
pub mod Keys
use ip_server.Base.{
  ℕ, ◌+◌, ◌/◌, ◌%◌, Bool, true, false, not, ◌&&◌, ◌||◌, List, [], ◌∷◌, Option, none, some, ◌==◌,
  if◌then◌else◌, length, get_or,
}
use ip_server.Base.Text.{Str, codes, str_eq, empty}
use ip_server.Base.Trim.{trim}

abbrev pub hex_digits : Str
hex_digits = codes "0123456789abcdef"

-- The loop of `sha256Hash`: the digits of `hash[i] >> 4` and of `hash[i] & 0xf`.
unfoldable pub hex_encode : List ℕ → Str
hex_encode [] = []
hex_encode (b ∷ bytes) =
    get_or hex_digits (b / 16) 0 ∷ get_or hex_digits (b % 16) 0 ∷ hex_encode bytes

-- `contains` of the hash set.
unfoldable pub member : Str → List Str → Bool
member h [] = false
member h (x ∷ xs) = str_eq x h || member h xs

-- `insert` of the hash set.
unfoldable pub insert : Str → List Str → List Str
insert h xs = if member h xs then xs else h ∷ xs

-- The characters of `" \t\r\n"`.
abbrev pub blanks : Str
blanks = b' ' ∷ 9 ∷ 13 ∷ 10 ∷ []

pub record ApiAuth : Type 0 where
  pub api_key_hashes : List Str

-- `line.empty() || line[0] == '#'`.
unfoldable pub is_skipped : Str → Bool
is_skipped [] = true
is_skipped (c ∷ _) = c == b'#'

-- The key on a line of the file.
unfoldable pub key_of_line : Str → Option Str
key_of_line line = if is_skipped line then none else trim blanks line

unfoldable pub key_count : ApiAuth → ℕ
key_count a = length a.api_key_hashes

module _ (sha256 : Str → List ℕ) where
  unfoldable pub sha256_hash : Str → Str
  sha256_hash input = hex_encode (sha256 input)

  unfoldable pub add_key : Str → ApiAuth → ApiAuth
  add_key key a =
      if empty key
      then a
      else record a { api_key_hashes = insert (sha256_hash key) a.api_key_hashes }

  unfoldable pub is_valid : Str → ApiAuth → Bool
  is_valid key a = if empty key then false else member (sha256_hash key) a.api_key_hashes

  -- The loop over the lines.
  unfoldable pub load_lines : List Str → List Str → List Str
  load_lines [] hashes = hashes
  load_lines (line ∷ lines) hashes =
      load_lines lines
        (elim (key_of_line line) [ none ↦ hashes | some key ↦ insert (sha256_hash key) hashes ])

  unfoldable pub load_keys_from_file : Option (List Str) → ApiAuth → ApiAuth × Bool
  load_keys_from_file none a = (a, false)
  load_keys_from_file (some lines) a = (record a { api_key_hashes = load_lines lines [] }, true)
