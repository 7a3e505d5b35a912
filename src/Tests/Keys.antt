-- ===== src/Tests/Keys.antt =====
-- The key store at small inputs; the digest of a text is the text itself.
use ip_server.Base.{ℕ, ◌≤◌, ◌≡◌, refl, true, false, not, ◌&&◌, List, [], ◌∷◌, none, some, length}
use ip_server.Base.Text.{Str, codes, empty}
use ip_server.Base.Trim.{trim}
use ip_server.Auth.{
  ApiAuth, hex_encode, member, insert, is_skipped, key_of_line, sha256_hash, add_key, is_valid,
  key_count, load_lines, load_keys_from_file,
}
use ip_server.Auth.Keys.{Distinct, load_keys_from_file_lem, same_digest, keys_of}

program : Unit {0}
unfolding trim hex_encode member insert is_skipped key_of_line sha256_hash add_key is_valid
    key_count load_lines load_keys_from_file
program = tt

abbrev digest : Str → List ℕ
digest s = s

abbrev no_keys : ApiAuth
no_keys = record { api_key_hashes = [] }

abbrev lines : List Str
lines = codes "# keys" ∷ codes "  abc " ∷ [] ∷ codes "abc" ∷ codes "d" ∷ []

loads : key_count (load_keys_from_file digest (some lines) no_keys).0 ≡ 2
unfolding program
loads = refl

accepts : is_valid digest (codes "abc") (load_keys_from_file digest (some lines) no_keys).0 ≡ true
unfolding program
accepts = refl

refuses :
    is_valid digest (codes "# keys") (load_keys_from_file digest (some lines) no_keys).0 ≡ false
unfolding program
refuses = refl

load_keys_from_file_lem_example :
    (is_valid digest (codes "abc") (load_keys_from_file digest (some lines) no_keys).0
      ≡ (not (empty (codes "abc")) && same_digest digest (codes "abc") (keys_of lines)))
    × Distinct (load_keys_from_file digest (some lines) no_keys).0.api_key_hashes
    × (key_count (load_keys_from_file digest (some lines) no_keys).0 ≤ length (keys_of lines))
    × (load_keys_from_file digest none no_keys ≡ (no_keys, false))
load_keys_from_file_lem_example = load_keys_from_file_lem digest (codes "abc") lines no_keys
