-- ===== src/Tests/Addresses.antt =====
-- The address tests, the OUI database and the trimming of texts at small inputs. The database
-- answers every query with one row.
use ip_server.Base.{◌≤◌, ◌≡◌, refl, ◌↔◌, true, false, [], ◌∷◌, none, some, arith, length}
use ip_server.Base.Text.{Str, codes}
use ip_server.Base.Trim.{trim}
use ip_server.Validation.{is_hex, mac_char, mac_chars, is_valid_mac_format}
use ip_server.Validation.Mac.{IsMac, is_valid_mac_format_lem}
use ip_server.MacDatabase.{
  Answer, row, to_upper, normalize_mac_address, extract_oui, opened, lookup,
}
use ip_server.MacDatabase.Answers.{Answered}
use ip_server.MacDatabase.Lookup.{asked, lookup_valid}
use ip_server.Tests.Values.{plain, plain-IsLawful}

program : Unit {0}
unfolding is_hex mac_char mac_chars is_valid_mac_format to_upper normalize_mac_address extract_oui
    trim
program = tt

abbrev with_dashes : Str
with_dashes = codes "aa-bb-cc-01-02-03"

abbrev without : Str
without = codes "AABBCC010203"

abbrev answer : Unit {0} → Str → Answer
answer db oui = row (some (codes "Maker") ∷ none ∷ [])

accepts_dashes : is_valid_mac_format with_dashes ≡ true
unfolding program
accepts_dashes = refl

accepts_mixed : is_valid_mac_format (codes "aa-bb:cc-01:02-03") ≡ true
unfolding program
accepts_mixed = refl

refuses_short : is_valid_mac_format (codes "aa-bb") ≡ false
unfolding program
refuses_short = refl

same_digits : normalize_mac_address with_dashes ≡ normalize_mac_address without
unfolding program
same_digits = refl

oui_of_dashes : asked plain-IsLawful answer with_dashes ≡ codes "AA:BB:CC"
unfolding program
oui_of_dashes = refl

trims : trim (b' ' ∷ []) (codes "  a b ") ≡ some (codes "a b")
unfolding program
trims = refl

enough_digits : 6 ≤ length (normalize_mac_address with_dashes)
unfolding program
enough_digits = omega arith

is_valid_mac_format_lem_example : (is_valid_mac_format with_dashes ≡ true) ↔ IsMac with_dashes
is_valid_mac_format_lem_example = is_valid_mac_format_lem with_dashes

lookup_valid_example :
    (r : plain.Object) × (lookup plain answer (opened tt) with_dashes ≡ some r)
    × Answered plain with_dashes
        (asked plain-IsLawful answer with_dashes)
        (answer tt (asked plain-IsLawful answer with_dashes))
        r
lookup_valid_example = lookup_valid plain-IsLawful answer tt with_dashes accepts_dashes
