-- ===== src/Tests/Services.antt =====
-- The services and the databases behind them at small inputs: every query finds one row, a
-- database has an entry for every address, a JSON value has one byte and every key one hash.
use ip_server.Base.{ℕ, ◌<◌, ◌≡◌, refl, true, List, [], ◌∷◌, Option, none, some, arith}
use ip_server.Base.Int.{size_mod, pos}
use ip_server.Base.Text.{Str, codes}
use ip_server.Validation.{is_hex, mac_char, mac_chars, is_valid_mac_format}
use ip_server.Cache.{CacheDataType, estimate_entry_size}
use ip_server.Cache.Sharded.{IpCache, new_cache}
use ip_server.MacDatabase.{Answer, row, opened}
use ip_server.MaxMind.City.{CitySays, city_lookup_lem}
use ip_server.MaxMind.{Found, entry, open_database, move_from, city_lookup}
use ip_server.Service.{mac_resolve}
use ip_server.Service.Through.{answers, bytes, serve, through_cache_lem}
use ip_server.Service.Mac.{mac_resolve-Resolves}
use ip_server.Tests.Values.{plain, Plain, number, plain-IsLawful}

program : Unit {0}
unfolding is_hex mac_char mac_chars is_valid_mac_format estimate_entry_size
program = tt

abbrev pub one_row : Unit {0} → Str → Answer
one_row db oui = row (some (codes "Maker") ∷ [])

abbrev pub one_byte : Plain → ℕ
one_byte v = 1

abbrev pub same_hash : Str → ℕ
same_hash k = 0

abbrev mac : Str
mac = codes "aabbcc010203"

accepted : is_valid_mac_format mac ≡ true
unfolding program
accepted = refl

abbrev calls : List (ℕ × ℕ × Str)
calls = (1, 2, mac) ∷ (3, 4, mac) ∷ []

abbrev resolver :
    (k : Str)
    → (a : Plain × Option CacheDataType) × (mac_resolve plain one_row (opened tt) k ≡ some a)
resolver = mac_resolve-Resolves plain-IsLawful one_row tt

room : bytes same_hash one_byte 1 (mac_resolve plain one_row (opened tt)) resolver calls < size_mod
unfolding program
room = omega arith

through_cache_lem_example :
    (c d : IpCache Plain) × (new_cache 100 4 ≡ some c)
    × (serve same_hash one_byte 1 (mac_resolve plain one_row (opened tt)) resolver calls c
        ≡ some (
          d,
          answers same_hash one_byte 1 (mac_resolve plain one_row (opened tt)) resolver calls,
        ))
through_cache_lem_example =
    through_cache_lem same_hash one_byte 1 (mac_resolve plain one_row (opened tt)) resolver 100 4
      calls (omega arith) room

abbrev empty_object : plain.Object
empty_object k = none

abbrev pub has_number : ℕ → List Str → Option Plain
has_number e ks = some (number (pos e))

abbrev pub no_text : ℕ → List Str → Option Plain
no_text e ks = none

abbrev pub all_seven : Unit {0} → Str → Found ℕ
all_seven db ip = entry 7

city_lookup_lem_example :
    ((r : plain.Object) × (city_lookup plain no_text has_number all_seven (open_database tt) mac
        ≡ some r)
      × CitySays plain-IsLawful no_text has_number (all_seven tt mac) r)
    × ((r : plain.Object) × (city_lookup plain no_text has_number all_seven
            (move_from (open_database tt)).1
            mac
          ≡ some r)
        × (plain.member (codes "error") r ≡ some (plain.of_str (codes "Database not open"))))
city_lookup_lem_example = city_lookup_lem plain-IsLawful no_text has_number all_seven tt mac
