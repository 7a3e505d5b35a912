-- ===== src/Tests/Wired.antt =====
-- src/main.cpp: two lookups of a server over both services.
use ip_server.Base.{
  true, Bool, ℕ, ◌<◌, ◌≡◌, if◌then◌else◌, List, [], ◌∷◌, Option, none, some, arith,
}
use ip_server.Base.Int.{size_mod}
use ip_server.Base.Text.{Str, codes, str_eq}
use ip_server.Cache.{CacheDataType, estimate_entry_size}
use ip_server.MacDatabase.{opened}
use ip_server.MaxMind.{open_database, city_lookup, asn_lookup}
use ip_server.MaxMind.City.{city_lookup_lem}
use ip_server.MaxMind.Results.{asn_lookup_lem}
use ip_server.Service.{ip_resolve, mac_resolve}
use ip_server.Service.Ip.{ip_resolve-Resolves}
use ip_server.Service.Mac.{mac_resolve-Resolves}
use ip_server.Http.{Response, Server}
use ip_server.Application.{make_server}
use ip_server.Application.Services.{Services, new_services, two_services}
use ip_server.Application.Services.Sequence.{Get, get_all, total_cost, AllReplied, lookups_answered}
use ip_server.Tests.Values.{plain, Plain, plain-IsLawful}
use ip_server.Tests.Requests.{config, passes, digest, never}
use ip_server.Tests.Services.{one_row, one_byte, same_hash, no_text, has_number, all_seven}

abbrev city : Str → Option plain.Object
city ip = city_lookup plain no_text has_number all_seven (open_database tt) ip

abbrev asn : Str → Option plain.Object
asn ip = asn_lookup plain no_text has_number all_seven (open_database tt) ip

abbrev always : Str → Bool
always s = true

geo_answers :
    (k : Str) → (a : Plain × Option CacheDataType) × (ip_resolve plain city asn k ≡ some a)
geo_answers =
    ip_resolve-Resolves plain city asn
      (λ k.
        let (r, e, _) = (city_lookup_lem plain-IsLawful no_text has_number all_seven tt k).0 in
        (r, e))
      (λ k.
        let (r, e, _) = (asn_lookup_lem plain-IsLawful no_text has_number all_seven tt k).0 in
        (r, e))

mac_answers :
    (k : Str)
    → (a : Plain × Option CacheDataType) × (mac_resolve plain one_row (opened tt) k ≡ some a)
mac_answers = mac_resolve-Resolves plain-IsLawful one_row tt

abbrev asking : Str → Str → Get ℕ
asking kind value = record {
  req = record {
    header_value = λ k. if str_eq k (codes "Authorization") then codes "Bearer k" else [];
    param_value = λ k. if str_eq k kind then value else [];
    remote_addr = codes "1.2.3.4";
    body = [];
  };
  first = 1;
  later = 2;
  third = 3;
  done = 4;
  latency = 5;
}

abbrev gets : List (Get ℕ)
gets = asking (codes "mac") (codes "AA:BB:CC:01:02:03") ∷ asking (codes "ip") (codes "1.2.3.4") ∷ []

room :
    total_cost plain same_hash one_byte 1 city asn one_row
      (opened tt)
      geo_answers
      mac_answers
      ℕ
      always
      never
      digest
      gets
    < size_mod
unfolding estimate_entry_size
room = omega arith

abbrev ready : Services Plain → Server plain (Option (Services Plain)) ℕ
ready w =
    make_server
      (two_services plain same_hash one_byte 1 city asn one_row (opened tt) (λ f. none) (λ i. i))
      digest 1 0 config (some w)

lookups_answered_example :
    (w : Services Plain) × (t : Server plain (Option (Services Plain)) ℕ) × (rs : List
      (Response plain))
    × (new_services (λ i. i) ≡ some w)
    × (get_all plain same_hash one_byte 1 city asn one_row
          (opened tt)
          geo_answers
          mac_answers
          ℕ
          always
          never
          digest
          gets
          (ready w)
        ≡ some (t, rs))
    × AllReplied plain same_hash one_byte 1 city asn one_row
        (opened tt)
        geo_answers
        mac_answers
        ℕ
        always
        never
        digest
        gets
        (ready w)
        rs
lookups_answered_example =
    lookups_answered plain same_hash one_byte 1 city asn one_row (opened tt) geo_answers mac_answers
      ℕ always never digest (λ f. none) (λ i. i) 0 config gets passes room
