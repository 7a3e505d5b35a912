-- ===== src/MaxMind.antt =====
-- src/database: `MaxMindDatabase`, `CityDatabase` and `ASNDatabase`. The library that reads the
-- file is a parameter: what it makes of an address, and the values of an entry under a path of
-- keys. A database is the open file, or the empty state that a move leaves behind.
pub mod Results
pub mod Fields
pub mod City
pub mod Handles
use ip_server.Base.{
  ℕ, Bool, true, false, not, ◌&&◌, ◌||◌, List, [], ◌∷◌, ◌++◌, Option, none, some, if◌then◌else◌,
  ◌>>=◌,
}
use ip_server.Base.Text.{Str, codes}
use ip_server.Json.{Json}

-- What `MMDB_lookup_string` makes of an address.
pub data Found (Entry : Type 0) : Type 0 where
  no_address : Found Entry
  failed : (message : Str) → Found Entry
  no_entry : Found Entry
  entry : Entry → Found Entry

pub record MaxMindDatabase (Db : Type 0) : Type 0 where
  pub mmdb : Option Db
  pub is_open : Bool

-- The constructor's last state, once the file is open.
unfoldable pub open_database : {Db : Type 0} → Db → MaxMindDatabase Db
open_database db = record { mmdb = some db; is_open = true }

-- The move constructor: the new database and the old one.
unfoldable pub move_from :
    {Db : Type 0} → MaxMindDatabase Db → MaxMindDatabase Db × MaxMindDatabase Db
move_from other = (other, record { mmdb = none; is_open = false })

-- `result.value(key, false)`; the databases set only Booleans there.
unfoldable pub value_or_false : (J : Json) → Str → J.Object → Bool
value_or_false J key result = elim (J.member key result >>= J.as_bool) [ none ↦ false | some b ↦ b ]

module _ (J : Json) where
  unfoldable pub error_object : Str → Str → J.Object
  error_object message ip =
      J.set_member (codes "ip") (J.of_str ip)
        (J.set_member (codes "error") (J.of_str message) J.no_members)

  unfoldable pub found_object : Bool → Str → J.Object
  found_object found ip =
      J.set_member (codes "found") (J.of_bool found)
        (J.set_member (codes "ip") (J.of_str ip) J.no_members)

  -- The branches of `perform_lookup`, with the entry that is found.
  unfoldable pub found_result : {Entry : Type 0} → Str → Found Entry → J.Object × Option Entry
  found_result ip no_address = (error_object (codes "Invalid IP address") ip, none)
  found_result ip (failed e) = (error_object (codes "MaxMind DB lookup error: " ++ e) ip, none)
  found_result ip no_entry = (found_object false ip, none)
  found_result ip (entry e) = (found_object true ip, some e)

  -- `none` is a query on a file that is not open.
  unfoldable pub perform_lookup :
      {Db Entry : Type 0}
      → (Db → Str → Found Entry)
      → MaxMindDatabase Db
      → Str
      → Option (J.Object × Option Entry)
  perform_lookup find d ip =
      if not d.is_open
      then some (error_object (codes "Database not open") ip, none)
      else (d.mmdb >>= λ db. some (found_result ip (find db ip)))

  -- `if (get_value(...)) result[key] = ...`.
  unfoldable pub set_if : Str → Option J.Value → J.Object → J.Object
  set_if key none result = result
  set_if key (some v) result = J.set_member key v result

  module _ {Entry : Type 0} (text_at number_at : Entry → List Str → Option J.Value) where
    unfoldable pub city_members : Entry → J.Object → J.Object
    city_members e result =
        set_if (codes "timezone") (text_at e (codes "location" ∷ codes "time_zone" ∷ [])) (
          set_if (codes "longitude") (number_at e (codes "location" ∷ codes "longitude" ∷ [])) (
            set_if (codes "latitude") (number_at e (codes "location" ∷ codes "latitude" ∷ [])) (
              set_if (codes "continent")
                (text_at e (codes "continent" ∷ codes "names" ∷ codes "en" ∷ []))
                (set_if (codes "city") (text_at e (codes "city" ∷ codes "names" ∷ codes "en" ∷ []))
                  (set_if (codes "country_code")
                    (text_at e (codes "country" ∷ codes "iso_code" ∷ []))
                    (set_if (codes "country")
                      (text_at e (codes "country" ∷ codes "names" ∷ codes "en" ∷ [])) result))))))

    unfoldable pub asn_members : Entry → J.Object → J.Object
    asn_members e result =
        set_if (codes "as_number") (number_at e (codes "autonomous_system_number" ∷ [])) (
          set_if (codes "as_organization") (text_at e (codes "autonomous_system_organization" ∷ []))
            result)

    -- The rest of a lookup: `add` fills the members of the entry in. Without an entry the result
    -- has an error or `found` is false.
    unfoldable pub fill : (Entry → J.Object → J.Object) → J.Object × Option Entry → J.Object
    fill add (result, e) = elim (J.member (codes "error") result) [
      | some _ ↦ result
      | none ↦
          if not (value_or_false J (codes "found") result)
          then result
          else elim e [ none ↦ result | some x ↦ add x result ]
    ]

    module _ {Db : Type 0} (find : Db → Str → Found Entry) (d : MaxMindDatabase Db) (ip : Str) where
      unfoldable pub city_lookup : Option J.Object
      city_lookup = perform_lookup find d ip >>= λ r. some (fill city_members r)

      unfoldable pub asn_lookup : Option J.Object
      asn_lookup = perform_lookup find d ip >>= λ r. some (fill asn_members r)
