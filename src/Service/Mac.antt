-- ===== src/Service/Mac.antt =====
-- src/service/mac_lookup_service.cpp: what is cached, and as what.
use ip_server.Base.{
  ◌≡◌, refl, inl, inr, Bool, true, false, Option, none, some, Bool-cases, if◌then◌else◌, length,
  ◌==◌,
}
use ip_server.Base.Text.{Str, codes}
use ip_server.Json.{Json, IsLawful}
use ip_server.Validation.{is_valid_mac_format}
use ip_server.Cache.{CacheDataType, mac_oui, negative}
use ip_server.MacDatabase.{
  error_result, answer_result, Answer, bind_failed, row, done, step_failed, opened,
  normalize_mac_address, extract_oui,
}
use ip_server.MacDatabase
use ip_server.MacDatabase.Answers.{Answered}
use ip_server.MacDatabase.Lookup.{asked, lookup_valid}
use ip_server.MaxMind.{value_or_false}
use ip_server.Service.{mac_type, mac_resolve}

-- A row is cached as a MAC result, its absence as a negative one, and a failure not at all.
abbrev pub type_of : Answer → Option CacheDataType
type_of (bind_failed e) = none
type_of (row cols) = some mac_oui
type_of done = some negative
type_of (step_failed e) = none

module _ {J : Json} (L : IsLawful J) {Db : Type 0} (query : Db → Str → Answer) where
  type_of_found :
      (b : Bool) (r : J.Object)
      → J.member (codes "error") r ≡ none
      → J.member (codes "found") r ≡ some (J.of_bool b)
      → mac_type J r ≡ (if b then some mac_oui else some negative)
  unfolding mac_type value_or_false
  type_of_found true r e f = rw (mac_type, value_or_false, e, f, L.as_bool-of_bool true) refl
  type_of_found false r e f = rw (mac_type, value_or_false, e, f, L.as_bool-of_bool false) refl

  mac_type_lem :
      (mac oui : Str) (a : Answer) (r : J.Object)
      → Answered J mac oui a r
      → mac_type J r ≡ type_of a
  unfolding mac_type
  mac_type_lem mac oui (bind_failed x) r (e, _) = rw (mac_type, e) refl
  mac_type_lem mac oui (row cols) r (h, _) = type_of_found true r h.0 h.1
  mac_type_lem mac oui done r h = type_of_found false r h.0 h.1
  mac_type_lem mac oui (step_failed x) r (e, _) = rw (mac_type, e) refl

  -- For an address that the validation accepts, an open database resolves to the result of one
  -- query; a row is cached as a MAC result, its absence as a negative one, and an error is not.
  pub mac_resolve_lem :
      (db : Db) (mac : Str)
      → is_valid_mac_format mac ≡ true
      → (r : J.Object) × (mac_resolve J query (opened db) mac
          ≡ some (J.of_object r, type_of (query db (asked L query mac))))
        × Answered J mac (asked L query mac) (query db (asked L query mac)) r
  unfolding mac_resolve
  mac_resolve_lem db mac h =
      let (r, e, a) = lookup_valid L query db mac h in
      let t = mac_type_lem mac (asked L query mac) (query db (asked L query mac)) r a in
      (r, rw (e, t) refl, a)

  -- An open database resolves every text, of the right form or not.
  pub mac_resolve-Resolves :
      (db : Db)
      → (k : Str)
      → (a : J.Value × Option CacheDataType) × (mac_resolve J query (opened db) k ≡ some a)
  unfolding mac_resolve MacDatabase.lookup opened
  mac_resolve-Resolves db k = elim (Bool-cases (length (normalize_mac_address k) == 12)) [
    | inl n ↦
        let r = answer_result J k (asked L query k) (query db (asked L query k)) in
        ((J.of_object r, mac_type J r), rw n refl)
    | inr n ↦
        let r = error_result J (codes "Invalid MAC address format") in
        ((J.of_object r, mac_type J r), rw n refl)
  ]
