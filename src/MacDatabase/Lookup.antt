-- ===== src/MacDatabase/Lookup.antt =====
-- mac_database.cpp, `OUIDatabase::lookup`, on every state of the database.
use ip_server.Base.{
  Option-cases, inl, inr, ==_apart, ◌≡◌, ◌≢◌, refl, ap, true, false, some, ◌==◌, ==_iff, ◌>>=◌,
  length, Bool-cases,
}
use ip_server.Base.Text.{Str, codes, str_eq}
use ip_server.Json.{Json, IsLawful}
use ip_server.Validation.{is_valid_mac_format}
use ip_server.MacDatabase.{
  Answer, OuiDatabase, opened, move_database, error_result, answer_result, lookup,
  normalize_mac_address, extract_oui,
}
use ip_server.MacDatabase.Normal.{length-normalize-valid}
use ip_server.MacDatabase.Answers.{
  answer_result-same, Answered, Fails, answer_result-Answered, error_result-Fails,
}

module _ {J : Json} (L : IsLawful J) {Db : Type 0} (query : Db → Str → Answer) where
  abbrev pub asked : Str → Str
  asked mac = extract_oui (normalize_mac_address mac)

  -- For an address that the validation accepts, an open database gives the answer of one query
  -- for the OUI of its digits.
  pub lookup_valid :
      (db : Db) (mac : Str)
      → is_valid_mac_format mac ≡ true
      → (r : J.Object) × (lookup J query (opened db) mac ≡ some r)
        × Answered J mac (asked mac) (query db (asked mac)) r
  unfolding lookup opened
  lookup_valid db mac h =
      let n = length-normalize-valid mac h in
      (
        answer_result J mac (asked mac) (query db (asked mac)),
        rw ((==_iff (length (normalize_mac_address mac)) 12).1 n),
        answer_result-Answered L mac (asked mac) (query db (asked mac)),
      )

  -- An open database refuses an address without twelve digits; a database that was moved from
  -- refuses every address, and the one moved into answers as the old one did.
  pub lookup_refuses :
      (d : OuiDatabase Db) (db : Db) (mac : Str)
      → (length (normalize_mac_address mac) ≢ 12
          → (r : J.Object) × (lookup J query (opened db) mac ≡ some r)
            × Fails J (codes "Invalid MAC address format") r)
        × ((r : J.Object) × (lookup J query (move_database d).1 mac ≡ some r)
            × Fails J (codes "Database not open") r)
        × (lookup J query (move_database d).0 mac ≡ lookup J query d mac)
  unfolding lookup opened move_database
  lookup_refuses d db mac = (
    λ h. (
      error_result J (codes "Invalid MAC address format"),
      rw (==_apart (length (normalize_mac_address mac)) 12 h),
      error_result-Fails L _,
    ),
    (error_result J (codes "Database not open"), refl, error_result-Fails L _),
    refl,
  )

  -- Two addresses with the same digits give results with the same members, but for `mac`.
  pub lookup_same :
      (d : OuiDatabase Db) (a b k : Str)
      → normalize_mac_address a ≡ normalize_mac_address b
      → str_eq (codes "mac") k ≡ false
      → (lookup J query d a >>= λ r. some (J.member k r))
        ≡ (lookup J query d b >>= λ r. some (J.member k r))
  unfolding lookup
  lookup_same d a b k e h = rw e (elim (Bool-cases d.is_open) [
    | inr c ↦ rw c refl
    | inl c ↦ rw c (elim (Bool-cases (length (normalize_mac_address b) == 12)) [
      | inr n ↦ rw n refl
      | inl n ↦ rw n (elim (Option-cases d.lookup_stmt) [
        | inl o ↦ rw o refl
        | inr (db, o) ↦ rw o (ap some (answer_result-same L a b (asked b) k (query db (asked b)) h))
      ])
    ])
  ])
