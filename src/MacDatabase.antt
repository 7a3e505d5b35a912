-- ===== src/MacDatabase.antt =====
-- src/mac_database.cpp, `OUIDatabase`. SQLite is the answer of the prepared statement to an OUI,
-- a parameter. A database is the open connection with its statement, or the empty state that a
-- move leaves behind.
pub mod Normal
pub mod Oui
pub mod Answers
pub mod Lookup
pub mod Handles
use ip_server.Base.{
  ℕ, ◌-◌, Bool, true, false, not, ◌&&◌, List, [], ◌∷◌, ◌++◌, Option, none, some, leb, ◌>>=◌, ◌==◌,
  if◌then◌else◌, length,
}
use ip_server.Base.Text.{Str, codes, substr}
use ip_server.Validation.{is_hex}
use ip_server.Json.{Json}

-- `std::toupper` in the C locale.
unfoldable pub to_upper : ℕ → ℕ
to_upper c = if leb b'a' c && leb c b'z' then c - 32 else c

unfoldable pub normalize_mac_address : Str → Str
normalize_mac_address [] = []
normalize_mac_address (c ∷ mac) =
    let rest = normalize_mac_address mac in if is_hex c then to_upper c ∷ rest else rest

unfoldable pub extract_oui : Str → Str
extract_oui mac =
    if leb 6 (length mac)
    then (let oui = substr mac 0 6 in
        substr oui 0 2 ++ codes ":" ++ substr oui 2 2 ++ codes ":" ++ substr oui 4 2)
    else []

-- A step of the statement: `sqlite3_bind_text` or `sqlite3_step` may fail with a message. A row
-- has the texts of its columns 1 to 7; a null column has none.
pub data Answer : Type 0 where
  bind_failed : Str → Answer
  row : List (Option Str) → Answer
  done : Answer
  step_failed : Str → Answer

unfoldable pub oui_columns : List Str
oui_columns =
    codes "manufacturer"
    ∷ codes "registry"
    ∷ codes "short_name"
    ∷ codes "device_type"
    ∷ codes "registered_date"
    ∷ codes "address"
    ∷ codes "sources"
    ∷ []

-- The statement is named by the connection it was prepared on, as each connection prepares one.
pub record OuiDatabase (Db : Type 0) : Type 0 where
  pub db : Option Db
  pub lookup_stmt : Option Db
  pub is_open : Bool

-- The constructor's last state, once the file is open and the statement prepared.
unfoldable pub opened : {Db : Type 0} → Db → OuiDatabase Db
opened db = record { db = some db; lookup_stmt = some db; is_open = true }

-- The move constructor: the new database and the old one.
unfoldable pub move_database : {Db : Type 0} → OuiDatabase Db → OuiDatabase Db × OuiDatabase Db
move_database other = (other, record { db = none; lookup_stmt = none; is_open = false })

module _ (J : Json) where
  -- The loop over the columns.
  unfoldable pub set_columns : List Str → List (Option Str) → J.Object → J.Object
  set_columns (k ∷ ks) (some text ∷ cols) result =
      set_columns ks cols (J.set_member k (J.of_str text) result)
  set_columns (k ∷ ks) (none ∷ cols) result = set_columns ks cols result
  set_columns _ _ result = result

  unfoldable pub set_found : Str → Str → Bool → J.Object
  set_found mac oui found = J.set_member (codes "found") (J.of_bool found) (
      J.set_member (codes "oui") (J.of_str oui)
        (J.set_member (codes "mac") (J.of_str mac) J.no_members))

  unfoldable pub error_result : Str → J.Object
  error_result message = J.set_member (codes "error") (J.of_str message) J.no_members

  unfoldable pub answer_result : Str → Str → Answer → J.Object
  answer_result mac oui (bind_failed e) = error_result (codes "Failed to bind parameter: " ++ e)
  answer_result mac oui (row cols) = set_columns oui_columns cols (set_found mac oui true)
  answer_result mac oui done = set_found mac oui false
  answer_result mac oui (step_failed e) = error_result (codes "Query failed: " ++ e)

module _ (J : Json) {Db : Type 0} (query : Db → Str → Answer) where
  -- `none` is a query by a null statement.
  unfoldable pub lookup : OuiDatabase Db → Str → Option J.Object
  lookup d mac =
      if not d.is_open
      then some (error_result J (codes "Database not open"))
      else (let normalized = normalize_mac_address mac in
          if not (length normalized == 12)
          then some (error_result J (codes "Invalid MAC address format"))
          else (let oui = extract_oui normalized in
              d.lookup_stmt >>= λ db. some (answer_result J mac oui (query db oui))))
