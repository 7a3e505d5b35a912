-- ===== src/MacDatabase/Handles.antt =====
-- mac_database.cpp: the constructor, the destructor, the move constructor and the move assignment
-- of `OUIDatabase`, with the connections and statements of SQLite that they open and release.
pub mod Balance
pub mod Owner
use ip_server.Base.{
  ℕ, ◌+◌, Bool, true, false, List, [], ◌∷◌, Option, none, some, ◌==◌, ◌>>=◌, if◌then◌else◌, suc,
}
use ip_server.Store.Counted.{count, take_one}
use ip_server.Store.Lifetimes.{Class}
use ip_server.MacDatabase.{OuiDatabase, opened, move_database}

-- What SQLite has open: the connections, and for each statement the connection it was prepared
-- on. A connection is named by its place in the order in which they were handed out.
pub record Ledger : Type 0 where
  pub next : ℕ
  pub connections : List ℕ
  pub statements : List ℕ

-- `sqlite3_finalize`, which takes a null pointer; `none` is a statement that is not there.
unfoldable pub finalize : Option ℕ → Ledger → Option Ledger
finalize none w = some w
finalize (some s) w = do left ← take_one s w.statements; some (record w { statements = left })

-- `sqlite3_close`, which takes a null pointer. A connection that still has a statement is busy
-- and stays open; `none` is a connection that is not open.
unfoldable pub close_connection : Option ℕ → Ledger → Option Ledger
close_connection none w = some w
close_connection (some c) w = do
  left ← take_one c w.connections
  if count c w.statements == 0 then some (record w { connections = left }) else some w

-- What `sqlite3_open_v2` and `sqlite3_prepare_v2` answer. An open that fails may leave a handle.
-- A WAL mode that fails is only logged.
pub data Opening : Type 0 where
  opens : (prepares : Bool) → Opening
  fails_with_handle : Opening
  fails : Opening

unfoldable pub open_connection : Ledger → Ledger
open_connection w = record w { next = suc w.next; connections = w.next ∷ w.connections }

unfoldable pub prepare : ℕ → Ledger → Ledger
prepare c w = record w { statements = c ∷ w.statements }

-- The constructor; without a database it throws.
unfoldable pub construct : Opening → Ledger → Option (Option (OuiDatabase ℕ) × Ledger)
construct fails w = some (none, w)
construct fails_with_handle w = do
  t ← close_connection (some w.next) (open_connection w)
  some (none, t)
construct (opens false) w = do
  t ← close_connection (some w.next) (open_connection w)
  some (none, t)
construct (opens true) w = some (some (opened w.next), prepare w.next (open_connection w))

-- The part of the destructor and the assignment under `if (is_open_)`.
unfoldable pub release : OuiDatabase ℕ → Ledger → Option (OuiDatabase ℕ × Ledger)
release d w =
    if d.is_open
    then (do
      t ← finalize d.lookup_stmt w
      u ← close_connection d.db t
      some (record d { lookup_stmt = none }, u))
    else some (d, w)

-- The destructor, with that of the member `lookup_stmt_`.
unfoldable pub destroy : OuiDatabase ℕ → Ledger → Option Ledger
destroy d w = do (e, t) ← release d w; finalize e.lookup_stmt t

-- The move assignment: what both hold afterwards. The move of the `unique_ptr` releases the
-- statement that is there.
unfoldable pub move_assign :
    (self : Bool)
    → OuiDatabase ℕ
    → OuiDatabase ℕ
    → Ledger
    → Option ((OuiDatabase ℕ × OuiDatabase ℕ) × Ledger)
move_assign self d other w =
    if self
    then some ((d, other), w)
    else (do (e, t) ← release d w; u ← finalize e.lookup_stmt t; some (move_database other, u))

abbrev pub oui_class : Class (OuiDatabase ℕ) Ledger Opening
oui_class = record {
  make = construct;
  unmake = destroy;
  move_new = move_database;
  move_to = move_assign;
}
