-- ===== src/MaxMind/Handles.antt =====
-- src/database/maxmind_database.cpp: the constructor, the destructor, the move constructor and the
-- move assignment of `MaxMindDatabase`, with the files that they open and close.
pub mod Owner
use ip_server.Base.{
  ℕ, ◌≡◌, Bool, true, false, List, [], ◌∷◌, Option, none, some, ◌>>=◌, if◌then◌else◌, suc,
}
use ip_server.Store.Counted.{take_one}
use ip_server.Store.Lifetimes.{Class}
use ip_server.MaxMind.{MaxMindDatabase, open_database, move_from}

-- The files that the library has open. A file is named by its place in the order of the opens.
pub record Files : Type 0 where
  pub next : ℕ
  pub files : List ℕ

-- `MMDB_close`, which takes an empty structure; `none` is a file that is not open.
unfoldable pub close_file : Option ℕ → Files → Option Files
close_file none w = some w
close_file (some f) w = do left ← take_one f w.files; some (record w { files = left })

-- The constructor; without a database it throws. `MMDB_open` leaves nothing open when it fails.
unfoldable pub construct_file : (opens : Bool) → Files → Option (Option (MaxMindDatabase ℕ) × Files)
construct_file false w = some (none, w)
construct_file true w =
    some (some (open_database w.next), record { next = suc w.next; files = w.next ∷ w.files })

-- The destructor.
unfoldable pub destroy_file : MaxMindDatabase ℕ → Files → Option Files
destroy_file d w = if d.is_open then close_file d.mmdb w else some w

-- The move assignment: what both hold afterwards.
unfoldable pub move_assign_file :
    (self : Bool)
    → MaxMindDatabase ℕ
    → MaxMindDatabase ℕ
    → Files
    → Option ((MaxMindDatabase ℕ × MaxMindDatabase ℕ) × Files)
move_assign_file self d other w =
    if self
    then some ((d, other), w)
    else (do t ← if d.is_open then close_file d.mmdb w else some w; some (move_from other, t))

abbrev pub maxmind_class : Class (MaxMindDatabase ℕ) Files Bool
maxmind_class = record {
  make = construct_file;
  unmake = destroy_file;
  move_new = move_from;
  move_to = move_assign_file;
}
