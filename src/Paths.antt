-- ===== src/Paths.antt =====
-- src/paths.cpp: the default paths. The environment and the user database are parameters, and so
-- is what the creation of a directory, with the ones above it, does to the file system.
pub mod Directories
use ip_server.Base.{Bool, false, [], ◌∷◌, ◌++◌, Option, none, some, if◌then◌else◌, ◌==◌}
use ip_server.Base.Text.{Str, codes, empty}

pub record Environment : Type 0 where
  -- `getenv("HOME")`, and the home directory of `getpwuid`.
  pub home_variable : Option Str
  pub user_home : Option Str

unfoldable pub ends_with_slash : Str → Bool
ends_with_slash [] = false
ends_with_slash (c ∷ []) = c == b'/'
ends_with_slash (c ∷ d ∷ s) = ends_with_slash (d ∷ s)

-- `operator/` of a path and a relative name.
unfoldable pub join : Str → Str → Str
unfolding ends_with_slash
join path name =
    if empty path
    then name
    else if ends_with_slash path
    then path ++ name
    else path ++ codes "/" ++ name

unfoldable pub get_home : Environment → Str
get_home env = elim env.home_variable [
  | some home ↦ home
  | none ↦ elim env.user_home [ some home ↦ home | none ↦ codes "/tmp" ]
]

module _ (env : Environment) where
  unfoldable pub base_dir : Str
  unfolding join get_home
  base_dir = join (join (get_home env) (codes ".config")) (codes "ip_local")

  unfoldable pub config_file : Str
  unfolding join
  config_file = join base_dir (codes "config.json")

  unfoldable pub database_dir : Str
  unfolding join
  database_dir = join base_dir (codes "databases")

  unfoldable pub city_db_path : Str
  unfolding join
  city_db_path = join database_dir (codes "GeoLite2-City.mmdb")

  unfoldable pub asn_db_path : Str
  unfolding join
  asn_db_path = join database_dir (codes "GeoLite2-ASN.mmdb")

  unfoldable pub oui_db_path : Str
  unfolding join
  oui_db_path = join database_dir (codes "master_oui.db")

  unfoldable pub log_file_path : Str
  unfolding join
  log_file_path = join (join base_dir (codes "logs")) (codes "ip_server.log")

-- The part of a path before its last slash.
unfoldable pub before_name : Str → Option Str
before_name [] = none
before_name (c ∷ s) = elim (before_name s) [
  | some p ↦ some (c ∷ p)
  | none ↦ if c == b'/' then some [] else none
]

-- `parent_path`, of a path whose last name stands in a directory with a name.
unfoldable pub parent_path : Str → Str
unfolding before_name
parent_path path = elim (before_name path) [ none ↦ [] | some p ↦ p ]

-- The three directories; a failure is only logged.
unfoldable pub ensure_directories :
    {State : Type 0} → (Str → State → State × Bool) → Environment → State → State
ensure_directories create_directories env fs0 =
    let fs1 = (create_directories (base_dir env) fs0).0 in
    let fs2 = (create_directories (database_dir env) fs1).0 in
    (create_directories (parent_path (log_file_path env)) fs2).0
