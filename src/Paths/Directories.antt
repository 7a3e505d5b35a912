-- ===== src/Paths/Directories.antt =====
-- paths.cpp, `ensure_directories`: the directories that the default files lie in.
use ip_server.Base.{
  sym, subst, inr, ◌∙◌, inl, true, Bool-cases, Bool, false, ℕ, All, ℕ, ◌≡◌, refl, [], ◌∷◌, ◌++◌,
  none, some,
}
use ip_server.Base.Text.{empty, Str, codes}
use ip_server.Paths.{
  Environment, ends_with_slash, join, get_home, base_dir, database_dir, config_file, city_db_path,
  asn_db_path, oui_db_path, log_file_path, before_name, parent_path, ensure_directories,
}

-- Behind a slash stands a name without one.
before_name-append :
    (path name : Str)
    → before_name name ≡ none
    → before_name (path ++ codes "/" ++ name) ≡ some path
unfolding before_name
before_name-append [] name h = rw h refl
before_name-append (c ∷ path) name h = rw (before_name-append path name h) refl

ends-append :
    (path : Str) (c : ℕ) (s : Str) → ends_with_slash (path ++ c ∷ s) ≡ ends_with_slash (c ∷ s)
unfolding ends_with_slash
ends-append [] c s = refl
ends-append (d ∷ []) c s = refl
ends-append (d ∷ e ∷ path) c s = ends-append (e ∷ path) c s

-- A path that goes on behind its last slash.
abbrev IsNamed : Str → Type 0
IsNamed path = (empty path ≡ false) × (ends_with_slash path ≡ false)

join-IsNamed :
    (path : Str) (c : ℕ) (s : Str) → ends_with_slash (c ∷ s) ≡ false → IsNamed (join path (c ∷ s))
unfolding join ends_with_slash
join-IsNamed [] c s h = (refl, h)
join-IsNamed (d ∷ path) c s h = elim (Bool-cases (ends_with_slash (d ∷ path))) [
  | inl e ↦ rw e (refl, ends-append (d ∷ path) c s ∙ h)
  | inr e ↦ rw e (refl, ends-append ((d ∷ path) ++ codes "/") c s ∙ h)
]

parent_path-join :
    (path name : Str) → IsNamed path → before_name name ≡ none → parent_path (join path name) ≡ path
unfolding join parent_path
parent_path-join path name (n, e) h =
    rw (n, e, parent_path, join) (rw (before_name-append path name h, parent_path) refl)

module _ (env : Environment) where
  base_dir-IsNamed : IsNamed (base_dir env)
  unfolding base_dir ends_with_slash
  base_dir-IsNamed =
      join-IsNamed (join (get_home env) (codes ".config")) b'i' (codes "p_local") refl

  database_dir-IsNamed : IsNamed (database_dir env)
  unfolding database_dir ends_with_slash
  database_dir-IsNamed = join-IsNamed (base_dir env) b'd' (codes "atabases") refl

  logs-IsNamed : IsNamed (join (base_dir env) (codes "logs"))
  unfolding ends_with_slash
  logs-IsNamed = join-IsNamed (base_dir env) b'l' (codes "ogs") refl

  module _ {State : Type 0} (create_directories : Str → State → State × Bool)
      (exists : Str → State → Bool)
      (makes : (d : Str) (fs : State) → exists d (create_directories d fs).0 ≡ true)
      (keeps : (d e : Str) (fs : State)
        → exists e fs ≡ true
        → exists e (create_directories d fs).0 ≡ true) where
    -- Where directories can be created, every default file lies in a directory that exists after
    -- `ensure_directories`.
    pub ensure_directories_lem :
        (fs : State)
        → All
            (λ file.
              exists (parent_path file) (ensure_directories create_directories env fs) ≡ true)
            (config_file env
              ∷ city_db_path env
              ∷ asn_db_path env
              ∷ oui_db_path env
              ∷ log_file_path env
              ∷ [])
    unfolding ensure_directories config_file city_db_path asn_db_path oui_db_path log_file_path
        before_name
    ensure_directories_lem fs =
        let fs1 = (create_directories (base_dir env) fs).0 in
        let fs2 = (create_directories (database_dir env) fs1).0 in
        let log_dir = parent_path (log_file_path env) in
        let after = (create_directories log_dir fs2).0 in
        let base : exists (base_dir env) after ≡ true =
          keeps log_dir (base_dir env) fs2
            (keeps (database_dir env) (base_dir env) fs1 (makes (base_dir env) fs)) in
        let stored : exists (database_dir env) after ≡ true =
          keeps log_dir (database_dir env) fs2 (makes (database_dir env) fs1) in
        let in_data = λ (name : Str) (h : before_name name ≡ none).
          subst (λ d. exists d after ≡ true)
            (sym (parent_path-join (database_dir env) name database_dir-IsNamed h)) stored in
        (
          subst (λ d. exists d after ≡ true)
              (sym (parent_path-join (base_dir env) (codes "config.json") base_dir-IsNamed refl))
              base,
          (
            in_data (codes "GeoLite2-City.mmdb") refl,
            (
              in_data (codes "GeoLite2-ASN.mmdb") refl,
              (in_data (codes "master_oui.db") refl, (makes log_dir fs2, tt)),
            ),
          ),
        )
