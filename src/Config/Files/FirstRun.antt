-- ===== src/Config/Files/FirstRun.antt =====
-- config.cpp: the run that finds an empty configuration file, and the run after it.
use ip_server.Base.{ℕ, ◌≡◌, refl, ap, ◌∙◌, sym, subst, true, false, [], Option, none, some, arith}
use ip_server.Base.Int.{ℤ}
use ip_server.Base.Text.{Str, empty}
use ip_server.Json.{Json, IsLawful}
use ip_server.Paths.{Environment}
use ip_server.Config.{ServerConfig, default_config}
use ip_server.Config.Validate.{validate, check_logging}
use ip_server.Config.Stored.{to_json}
use ip_server.Config.Stored.RoundTrip.{Fits, stored, load_config-to_json}
use ip_server.Config.Overrides.{Given, given_or, apply_cli_overrides}
use ip_server.Config.Files.Accepted.{checked_inv}
use ip_server.Config.Files.{
  FileSystem, options, Parsed, accepted, apply_default_paths, save_to_file, members, load_from_file,
  or_default, handle_config_file, base_config, checked, parse,
}

-- A file that was written holds what was written.
pub record KeepsFiles {J : Json} (F : FileSystem J) : Type 0 where
  pub exists-write :
      (fs : F.State) (file : Str) (o : J.Object)
      → (F.write_json fs file o).1 ≡ true
      → F.exists (F.write_json fs file o).0 file ≡ true
  pub at_eof-write :
      (fs : F.State) (file : Str) (o : J.Object)
      → (F.write_json fs file o).1 ≡ true
      → F.at_eof (F.write_json fs file o).0 file ≡ false
  pub read-write :
      (fs : F.State) (file : Str) (o : J.Object)
      → (F.write_json fs file o).1 ≡ true
      → F.read_json (F.write_json fs file o).0 file ≡ some (J.of_object o)

abbrev pub forget_path : ServerConfig → ServerConfig
forget_path c = record c { config_file = [] }

-- The configuration that is written, with the default paths.
abbrev pub written : Environment → Str → ServerConfig
written env file = record (apply_default_paths env default_config) { config_file = file }

written-Fits : (env : Environment) (file : Str) → Fits (written env file)
unfolding apply_default_paths default_config
written-Fits env file = omega arith

stored-written :
    (env : Environment) (file : Str) → stored (written env file) ≡ forget_path (written env file)
unfolding apply_default_paths default_config
stored-written env file = refl

module _ {J : Json} (L : IsLawful J)
    (as_object-of_object : (o : J.Object) → J.as_object (J.of_object o) ≡ some o) (F : FileSystem J)
    (keeps : KeepsFiles F) (stoll : Str → Option ℤ) (stoull : Str → Option ℕ) (env : Environment)
    (file : Str) (fs : F.State) (named : empty file ≡ false) (there : F.exists fs file ≡ true)
    (blank : F.at_eof fs file ≡ true)
    (writable : (o : J.Object) → (F.write_json fs file o).1 ≡ true) where
  abbrev after : F.State
  after = (F.write_json fs file (to_json J (written env file))).0

  first : handle_config_file F stoll stoull env file fs ≡ (after, written env file)
  unfolding handle_config_file save_to_file
  first = rw (handle_config_file, blank, writable (to_json J (written env file))) refl

  second :
      handle_config_file F stoll stoull env file after ≡ (after, forget_path (written env file))
  unfolding handle_config_file load_from_file members or_default
  second =
      let o = to_json J (written env file) in
      let w = writable o in
      rw
        (
          handle_config_file,
          keeps.at_eof-write fs file o w,
          load_from_file,
          keeps.read-write fs file o w,
          members,
          as_object-of_object o,
          load_config-to_json L stoll stoull (written env file) (written-Fits env file),
        )
        (ap (λ c. (after, c)) (stored-written env file))

  overrides_forget :
      (g : Given) (c : ServerConfig)
      → apply_cli_overrides g (forget_path c) ≡ forget_path (apply_cli_overrides g c)
  unfolding apply_cli_overrides
  overrides_forget g c = refl

  validate_forget : (c : ServerConfig) → validate (forget_path c) ≡ validate c
  unfolding validate check_logging
  validate_forget c = refl

  base_first : base_config F stoll stoull env (some file) fs ≡ (after, written env file)
  unfolding base_config given_or
  base_first = rw (base_config, named, there) first

  base_second :
      base_config F stoll stoull env (some file) after ≡ (after, forget_path (written env file))
  unfolding base_config given_or
  base_second =
      let w = writable (to_json J (written env file)) in
      rw (base_config, named, keeps.exists-write fs file (to_json J (written env file)) w) second

  run_with :
      (given : Given) (fs' a : F.State) (b : ServerConfig)
      → base_config F stoll stoull env (some file) fs' ≡ (a, b)
      → parse F stoll stoull env (options (some file) given) fs'
        ≡ (a, checked F stoll stoull (apply_cli_overrides given b))
  unfolding parse
  run_with given fs' a b e =
      ap
        (λ (p : F.State × ServerConfig).
          (p.0, checked F stoll stoull (apply_cli_overrides given p.1)))
        e

  checked_forget :
      (x : ServerConfig)
      → validate x ≡ none
      → checked F stoll stoull (forget_path x) ≡ accepted (forget_path x)
  unfolding checked
  checked_forget x v = let w = validate_forget x ∙ v in rw (checked, w) refl

  -- A run that finds an empty file writes the default configuration to it. When it accepts a
  -- configuration, the next run with the same options accepts the same, without its own path, and
  -- leaves the files as they are.
  pub parse_again :
      (given : Given) (c : ServerConfig)
      → (parse F stoll stoull env (options (some file) given) fs).1 ≡ accepted c
      → let fs' = (parse F stoll stoull env (options (some file) given) fs).0 in
        parse F stoll stoull env (options (some file) given) fs' ≡ (fs', accepted (forget_path c))
  parse_again given c e =
      let x = apply_cli_overrides given (written env file) in
      let one = run_with given fs after (written env file) base_first in
      let two = run_with given after after (forget_path (written env file)) base_second in
      let (v, q) =
        checked_inv F stoll stoull x c (sym (ap (λ (p : F.State × Parsed). p.1) one) ∙ e) in
      let last : checked F stoll stoull (apply_cli_overrides given (forget_path (written env file)))
          ≡ accepted (forget_path c) =
        ap (checked F stoll stoull) (overrides_forget given (written env file))
        ∙ checked_forget x v
        ∙ ap (λ y. accepted (forget_path y)) q in
      let state = ap (λ (p : F.State × Parsed). p.0) one in
      subst
        (λ z.
          parse F stoll stoull env (options (some file) given) z ≡ (z, accepted (forget_path c)))
        (sym state) (two ∙ ap (λ o. (after, o)) last)
