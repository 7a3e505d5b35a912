-- ===== src/Config/Files.antt =====
-- src/config.cpp: `save_to_file`, `load_from_file`, `handle_config_file` and `parse`. The file
-- system is a parameter with a state; the option parser gives what was on the command line.
pub mod Accepted
pub mod FirstRun
use ip_server.Base.{
  ℕ, Bool, true, false, not, ◌&&◌, List, [], ◌++◌, Option, none, some, if◌then◌else◌, ◌⊎◌, inl, inr,
}
use ip_server.Base.Int.{ℤ}
use ip_server.Base.Text.{Str, codes, empty}
use ip_server.Json.{Json}
use ip_server.Paths
use ip_server.Paths.{Environment}
use ip_server.Config.{ServerConfig, default_config}
use ip_server.Config.Validate.{ConfigError, validate}
use ip_server.Config.Stored.{to_json, load_config}
use ip_server.Config.Overrides.{Given, given_or, apply_cli_overrides}

pub record FileSystem (J : Json) : Type 1 where
  pub State : Type 0
  pub exists : State → Str → Bool
  -- Whether a stream at the start of the file is at its end; so is one that did not open.
  pub at_eof : State → Str → Bool
  -- The value that the file holds, if it opens and its text is one.
  pub read_json : State → Str → Option J.Value
  -- The text of an object written to the file, and whether the file opened.
  pub write_json : State → Str → J.Object → State × Bool

unfoldable pub apply_default_paths : Environment → ServerConfig → ServerConfig
apply_default_paths env c = record c {
  city_db_path = Paths.city_db_path env;
  asn_db_path = Paths.asn_db_path env;
  oui_db_path = Paths.oui_db_path env;
  config_file = Paths.config_file env;
  log_file_path = Paths.log_file_path env;
}

-- The command line, behind the parser: its exception, the help, or the options.
pub data CommandLine : Type 0 where
  malformed : Str → CommandLine
  help : CommandLine
  options : (config : Option Str) → Given → CommandLine

-- How `parse` ends: by `exit(0)`, by an exception, or with a configuration.
pub data Parsed : Type 0 where
  exits : Parsed
  bad_options : Str → Parsed
  invalid : ConfigError → Parsed
  accepted : ServerConfig → Parsed

module _ {J : Json} (F : FileSystem J) (stoll : Str → Option ℤ) (stoull : Str → Option ℕ) where
  unfoldable pub save_to_file : ServerConfig → Str → F.State → F.State × Bool
  save_to_file c file fs = F.write_json fs file (to_json J c)

  -- The members of a value; a value that is no object has none.
  unfoldable pub members : J.Value → J.Object
  members v = elim (J.as_object v) [ none ↦ J.no_members | some o ↦ o ]

  unfoldable pub load_from_file : Str → F.State → Option ServerConfig
  load_from_file file fs = elim (F.read_json fs file) [
    | none ↦ none
    | some v ↦ load_config J stoll stoull (members v)
  ]

  unfoldable pub or_default : Option ServerConfig → ServerConfig
  or_default none = default_config
  or_default (some c) = c

  unfoldable pub handle_config_file : Environment → Str → F.State → F.State × ServerConfig
  handle_config_file env file fs =
      let cfg = record (apply_default_paths env default_config) { config_file = file } in
      let (fs', saved) = save_to_file cfg file fs in
      if F.at_eof fs file
      then (fs', if saved then cfg else default_config)
      else (fs, or_default (load_from_file file fs))

  -- The configuration before the command line is applied.
  unfoldable pub base_config : Environment → Option Str → F.State → F.State × ServerConfig
  base_config env config fs =
      let defaults = apply_default_paths env default_config in
      let file = given_or config defaults.config_file in
      if not (empty file) && F.exists fs file
      then handle_config_file env file fs
      else (fs, record defaults { config_file = file })

  unfoldable pub checked : ServerConfig → Parsed
  checked c = elim (validate c) [ none ↦ accepted c | some e ↦ invalid e ]

  unfoldable pub parse : Environment → CommandLine → F.State → F.State × Parsed
  parse env (malformed e) fs =
      (fs, bad_options (codes "Failed to parse command line options: " ++ e))
  parse env help fs = (fs, exits)
  parse env (options config given) fs =
      let (fs', base) = base_config env config fs in (fs', checked (apply_cli_overrides given base))
