-- ===== src/Config/Overrides.antt =====
-- config.cpp, `apply_cli_overrides`. The option parser is a parameter: the value that an option was
-- given, as the type it is declared with.
use ip_server.Base.{ℕ, ◌*◌, ◌%◌, ◌≡◌, refl, ap, Bool, true, Option, none, some}
use ip_server.Base.Int.{ℤ, size_mod}
use ip_server.Base.Text.{Str, codes}
use ip_server.Validation.{parse_bool_string}
use ip_server.Config.{ServerConfig}

-- The result of the parser.
pub record Given : Type 0 where
  pub text : Str → Option Str
  pub int : Str → Option ℤ
  pub port : Option ℕ
  pub log_max_size : Option ℕ

-- `set_str` and `set_int`.
unfoldable pub given_or : {A : Type 0} → Option A → A → A
given_or none old = old
given_or (some a) old = a

-- `if (contains) f = parseBoolString(...)`.
unfoldable pub flag_or : Option Str → Bool → Bool
flag_or none old = old
flag_or (some s) old = parse_bool_string s

-- `as<size_t>() * 1024 * 1024`.
unfoldable pub size_or : Option ℕ → ℕ → ℕ
size_or none old = old
size_or (some n) old = n * 1024 * 1024 % size_mod

-- A log file on the command line turns file logging on.
unfoldable pub logging_or : Option Str → Option Str → Bool → Bool
logging_or (some file) flag old = true
logging_or none flag old = flag_or flag old

unfoldable pub apply_cli_overrides : Given → ServerConfig → ServerConfig
apply_cli_overrides g c = record c {
  host = given_or (g.text (codes "host")) c.host;
  port = given_or g.port c.port;
  thread_pool_size = given_or (g.int (codes "threads")) c.thread_pool_size;
  city_db_path = given_or (g.text (codes "city-db")) c.city_db_path;
  asn_db_path = given_or (g.text (codes "asn-db")) c.asn_db_path;
  oui_db_path = given_or (g.text (codes "oui-db")) c.oui_db_path;
  enable_rate_limiter = flag_or (g.text (codes "enable-rate-limiter")) c.enable_rate_limiter;
  max_requests_per_minute =
      given_or (g.int (codes "max-requests-per-minute")) c.max_requests_per_minute;
  max_batch_size = given_or (g.int (codes "max-batch-size")) c.max_batch_size;
  enable_api_auth = flag_or (g.text (codes "enable-api-auth")) c.enable_api_auth;
  api_keys_file = given_or (g.text (codes "api-keys-file")) c.api_keys_file;
  default_api_key = given_or (g.text (codes "default-api-key")) c.default_api_key;
  enable_file_logging =
      logging_or (g.text (codes "log-file")) (g.text (codes "enable-file-logging"))
        c.enable_file_logging;
  log_file_path = given_or (g.text (codes "log-file")) c.log_file_path;
  log_enable_stdout = flag_or (g.text (codes "log-enable-stdout")) c.log_enable_stdout;
  log_rotation_type = given_or (g.text (codes "log-rotation")) c.log_rotation_type;
  log_max_file_size = size_or g.log_max_size c.log_max_file_size;
  log_max_backup_files = given_or (g.int (codes "log-max-backups")) c.log_max_backup_files;
  log_level = given_or (g.text (codes "log-level")) c.log_level;
}

given_or_twice : {A : Type 0} (o : Option A) (x : A) → given_or o (given_or o x) ≡ given_or o x
unfolding given_or
given_or_twice none x = refl
given_or_twice (some a) x = refl

flag_or_twice : (o : Option Str) (x : Bool) → flag_or o (flag_or o x) ≡ flag_or o x
unfolding flag_or
flag_or_twice none x = refl
flag_or_twice (some a) x = refl

size_or_twice : (o : Option ℕ) (x : ℕ) → size_or o (size_or o x) ≡ size_or o x
unfolding size_or
size_or_twice none x = refl
size_or_twice (some a) x = refl

logging_or_twice :
    (f o : Option Str) (x : Bool) → logging_or f o (logging_or f o x) ≡ logging_or f o x
unfolding logging_or
logging_or_twice (some a) o x = refl
logging_or_twice none o x = flag_or_twice o x

-- The options win over what was there, so applying them again changes nothing; and a log file on
-- the command line turns file logging on, whatever the flag for it says.
pub apply_cli_overrides_lem :
    (g : Given) (c : ServerConfig) (file : Str)
    → (apply_cli_overrides g (apply_cli_overrides g c) ≡ apply_cli_overrides g c)
      × (g.text (codes "log-file") ≡ some file
          → ((apply_cli_overrides g c).enable_file_logging ≡ true)
            × ((apply_cli_overrides g c).log_file_path ≡ file))
unfolding apply_cli_overrides logging_or given_or
apply_cli_overrides_lem g c file = (
  rw
      (
        given_or_twice (g.text (codes "host")) c.host,
        given_or_twice g.port c.port,
        given_or_twice (g.int (codes "threads")) c.thread_pool_size,
        given_or_twice (g.text (codes "city-db")) c.city_db_path,
        given_or_twice (g.text (codes "asn-db")) c.asn_db_path,
        given_or_twice (g.text (codes "oui-db")) c.oui_db_path,
        flag_or_twice (g.text (codes "enable-rate-limiter")) c.enable_rate_limiter,
        given_or_twice (g.int (codes "max-requests-per-minute")) c.max_requests_per_minute,
        given_or_twice (g.int (codes "max-batch-size")) c.max_batch_size,
        flag_or_twice (g.text (codes "enable-api-auth")) c.enable_api_auth,
        given_or_twice (g.text (codes "api-keys-file")) c.api_keys_file,
        given_or_twice (g.text (codes "default-api-key")) c.default_api_key,
        logging_or_twice (g.text (codes "log-file")) (g.text (codes "enable-file-logging"))
            c.enable_file_logging,
        given_or_twice (g.text (codes "log-file")) c.log_file_path,
        flag_or_twice (g.text (codes "log-enable-stdout")) c.log_enable_stdout,
        given_or_twice (g.text (codes "log-rotation")) c.log_rotation_type,
        size_or_twice g.log_max_size c.log_max_file_size,
        given_or_twice (g.int (codes "log-max-backups")) c.log_max_backup_files,
        given_or_twice (g.text (codes "log-level")) c.log_level,
      )
      refl,
  λ e. (
    ap (λ o. logging_or o (g.text (codes "enable-file-logging")) c.enable_file_logging) e,
    ap (λ o. given_or o c.log_file_path) e,
  ),
)
