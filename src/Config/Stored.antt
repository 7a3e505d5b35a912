-- ===== src/Config/Stored.antt =====
-- config.cpp: the JSON form of the configuration, `from_json` and the object that `save_to_file`
-- builds. `std::stoll` and `std::stoull` are parameters; an exception is the result `none`. An
-- integer of the JSON library is read into its type by a cast.
pub mod Members
pub mod RoundTrip
use ip_server.Base.{
  ℕ, ◌+◌, ◌*◌, ◌/◌, ◌%◌, ◌^◌, Bool, true, false, List, [], ◌∷◌, Option, none, some, if◌then◌else◌,
  ◌>>=◌,
}
use ip_server.Base.Int.{ℤ, pos, to_int, to_size, size_mod}
use ip_server.Base.Text.{Str, codes, empty}
use ip_server.Json.{Json}
use ip_server.Validation.{parse_bool_string}
use ip_server.Config.{ServerConfig, default_config}
use ip_server.Config.Validate.{mb}

-- The casts to `int` and to `uint16_t`.
unfoldable pub as_int32 : ℤ → ℤ
as_int32 n = to_int (to_size n)

unfoldable pub as_port : ℤ → ℕ
as_port n = to_size n % 2 ^ 16

module _ (J : Json) where
  -- Assignments to members, in order.
  unfoldable pub set_all : List (Str × J.Value) → J.Object → J.Object
  set_all [] o = o
  set_all ((k, v) ∷ fields) o = set_all fields (J.set_member k v o)

  -- The members before the default key, and those after it.
  unfoldable pub first_fields : ServerConfig → List (Str × J.Value)
  first_fields c =
      (codes "host", J.of_str c.host)
      ∷ (codes "port", J.of_int (pos c.port))
      ∷ (codes "city_db", J.of_str c.city_db_path)
      ∷ (codes "asn_db", J.of_str c.asn_db_path)
      ∷ (codes "oui_db", J.of_str c.oui_db_path)
      ∷ (codes "threads", J.of_int c.thread_pool_size)
      ∷ (codes "enable_rate_limiter", J.of_bool c.enable_rate_limiter)
      ∷ (codes "max_requests_per_minute", J.of_int c.max_requests_per_minute)
      ∷ (codes "max_batch_size", J.of_int c.max_batch_size)
      ∷ (codes "enable_api_auth", J.of_bool c.enable_api_auth)
      ∷ (codes "api_keys_file", J.of_str c.api_keys_file)
      ∷ []

  unfoldable pub last_fields : ServerConfig → List (Str × J.Value)
  last_fields c =
      (codes "enable_file_logging", J.of_bool c.enable_file_logging)
      ∷ (codes "log_file", J.of_str c.log_file_path)
      ∷ (codes "log_enable_stdout", J.of_bool c.log_enable_stdout)
      ∷ (codes "log_rotation", J.of_str c.log_rotation_type)
      ∷ (codes "log_max_file_size", J.of_int (pos (c.log_max_file_size / mb)))
      ∷ (codes "log_max_backup_files", J.of_int c.log_max_backup_files)
      ∷ (codes "log_level", J.of_str c.log_level)
      ∷ []

  -- `if (!config.default_api_key_.empty())`.
  unfoldable pub set_key : Str → J.Object → J.Object
  set_key key o = if empty key then o else J.set_member (codes "default_api_key") (J.of_str key) o

  -- The object that `save_to_file` writes.
  unfoldable pub to_json : ServerConfig → J.Object
  to_json c =
      set_all (last_fields c) (set_key c.default_api_key (set_all (first_fields c) J.no_members))

  unfoldable pub read_str : Str → Str → J.Object → Option Str
  read_str key field j = elim (J.member key j) [ none ↦ some field | some v ↦ J.as_str v ]

  -- `readBool`: a Boolean, or a text; anything else leaves the field.
  unfoldable pub read_bool : Str → Bool → J.Object → Option Bool
  read_bool key field j = elim (J.member key j) [
    | none ↦ some field
    | some v ↦ elim (J.as_bool v) [
      | some b ↦ some b
      | none ↦ elim (J.as_str v) [ none ↦ some field | some s ↦ some (parse_bool_string s) ]
    ]
  ]

  module _ (stoll : Str → Option ℤ) (stoull : Str → Option ℕ) where
    -- `readInt` at a type with the given cast.
    unfoldable pub read_int :
        {Number : Type 0} → (ℤ → Number) → Str → Number → J.Object → Option Number
    read_int cast key field j = elim (J.member key j) [
      | none ↦ some field
      | some v ↦ elim (J.as_int v) [
        | some n ↦ some (cast n)
        | none ↦ elim (J.as_str v) [ none ↦ some field | some s ↦ (stoll s >>= λ n. some (cast n)) ]
      ]
    ]

    -- The size of the log file, in the file in MB.
    unfoldable pub read_size : ℕ → J.Object → Option ℕ
    read_size field j = elim (J.member (codes "log_max_file_size") j) [
      | none ↦ some field
      | some v ↦ elim (J.as_int v) [
        | some n ↦ some (to_size n * 1024 * 1024 % size_mod)
        | none ↦ elim (J.as_str v) [
          | none ↦ some 0
          | some s ↦ (stoull s >>= λ raw. some (raw * 1024 * 1024 % size_mod))
        ]
      ]
    ]

    unfoldable pub from_json : J.Object → ServerConfig → Option ServerConfig
    from_json j c = do
      host ← read_str (codes "host") c.host j
      port ← read_int as_port (codes "port") c.port j
      city ← read_str (codes "city_db") c.city_db_path j
      asn ← read_str (codes "asn_db") c.asn_db_path j
      oui ← read_str (codes "oui_db") c.oui_db_path j
      threads ← read_int as_int32 (codes "threads") c.thread_pool_size j
      limiter ← read_bool (codes "enable_rate_limiter") c.enable_rate_limiter j
      requests ← read_int as_int32 (codes "max_requests_per_minute") c.max_requests_per_minute j
      batch ← read_int as_int32 (codes "max_batch_size") c.max_batch_size j
      auth ← read_bool (codes "enable_api_auth") c.enable_api_auth j
      keys ← read_str (codes "api_keys_file") c.api_keys_file j
      key ← read_str (codes "default_api_key") c.default_api_key j
      logging ← read_bool (codes "enable_file_logging") c.enable_file_logging j
      log_file ← read_str (codes "log_file") c.log_file_path j
      stdout ← read_bool (codes "log_enable_stdout") c.log_enable_stdout j
      rotation ← read_str (codes "log_rotation") c.log_rotation_type j
      level ← read_str (codes "log_level") c.log_level j
      size ← read_size c.log_max_file_size j
      backups ← read_int as_int32 (codes "log_max_backup_files") c.log_max_backup_files j
      some (record c {
        host = host;
        port = port;
        city_db_path = city;
        asn_db_path = asn;
        oui_db_path = oui;
        thread_pool_size = threads;
        enable_rate_limiter = limiter;
        max_requests_per_minute = requests;
        max_batch_size = batch;
        enable_api_auth = auth;
        api_keys_file = keys;
        default_api_key = key;
        enable_file_logging = logging;
        log_file_path = log_file;
        log_enable_stdout = stdout;
        log_rotation_type = rotation;
        log_level = level;
        log_max_file_size = size;
        log_max_backup_files = backups;
      })

    -- `load_from_file`, on the object that the file holds.
    unfoldable pub load_config : J.Object → Option ServerConfig
    load_config j = from_json j default_config
