-- ===== src/Config/Stored/RoundTrip.antt =====
-- config.cpp: loading what was saved.
use ip_server.Base.{
  ℕ, ◌-◌, ◌*◌, ◌/◌, ◌%◌, ◌^◌, ◌<◌, ◌≡◌, refl, ap, ◌∙◌, Bool, true, false, [], ◌∷◌, Option, none,
  some, arith, if◌then◌else◌, ltb,
}
use ip_server.Base.Int.{ℤ, pos, negsuc, size_mod, ◌≤ℤ◌}
use ip_server.Base.Text.{Str, codes, empty, str_eq}
use ip_server.Json.{Json, IsLawful}
use ip_server.Config.{ServerConfig, default_config}
use ip_server.Config.Validate.{mb}
use ip_server.Config.Stored.{
  as_int32, as_port, to_json, first_fields, last_fields, read_str, read_bool, read_int, read_size,
  from_json, load_config,
}
use ip_server.Config.Stored.Members.{field, to_json_first, to_json_last, to_json-key}

-- The values of the C++ type `int`.
abbrev pub IsInt32 : ℤ → Type 0
IsInt32 n = negsuc (2 ^ 31 - 1) ≤ℤ n × n ≤ℤ pos (2 ^ 31 - 1)

as_int32_lem : (n : ℤ) → IsInt32 n → as_int32 n ≡ n
unfolding as_int32
as_int32_lem (pos n) h =
    let e : n % 2 ^ 64 % 2 ^ 32 ≡ n = omega (arith, h.1) in
    let small : ltb n (2 ^ 31) ≡ true = ground (arith, h.1) in rw e (rw small refl)
as_int32_lem (negsuc n) h =
    let e : (2 ^ 64 - 1 - n) % 2 ^ 64 % 2 ^ 32 ≡ 2 ^ 32 - 1 - n = omega (arith, h.0) in
    let large : ltb (2 ^ 32 - 1 - n) (2 ^ 31) ≡ false = ground (arith, h.0) in
    let back : 2 ^ 32 - 1 - (2 ^ 32 - 1 - n) ≡ n = omega (arith, h.0) in
    rw e (rw large (ap negsuc back))

as_port_lem : (n : ℕ) → n < 2 ^ 16 → as_port (pos n) ≡ n
unfolding as_port
as_port_lem n h = omega arith

-- Every field fits its C++ type.
abbrev pub Fits : ServerConfig → Type 0
Fits c =
    (c.port < 2 ^ 16)
    × IsInt32 c.thread_pool_size
    × IsInt32 c.max_requests_per_minute
    × IsInt32 c.max_batch_size
    × IsInt32 c.log_max_backup_files
    × (c.log_max_file_size < size_mod)

-- What of a configuration is stored: all but its own path, with the size of the log file in MB.
abbrev pub stored : ServerConfig → ServerConfig
stored c = record c { config_file = []; log_max_file_size = c.log_max_file_size / mb * mb }

module _ {J : Json} (L : IsLawful J) (stoll : Str → Option ℤ) (stoull : Str → Option ℕ)
    (j : J.Object) where
  read_str_of : (k s f : Str) → J.member k j ≡ some (J.of_str s) → read_str J k f j ≡ some s
  unfolding read_str
  read_str_of k s f h = rw (read_str, h) (L.as_str-of_str s)

  read_bool_of :
      (k : Str) (b f : Bool) → J.member k j ≡ some (J.of_bool b) → read_bool J k f j ≡ some b
  unfolding read_bool
  read_bool_of k b f h = rw (read_bool, h, L.as_bool-of_bool b) refl

  read_int_of :
      {Number : Type 0} (cast : ℤ → Number) (k : Str) (n : ℤ) (f : Number)
      → J.member k j ≡ some (J.of_int n)
      → read_int J stoll stoull cast k f j ≡ some (cast n)
  unfolding read_int
  read_int_of cast k n f h = rw (read_int, h, L.as_int-of_int n) refl

  read_size_of :
      (n f : ℕ)
      → n < size_mod
      → J.member (codes "log_max_file_size") j ≡ some (J.of_int (pos (n / mb)))
      → read_size J stoll stoull f j ≡ some (n / mb * mb)
  unfolding read_size
  read_size_of n f b h =
      let e : n / mb % size_mod * 1024 * 1024 % size_mod ≡ n / mb * mb = omega (arith, b) in
      rw (read_size, h, L.as_int-of_int (pos (n / mb))) (ap some e)

  read_key_of :
      (key : Str)
      → J.member (codes "default_api_key") j ≡ (if empty key then none else some (J.of_str key))
      → read_str J (codes "default_api_key") [] j ≡ some key
  unfolding read_str
  read_key_of [] h = rw (read_str, h) refl
  read_key_of (c ∷ key) h = read_str_of (codes "default_api_key") (c ∷ key) [] h

module _ {J : Json} (L : IsLawful J) (stoll : Str → Option ℤ) (stoull : Str → Option ℕ)
    (c : ServerConfig) (fits : Fits c) where
  abbrev object : J.Object
  object = to_json J c

  int_first :
      (k : Str) (n f : ℤ)
      → IsInt32 n
      → field k (last_fields J c) ≡ none
      → str_eq (codes "default_api_key") k ≡ false
      → field k (first_fields J c) ≡ some (J.of_int n)
      → read_int J stoll stoull as_int32 k f object ≡ some n
  int_first k n f h last key first =
      read_int_of L stoll stoull object as_int32 k n f
        (to_json_first L c k (J.of_int n) last key first)
      ∙ ap some (as_int32_lem n h)

  str_first :
      (k s f : Str)
      → field k (last_fields J c) ≡ none
      → str_eq (codes "default_api_key") k ≡ false
      → field k (first_fields J c) ≡ some (J.of_str s)
      → read_str J k f object ≡ some s
  str_first k s f last key first =
      read_str_of L stoll stoull object k s f (to_json_first L c k (J.of_str s) last key first)

  bool_first :
      (k : Str) (b f : Bool)
      → field k (last_fields J c) ≡ none
      → str_eq (codes "default_api_key") k ≡ false
      → field k (first_fields J c) ≡ some (J.of_bool b)
      → read_bool J k f object ≡ some b
  bool_first k b f last key first =
      read_bool_of L stoll stoull object k b f (to_json_first L c k (J.of_bool b) last key first)

  str_last :
      (k s f : Str) → field k (last_fields J c) ≡ some (J.of_str s) → read_str J k f object ≡ some s
  str_last k s f last =
      read_str_of L stoll stoull object k s f (to_json_last L c k (J.of_str s) last)

  bool_last :
      (k : Str) (b f : Bool)
      → field k (last_fields J c) ≡ some (J.of_bool b)
      → read_bool J k f object ≡ some b
  bool_last k b f last =
      read_bool_of L stoll stoull object k b f (to_json_last L c k (J.of_bool b) last)

  -- Loading the object that is saved for a configuration whose fields fit their types gives the
  -- configuration back, without its own path, and with the size of its log file cut to whole MB.
  pub load_config-to_json : load_config J stoll stoull object ≡ some (stored c)
  unfolding load_config from_json first_fields last_fields default_config
  load_config-to_json =
      let d = default_config in
      rw
        (
          load_config,
          from_json,
          str_first (codes "host") c.host d.host refl refl refl,
          read_int_of L stoll stoull object as_port (codes "port") (pos c.port) d.port
              (to_json_first L c (codes "port") (J.of_int (pos c.port)) refl refl refl),
          as_port_lem c.port fits.0,
          str_first (codes "city_db") c.city_db_path d.city_db_path refl refl refl,
          str_first (codes "asn_db") c.asn_db_path d.asn_db_path refl refl refl,
          str_first (codes "oui_db") c.oui_db_path d.oui_db_path refl refl refl,
          int_first (codes "threads") c.thread_pool_size d.thread_pool_size fits.1 refl refl refl,
          bool_first (codes "enable_rate_limiter") c.enable_rate_limiter d.enable_rate_limiter refl
              refl refl,
          int_first (codes "max_requests_per_minute") c.max_requests_per_minute
              d.max_requests_per_minute fits.2 refl refl refl,
          int_first (codes "max_batch_size") c.max_batch_size d.max_batch_size fits.3 refl refl
              refl,
          bool_first (codes "enable_api_auth") c.enable_api_auth d.enable_api_auth refl refl refl,
          str_first (codes "api_keys_file") c.api_keys_file d.api_keys_file refl refl refl,
          read_key_of L stoll stoull object c.default_api_key (to_json-key L c),
          bool_last (codes "enable_file_logging") c.enable_file_logging d.enable_file_logging refl,
          str_last (codes "log_file") c.log_file_path d.log_file_path refl,
          bool_last (codes "log_enable_stdout") c.log_enable_stdout d.log_enable_stdout refl,
          str_last (codes "log_rotation") c.log_rotation_type d.log_rotation_type refl,
          str_last (codes "log_level") c.log_level d.log_level refl,
          read_size_of L stoll stoull object c.log_max_file_size d.log_max_file_size fits.5 (
              to_json_last L c (codes "log_max_file_size")
                (J.of_int (pos (c.log_max_file_size / mb))) refl),
          read_int_of L stoll stoull object as_int32 (codes "log_max_backup_files")
              c.log_max_backup_files d.log_max_backup_files
              (to_json_last L c (codes "log_max_backup_files") (J.of_int c.log_max_backup_files)
                refl),
          as_int32_lem c.log_max_backup_files fits.4,
        )
        refl
