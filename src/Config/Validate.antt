-- ===== src/Config/Validate.antt =====
-- config.cpp, `ConfigParser::validate`. The exception is a value; the warnings about database
-- files that do not exist, and the other log lines, are left out.
pub mod Limits
use ip_server.Base.{ℕ, ◌*◌, ◌/◌, Bool, true, false, ◌||◌, not, Option, none, some, if◌then◌else◌}
use ip_server.Base.Int.{ℤ, pos, ltb_ℤ}
use ip_server.Base.Text.{Str, codes, str_eq}
use ip_server.Config.{ServerConfig}

-- What the exception says: the name of a value with its limits, or the rotation type.
pub data ConfigError : Type 0 where
  out_of_range : (name : Str) (min max : ℤ) → ConfigError
  bad_rotation : ConfigError

abbrev pub mb : ℕ
mb = 1024 * 1024

-- A check, and what follows it.
unfoldable pub then_check : Option ConfigError → Option ConfigError → Option ConfigError
then_check (some e) next = some e
then_check none next = next

unfoldable pub check_range : Str → (value min max : ℤ) → Option ConfigError
check_range name value min max =
    if ltb_ℤ value min || ltb_ℤ max value then some (out_of_range name min max) else none

-- `std::ranges::contains` of the two rotation types.
unfoldable pub check_rotation : Str → Option ConfigError
check_rotation type =
    if str_eq (codes "none") type || str_eq (codes "size") type then none else some bad_rotation

unfoldable pub check_logging : ServerConfig → Option ConfigError
check_logging c = then_check (check_rotation c.log_rotation_type) (
    then_check
      (check_range (codes "Log max file size (MB)") (pos (c.log_max_file_size / mb)) (pos 1)
        (pos 1024))
      (check_range (codes "Log max backup files") c.log_max_backup_files (pos 0) (pos 100)))

unfoldable pub validate : ServerConfig → Option ConfigError
validate c = then_check (check_range (codes "Port") (pos c.port) (pos 1) (pos 65535)) (
    then_check (check_range (codes "Thread pool size") c.thread_pool_size (pos 1) (pos 64)) (
      then_check
        (if c.enable_rate_limiter
          then check_range (codes "Max requests per minute") c.max_requests_per_minute (pos 1)
              (pos 10000)
          else none)
        (then_check (check_range (codes "Max batch size") c.max_batch_size (pos 1) (pos 1000))
          (if c.enable_file_logging then check_logging c else none))))
