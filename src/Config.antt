-- ===== src/Config.antt =====
-- src/config.h and src/config.cpp: the configuration and its defaults.
pub mod Validate
pub mod Stored
pub mod Overrides
pub mod Options
pub mod Files
use ip_server.Base.{ℕ, ◌*◌, Bool, true, false, []}
use ip_server.Base.Int.{ℤ, pos}
use ip_server.Base.Text.{Str, codes}

pub record ServerConfig : Type 0 where
  pub host : Str
  pub port : ℕ
  pub city_db_path : Str
  pub asn_db_path : Str
  pub oui_db_path : Str
  pub thread_pool_size : ℤ
  pub config_file : Str
  pub enable_rate_limiter : Bool
  pub max_requests_per_minute : ℤ
  pub max_batch_size : ℤ
  pub enable_api_auth : Bool
  pub api_keys_file : Str
  pub default_api_key : Str
  pub enable_file_logging : Bool
  pub log_file_path : Str
  pub log_rotation_type : Str
  pub log_max_file_size : ℕ
  pub log_max_backup_files : ℤ
  pub log_enable_stdout : Bool
  pub log_level : Str

unfoldable pub default_config : ServerConfig
default_config = record {
  host = codes "0.0.0.0";
  port = 8080;
  city_db_path = [];
  asn_db_path = [];
  oui_db_path = [];
  thread_pool_size = pos 4;
  config_file = [];
  enable_rate_limiter = true;
  max_requests_per_minute = pos 100;
  max_batch_size = pos 100;
  enable_api_auth = false;
  api_keys_file = [];
  default_api_key = [];
  enable_file_logging = false;
  log_file_path = codes "logs/ip_server.log";
  log_rotation_type = codes "size";
  log_max_file_size = 10 * 1024 * 1024;
  log_max_backup_files = pos 5;
  log_enable_stdout = true;
  log_level = codes "info";
}
