-- ===== src/Config/Options.antt =====
-- config.cpp, `create_option_parser`: the table of the options, and its defaults against those of
-- `ServerConfig`. A default stands in the help; the parser does not count it as an option given.
use ip_server.Base.{
  ◌≡◌, refl, Bool, true, false, List, [], ◌∷◌, Option, none, some, ◌>>=◌, if◌then◌else◌, ◌&&◌,
}
use ip_server.Base.Int.{ℤ, pos_part}
use ip_server.Base.Text.{Str, codes, str_eq}
use ip_server.Base.Decimal.{stoi, number, fails}
use ip_server.Config.{ServerConfig, default_config}
use ip_server.Config.Overrides.{Given, apply_cli_overrides, given_or, flag_or, logging_or, size_or}
use ip_server.Validation.{parse_bool_string}

-- The types that options have values of.
pub data ValueType : Type 0 where
  text_value : ValueType
  int_value : ValueType
  uint16_value : ValueType
  size_value : ValueType

pub record Opt : Type 0 where
  pub name : Str
  pub help : Str
  pub value : Option ValueType
  pub default_value : Option Str

unfoldable pub option_of : Str → Str → ValueType → Option Str → Opt
option_of name help value default_value = record {
  name = name;
  help = help;
  value = some value;
  default_value = default_value;
}

unfoldable pub create_option_parser : List Opt
create_option_parser =
    record {
      name = codes "help,h";
      help = codes "Show this help message";
      value = none;
      default_value = none;
    }
    ∷ option_of (codes "config") (codes "Path to configuration file") text_value none
    ∷ option_of (codes "city-db") (codes "Path to City MaxMind database") text_value none
    ∷ option_of (codes "asn-db") (codes "Path to ASN MaxMind database") text_value none
    ∷ option_of (codes "oui-db") (codes "Path to OUI database") text_value none
    ∷ option_of (codes "host") (codes "Server host address") text_value (some (codes "0.0.0.0"))
    ∷ option_of (codes "port") (codes "Server port") uint16_value (some (codes "8080"))
    ∷ option_of (codes "threads") (codes "Thread pool size") int_value (some (codes "4"))
    ∷ option_of (codes "enable-rate-limiter") (codes "Enable rate limiting") text_value
        (some (codes "true"))
    ∷ option_of (codes "max-requests-per-minute") (codes "Maximum requests per IP per minute")
        int_value (some (codes "100"))
    ∷ option_of (codes "max-batch-size") (codes "Maximum batch size for batch lookup") int_value
        (some (codes "100"))
    ∷ option_of (codes "enable-api-auth") (codes "Enable API authentication") text_value
        (some (codes "false"))
    ∷ option_of (codes "api-keys-file") (codes "Path to file containing API keys") text_value none
    ∷ option_of (codes "default-api-key") (codes "Default API key for testing") text_value none
    ∷ option_of (codes "enable-file-logging") (codes "Enable file logging") text_value
        (some (codes "false"))
    ∷ option_of (codes "log-file") (codes "Path to log file") text_value none
    ∷ option_of (codes "log-enable-stdout") (codes "Enable stdout logging") text_value
        (some (codes "true"))
    ∷ option_of (codes "log-rotation") (codes "Log rotation type: none or size") text_value
        (some (codes "size"))
    ∷ option_of (codes "log-max-size") (codes "Maximum log file size in MB") size_value
        (some (codes "10"))
    ∷ option_of (codes "log-max-backups") (codes "Maximum number of backup log files") int_value
        (some (codes "5"))
    ∷ option_of (codes "log-level") (codes "Log level: debug, info, warn, error") text_value
        (some (codes "info"))
    ∷ []

abbrev same_type : ValueType → ValueType → Bool
same_type text_value text_value = true
same_type int_value int_value = true
same_type uint16_value uint16_value = true
same_type size_value size_value = true
same_type _ _ = false

abbrev has_type : Option ValueType → ValueType → Bool
has_type none t = false
has_type (some u) t = same_type u t

-- The default of an option, read as a value of a type; an option of another type has none.
abbrev default_of : List Opt → Str → ValueType → Option Str
default_of [] k t = none
default_of (o ∷ os) k t =
    if str_eq o.name k && has_type o.value t then o.default_value else default_of os k t

abbrev int_of_text : Str → Option ℤ
int_of_text s = elim (stoi s) [ number n ↦ some n | fails _ ↦ none ]

-- The defaults as if they were given.
abbrev pub defaults_given : Given
defaults_given = record {
  text = λ k. default_of create_option_parser k text_value;
  int = λ k. default_of create_option_parser k int_value >>= int_of_text;
  port = default_of create_option_parser (codes "port") uint16_value >>= int_of_text >>= λ n.
      some (pos_part n);
  log_max_size =
      default_of create_option_parser (codes "log-max-size") size_value >>= int_of_text >>= λ n.
      some (pos_part n);
}

-- Each option that is read has the type it is read as, and the defaults that the help shows are
-- those of `ServerConfig`: given to any configuration they set every field that has one to the
-- field of the default configuration, and leave the paths, the keys and the file of the log.
pub apply_cli_overrides-defaults :
    (c : ServerConfig)
    → apply_cli_overrides defaults_given c ≡ record default_config {
      city_db_path = c.city_db_path;
      asn_db_path = c.asn_db_path;
      oui_db_path = c.oui_db_path;
      config_file = c.config_file;
      api_keys_file = c.api_keys_file;
      default_api_key = c.default_api_key;
      log_file_path = c.log_file_path;
    }
unfolding apply_cli_overrides default_config create_option_parser option_of parse_bool_string stoi
    given_or flag_or logging_or size_or
apply_cli_overrides-defaults c = refl
