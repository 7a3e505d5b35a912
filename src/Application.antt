-- ===== src/Application.antt =====
-- src/main.cpp: `run_application` and `main`. The services, with whether their databases open, are
-- parameters, as are the lines of the key file. A signal is a step of the server's life
-- (Http/Lifecycle); the logging and the creation of directories have no effect here.
pub mod Ends
pub mod Services
use ip_server.Base.{ℕ, Bool, true, false, not, ◌&&◌, List, Option, none, some, if◌then◌else◌}
use ip_server.Base.Int.{ℤ}
use ip_server.Base.Text.{Str, empty}
use ip_server.Base.Real.{Real}
use ip_server.Json.{Json}
use ip_server.Cache.{CacheStats, add_stats}
use ip_server.Paths.{Environment}
use ip_server.Config.{ServerConfig}
use ip_server.Config.Files.{
  FileSystem, CommandLine, Parsed, exits, bad_options, invalid, accepted, parse, save_to_file,
}
use ip_server.Http.{
  Server, LookupHandler, new_server, set_lookup_handler, set_mac_lookup_handler,
  set_cache_stats_handler,
}
use ip_server.Http.Lifecycle.{Life, start}

-- The two services as the server sees them.
pub record Lookups (J : Json) (Services : Type 0) : Type 0 where
  pub open_services : ServerConfig → Option Services
  pub lookup_ip : LookupHandler J Services
  pub lookup_mac : LookupHandler J Services
  pub geo_stats : Services → CacheStats
  pub mac_stats : Services → CacheStats
  pub key_lines : Str → Option (List Str)

-- `main` has ended with an exit code, or the server runs.
pub data Ending (J : Json) (Services Latency : Type 0) : Type 0 where
  exit : ℕ → Ending J Services Latency
  serving : Server J Services Latency → Life → Ending J Services Latency

-- What `main` makes of the result of `run_application`.
unfoldable pub exit_code : Bool → ℕ
exit_code true = 0
exit_code false = 1

module _ {J : Json} (F : FileSystem J) (stoll : Str → Option ℤ) (stoull : Str → Option ℕ) where
  -- A configuration file that is missing is written; whether that works does not matter.
  unfoldable pub save_missing : ServerConfig → F.State → F.State
  save_missing c fs =
      if not (empty c.config_file) && not (F.exists fs c.config_file)
      then (save_to_file F stoll stoull c c.config_file fs).0
      else fs

module _ {J : Json} {Services Latency : Type 0} (services : Lookups J Services)
    (sha256 : Str → List ℕ) (second now : ℕ) where
  -- The server of `run_application`, with its three handlers.
  unfoldable pub make_server : ServerConfig → Services → Server J Services Latency
  make_server c w =
      set_cache_stats_handler (λ v. add_stats (services.geo_stats v) (services.mac_stats v))
        (set_mac_lookup_handler services.lookup_mac (
          set_lookup_handler services.lookup_ip
            (new_server sha256 (services.key_lines c.api_keys_file) second now c w)))

  -- `run_application` up to the start of the threads; the shutdown flag is cleared before.
  unfoldable pub run_application : ServerConfig → Ending J Services Latency
  run_application c = elim (services.open_services c) [
    | none ↦ exit 1
    | some w ↦ elim (start (make_server c w) false) [
      | none ↦ exit (exit_code false)
      | some life ↦ serving (make_server c w) life
    ]
  ]

  module _ (F : FileSystem J) (stoll : Str → Option ℤ) (stoull : Str → Option ℕ) where
    unfoldable pub after_parse : F.State × Parsed → F.State × Ending J Services Latency
    after_parse (fs, exits) = (fs, exit 0)
    after_parse (fs, bad_options e) = (fs, exit 1)
    after_parse (fs, invalid e) = (fs, exit 1)
    after_parse (fs, accepted c) = (save_missing F stoll stoull c fs, run_application c)

    unfoldable pub main : Environment → CommandLine → F.State → F.State × Ending J Services Latency
    main env command fs = after_parse (parse F stoll stoull env command fs)
