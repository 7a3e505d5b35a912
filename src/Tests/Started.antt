-- ===== src/Tests/Started.antt =====
-- `main` with one configuration file. The file is empty, or holds an object.
use ip_server.Base.{◌≡◌, refl, true, false, Option, none, some, if◌then◌else◌}
use ip_server.Base.Text.{codes, str_eq}
use ip_server.Cache.{no_stats}
use ip_server.Paths.{Environment}
use ip_server.Config.{ServerConfig, default_config}
use ip_server.Config.Overrides.{Given, given_or, flag_or, size_or, logging_or, apply_cli_overrides}
use ip_server.Config.Validate.{validate, then_check, check_range, check_logging, check_rotation}
use ip_server.Config.Files.{
  FileSystem, options, accepted, parse, apply_default_paths, save_to_file, handle_config_file,
  base_config, checked,
}
use ip_server.Config.Files.FirstRun.{KeepsFiles, forget_path, written, parse_again}
use ip_server.Application.{Lookups, main}
use ip_server.Application.Ends.{EndsAs, main_lem}
use ip_server.Tests.Requests.{echo}
use ip_server.Tests.Running.{whole-IsOrdered, sys}
use ip_server.Tests.Values.{plain}
use ip_server.Tests.Trees.{Tree, object, trees, trees-IsLawful}

-- One file, of every name.
abbrev one_file : FileSystem trees
one_file = record {
  State = Option Tree;
  exists = λ fs file. true;
  at_eof = λ fs file. elim fs [ none ↦ true | some v ↦ false ];
  read_json = λ fs file. fs;
  write_json = λ fs file o. (some (object o), true);
}

one_file-KeepsFiles : KeepsFiles one_file
one_file-KeepsFiles = record {
  exists-write = λ fs file o w. refl;
  at_eof-write = λ fs file o w. refl;
  read-write = λ fs file o w. refl;
}

abbrev home : Environment
home = record { home_variable = some (codes "/root"); user_home = none }

abbrev given : Given
given = record {
  text = λ k. if str_eq k (codes "host") then some (codes "127.0.0.1") else none;
  int = λ k. none;
  port = some 81;
  log_max_size = none;
}

-- The configuration of the first run.
abbrev chosen : ServerConfig
chosen = apply_cli_overrides given (written home (codes "c"))

accepts :
    (parse one_file (λ s. none) (λ s. none) home (options (some (codes "c")) given) none).1
    ≡ accepted chosen
unfolding parse base_config handle_config_file save_to_file checked given_or apply_cli_overrides
    apply_default_paths default_config validate then_check check_range check_logging check_rotation
    flag_or size_or logging_or
accepts = refl

parse_again_example :
    let fs' =
      (parse one_file (λ s. none) (λ s. none) home (options (some (codes "c")) given) none).0 in
    parse one_file (λ s. none) (λ s. none) home (options (some (codes "c")) given) fs'
    ≡ (fs', accepted (forget_path chosen))
parse_again_example =
    parse_again trees-IsLawful (λ o. refl) one_file one_file-KeepsFiles (λ s. none) (λ s. none) home
      (codes "c") none refl refl refl (λ o. refl) given chosen accepts

abbrev lost : FileSystem plain
lost = record {
  State = Unit {0};
  exists = λ fs file. false;
  at_eof = λ fs file. true;
  read_json = λ fs file. none;
  write_json = λ fs file o. (fs, false);
}

abbrev lookups : Lookups plain (Unit {0})
lookups = record {
  open_services = λ c. some tt;
  lookup_ip = echo;
  lookup_mac = echo;
  geo_stats = λ w. no_stats;
  mac_stats = λ w. no_stats;
  key_lines = λ path. none;
}

main_lem_example :
    EndsAs whole-IsOrdered sys lookups 0 lost
      (λ s. none)
      (λ s. none)
      (parse lost (λ s. none) (λ s. none) home (options none given) tt).1
      (main lookups sys.sha256 sys.second 0 lost
        (λ s. none)
        (λ s. none)
        home
        (options none given)
        tt).1
main_lem_example =
    main_lem whole-IsOrdered sys lookups 0 lost (λ s. none) (λ s. none) home (options none given) tt
