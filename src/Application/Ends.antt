-- ===== src/Application/Ends.antt =====
-- main.cpp: how `main` ends, and what its server does.
use ip_server.Base.{
  ℕ, ◌≡◌, refl, subst, ◌⊎◌, inl, inr, Bool, false, List, All, Option, none, some, length,
  Option-cases, ◌&&◌,
}
use ip_server.Base.Int.{ℤ}
use ip_server.Base.Text.{Str}
use ip_server.Base.Real.{Real, IsOrdered}
use ip_server.Json.{Json}
use ip_server.Paths.{Environment}
use ip_server.Config.{ServerConfig}
use ip_server.Config.Validate.{validate}
use ip_server.Config.Validate.Limits.{WithinLimits, validate_lem}
use ip_server.Config.Files.{
  FileSystem, CommandLine, malformed, help, options, Parsed, exits, bad_options, invalid, accepted,
  parse, checked, base_config,
}
use ip_server.Config.Overrides.{apply_cli_overrides}
use ip_server.Config.Files.Accepted.{checked_inv}
use ip_server.Http.{
  Response, Server, set_lookup_handler, set_mac_lookup_handler, set_cache_stats_handler,
}
use ip_server.Http.Setup.{new_server-IsServing}
use ip_server.Http.Gate.Admission.{IsServing}
use ip_server.Http.Routes.{System, Event, run}
use ip_server.Http.Routes.Run.{FairEvent, HasStatus, requests, run_lem}
use ip_server.Http.Lifecycle.{Life, init, is_set, start, Reach, returned}
use ip_server.Http.Lifecycle.Results.{IsResult, start_result}
use ip_server.Application.{
  Lookups, Ending, exit, serving, make_server, run_application, after_parse, main,
}

module _ {J : Json} {R : Real} (order : IsOrdered R) {Services : Type 0} (sys : System J R Services)
    (services : Lookups J Services) (now : ℕ) where
  -- The server serves any sequence of events; a result of `start` is true only after a shutdown
  -- was requested.
  abbrev pub Works : Server J Services R.Double → Life → Type 0
  Works s life =
      ((events : List (Event sys))
        → All (FairEvent order sys) events
        → (s' : Server J Services R.Double) × (responses : List (Response J)) × (run sys events s
            ≡ some (s', responses))
          × (length responses ≡ requests order sys events)
          × All HasStatus responses)
      × ((t : Life) (b : Bool) → Reach life t → t.phase ≡ returned b → IsResult b t)

  -- How a run with the configuration `c` ends.
  abbrev pub Runs : ServerConfig → Ending J Services R.Double → Type 0
  Runs c e =
      ((services.open_services c ≡ none) × (e ≡ exit 1))
      ⊎ ((s : Server J Services R.Double) × (life : Life) × (e ≡ serving s life)
          × (s.lookup_handler ≡ some services.lookup_ip)
          × (s.mac_lookup_handler ≡ some services.lookup_mac)
          × Works s life)

  make_server-IsServing :
      (c : ServerConfig) (w : Services)
      → validate c ≡ none
      → IsServing (make_server {Latency = R.Double} services sys.sha256 sys.second now c w)
  unfolding make_server set_lookup_handler set_mac_lookup_handler set_cache_stats_handler
  make_server-IsServing c w v =
      new_server-IsServing J R.Double sys.sha256 (services.key_lines c.api_keys_file) sys.second now
        c w v

  serving-Works :
      (s : Server J Services R.Double) (limits : Bool) → IsServing s → Works s (init limits false)
  serving-Works s limits v = (
    λ events f. let (s', rs, e, w, l, h) = run_lem order sys events s f v in (s', rs, e, l, h),
    λ t b r e. start_result limits false b r e,
  )

  run_application-Runs :
      (c : ServerConfig)
      → validate c ≡ none
      → Runs c (run_application services sys.sha256 sys.second now c)
  unfolding run_application start make_server set_lookup_handler set_mac_lookup_handler
      set_cache_stats_handler
  run_application-Runs c v = elim (Option-cases (services.open_services c)) [
    | inl e ↦ inl (e, rw (run_application, e) refl)
    | inr (w, e) ↦
        let s = make_server {Latency = R.Double} services sys.sha256 sys.second now c w in
        let limits = s.enable_rate_limiter && is_set s.rate_limiter in
        inr (
          s,
          init limits false,
          rw (run_application, e) refl,
          refl,
          refl,
          serving-Works s limits (make_server-IsServing c w v),
        )
  ]

  module _ (F : FileSystem J) (stoll : Str → Option ℤ) (stoull : Str → Option ℕ) where
    -- How `main` ends for what `parse` came to.
    abbrev pub EndsAs : Parsed → Ending J Services R.Double → Type 0
    EndsAs exits e = e ≡ exit 0
    EndsAs (bad_options x) e = e ≡ exit 1
    EndsAs (invalid x) e = e ≡ exit 1
    EndsAs (accepted c) e = WithinLimits c × Runs c e

    Judged : F.State × Parsed → Type 0
    Judged (fs, out) = (c : ServerConfig) → out ≡ accepted c → validate c ≡ none

    after_parse-EndsAs :
        (p : F.State × Parsed)
        → Judged p
        → EndsAs p.1 (after_parse services sys.sha256 sys.second now F stoll stoull p).1
    unfolding after_parse Judged
    after_parse-EndsAs (fs, exits) j = refl
    after_parse-EndsAs (fs, bad_options x) j = refl
    after_parse-EndsAs (fs, invalid x) j = refl
    after_parse-EndsAs (fs, accepted c) j =
        ((validate_lem c).0 (j c refl), run_application-Runs c (j c refl))

    parse-Judged :
        (env : Environment) (command : CommandLine) (fs : F.State)
        → Judged (parse F stoll stoull env command fs)
    unfolding Judged parse checked
    parse-Judged env (malformed x) fs c e = absurd (cc e)
    parse-Judged env help fs c e = absurd (cc e)
    parse-Judged env (options config given) fs c e =
        let base = (base_config F stoll stoull env config fs).1 in
        let (v, q) = checked_inv F stoll stoull (apply_cli_overrides given base) c e in
        subst (λ x. validate x ≡ none) q v

    -- `main` exits with 0 for the help and with 1 for options or a configuration that are refused;
    -- with an accepted configuration it exits with 1 when the databases do not open, and otherwise
    -- has a server with both lookup handlers, which serves any sequence of events.
    pub main_lem :
        (env : Environment) (command : CommandLine) (fs : F.State)
        → EndsAs
            (parse F stoll stoull env command fs).1
            (main services sys.sha256 sys.second now F stoll stoull env command fs).1
    unfolding main
    main_lem env command fs =
        after_parse-EndsAs (parse F stoll stoull env command fs) (parse-Judged env command fs)
