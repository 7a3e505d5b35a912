-- ===== src/Application/Services/Sequence.antt =====
-- src/main.cpp: the server of `run_application` over both services, and any sequence of lookups.
use ip_server.Base.{
  ℕ, ◌+◌, ◌*◌, ◌<◌, ◌≡◌, refl, Bool, List, [], ◌∷◌, Option, none, some, arith, ◌>>=◌,
}
use ip_server.Base.Int.{size_mod}
use ip_server.Base.Text.{Str}
use ip_server.Json.{Json}
use ip_server.Cache.Run.{nothing, new_cache-IsSound}
use ip_server.Config.{ServerConfig}
use ip_server.Config.Validate.{validate}
use ip_server.MacDatabase.{Answer, OuiDatabase}
use ip_server.Service.{ip_resolve, mac_resolve}
use ip_server.Service.Through.{Resolves}
use ip_server.Http.{
  Request, Response, Server, new_server, set_lookup_handler, set_mac_lookup_handler,
  set_cache_stats_handler,
}
use ip_server.Http.Setup.{new_server-IsServing}
use ip_server.Http.Lookup.{handle_lookup_get}
use ip_server.Application.{make_server}
use ip_server.Application.Services.{two_services, Services, new_services}
use ip_server.Application.Services.Answers.{IsHealthy, IsWired, IsReplied, cost, get_lem, geo, mac}

-- A request, with the readings of the clock that its handling makes, and the time it took.
pub record Get (Latency : Type 0) : Type 0 where
  pub req : Request
  pub first : ℕ
  pub later : ℕ
  pub third : ℕ
  pub done : ℕ
  pub latency : Latency

module _ (J : Json) (hash : Str → ℕ) (dump_size : J.Value → ℕ) (second : ℕ)
    (city asn : Str → Option J.Object) {Db : Type 0} (query : Db → Str → Answer)
    (oui_db : OuiDatabase Db) (rg : Resolves hash dump_size second (ip_resolve J city asn))
    (rm : Resolves hash dump_size second (mac_resolve J query oui_db)) (Latency : Type 0)
    (inet_pton getaddrinfo : Str → Bool) (sha256 : Str → List ℕ) where
  abbrev blank : Response J
  blank = record { status = none; headers = []; content = none }

  abbrev ServerOf : Type 0
  ServerOf = Server J (Option (Services J.Value)) Latency

  -- The lookups one after another, each with its response.
  abbrev pub get_all : List (Get Latency) → ServerOf → Option (ServerOf × List (Response J))
  get_all [] s = some (s, [])
  get_all (g ∷ gs) s = do
    (t, res) ←
        handle_lookup_get J second sha256 inet_pton getaddrinfo g.first g.later g.third g.done
          g.latency g.req s blank
    (u, rest) ← get_all gs t
    some (u, res ∷ rest)

  abbrev pub total_cost : List (Get Latency) → ℕ
  total_cost [] = 0
  total_cost (g ∷ gs) =
      cost J hash dump_size second city asn query oui_db rg rm Latency inet_pton getaddrinfo g.req
      + total_cost gs

  -- Each response is the reply to its request, by the server that the ones before it left.
  abbrev pub AllReplied : List (Get Latency) → ServerOf → List (Response J) → Type 0
  AllReplied [] s [] = Unit
  AllReplied (g ∷ gs) s (res ∷ rest) =
      (t : ServerOf) × (handle_lookup_get J second sha256 inet_pton getaddrinfo g.first g.later
          g.third g.done g.latency g.req s blank
        ≡ some (t, res))
      × IsReplied J hash dump_size second city asn query oui_db rg rm Latency inet_pton getaddrinfo
          sha256 g.first g.later g.third g.done g.latency g.req s blank res
      × AllReplied gs t rest
  AllReplied _ s _ = ⊥

  abbrev Wired : ℕ → ServerOf → Type 0
  Wired = IsWired J hash dump_size second city asn query oui_db rg rm Latency inet_pton getaddrinfo

  abbrev price : Request → ℕ
  price = cost J hash dump_size second city asn query oui_db rg rm Latency inet_pton getaddrinfo

  get_all_lem :
      (gs : List (Get Latency)) (spent : ℕ) (s : ServerOf)
      → Wired spent s
      → spent + total_cost gs < size_mod
      → (t : ServerOf) × (rs : List (Response J)) × (get_all gs s ≡ some (t, rs))
        × AllReplied gs s rs
  get_all_lem [] spent s h room = (s, [], refl, tt)
  get_all_lem (g ∷ gs) spent s h room =
      let ((t, res), e, h', ok) =
        get_lem J hash dump_size second city asn query oui_db rg rm Latency inet_pton getaddrinfo
          sha256 g.first g.later g.third g.done g.latency g.req s blank spent h refl
          (omega (arith, room)) in
      let (u, rest, run, all) = get_all_lem gs (spent + price g.req) t h' (omega (arith, room)) in
      (u, res ∷ rest, rw (e, get_all) (rw run refl), (t, e, ok, all))

  new_services-IsHealthy :
      (clock : ℕ → ℕ)
      → (w : Services J.Value) × (new_services clock ≡ some w)
        × IsHealthy J hash dump_size second city asn query oui_db rg rm 0 w
  unfolding new_services
  new_services-IsHealthy clock =
      let (geo, e, s) =
        new_cache-IsSound dump_size hash second (100 * 1024 * 1024) 8 (omega arith) in
      let (mac, f, t) =
        new_cache-IsSound dump_size hash second (50 * 1024 * 1024) 8 (omega arith) in
      (
        record { geo_cache = geo; mac_cache = mac; clock = clock; tick = 0 },
        rw e (rw f refl),
        (
          (0, (nothing, s, λ k v at ty q. absurd (cc q)), omega arith),
          (0, (nothing, t, λ k v at ty q. absurd (cc q)), omega arith),
        ),
      )

  -- The server that `run_application` builds over its two services, from a configuration that
  -- passes the validation, handles any sequence of lookups without undefined behaviour, as long
  -- as all answers together fit a `size_t` and both databases resolve every key. A request that
  -- passes `prepare_request` is answered, with the status that the library sets, as the database
  -- of its kind answers to its query, whatever was cached, evicted or expired, if it is well
  -- formed, and with status 400 otherwise. Any other is refused with status 400, 401 or 429.
  pub lookups_answered :
      (key_lines : Str → Option (List Str)) (clock : ℕ → ℕ) (now : ℕ) (c : ServerConfig)
      (gs : List (Get Latency))
      → validate c ≡ none
      → total_cost gs < size_mod
      → (w : Services J.Value) × (t : ServerOf) × (rs : List (Response J)) × (new_services clock
          ≡ some w)
        × (get_all gs (
              make_server
                (two_services J hash dump_size second city asn query oui_db key_lines clock)
                sha256
                second
                now
                c
                (some w))
            ≡ some (t, rs))
        × AllReplied gs
            (make_server
              (two_services J hash dump_size second city asn query oui_db key_lines clock)
              sha256
              second
              now
              c
              (some w))
            rs
  unfolding make_server set_lookup_handler set_mac_lookup_handler set_cache_stats_handler new_server
      two_services
  lookups_answered key_lines clock now c gs v room =
      let (w, e, h) = new_services-IsHealthy clock in
      let services = two_services J hash dump_size second city asn query oui_db key_lines clock in
      let s = make_server {Latency = Latency} services sha256 second now c (some w) in
      let ready =
        new_server-IsServing J Latency sha256 (key_lines c.api_keys_file) second now c (some w) v in
      let (t, rs, run, all) =
        get_all_lem gs 0 s (ready, refl, refl, (w, refl, h)) (omega (arith, room)) in
      (w, t, rs, e, run, all)
