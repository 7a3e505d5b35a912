-- ===== src/Application/Services/Answers.antt =====
-- src/main.cpp with http_server.cpp and src/service: a lookup of a server whose handlers are those
-- of the two services.
use ip_server.Base.{
  List, ℕ, ◌+◌, ◌≤◌, ◌<◌, ◌≡◌, refl, sym, ap, subst, ◌∙◌, ◌⊎◌, inl, inr, Bool, true, false, Option,
  none, some, if◌then◌else◌, Bool-cases, arith, suc,
}
use ip_server.Base.Int.{size_mod}
use ip_server.Base.Text.{Str}
use ip_server.Json.{Json}
use ip_server.Cache.{estimate_entry_size}
use ip_server.Cache.Sharded.{IpCache}
use ip_server.MacDatabase.{Answer, OuiDatabase}
use ip_server.Service.{ip_resolve, mac_resolve, ip_lookup, mac_lookup}
use ip_server.Service.Through.{Resolves, Serves, answer, through_cache-Step}
use ip_server.Http.{Request, Response, Server, LookupHandler, set_content}
use ip_server.Http.Gate.{prepare_request, get_real_client_ip}
use ip_server.Http.Gate.Authentication.{MayPass}
use ip_server.Http.Gate.Admission.{IsServing, Prepared, prepare_request_lem}
use ip_server.Http.Lookup.{handled, lookup_query, handle_lookup_get}
use ip_server.Application.Services.{Services, ticked, passed_on, geo_handler, mac_handler}
use ip_server.Application.Services.Form.{
  asks_mac, query_of, well_formed, lookup_query_valid, lookup_query_invalid,
}

module _ (J : Json) (hash : Str → ℕ) (dump_size : J.Value → ℕ) (second : ℕ)
    (city asn : Str → Option J.Object) {Db : Type 0} (query : Db → Str → Answer)
    (oui_db : OuiDatabase Db) (rg : Resolves hash dump_size second (ip_resolve J city asn))
    (rm : Resolves hash dump_size second (mac_resolve J query oui_db)) where
  -- What the databases answer, without a cache.
  abbrev pub database_answer : Bool → Str → J.Value
  database_answer is_mac q =
      if is_mac
      then answer hash dump_size second (mac_resolve J query oui_db) rm q
      else answer hash dump_size second (ip_resolve J city asn) rg q

  -- Each cache is sound, with answers of its database only, which took `spent` bytes at most.
  abbrev pub IsHealthy : ℕ → Services J.Value → Type 0
  IsHealthy spent w =
      ((a : ℕ) × Serves hash dump_size second (ip_resolve J city asn) rg a w.geo_cache
        × (a ≤ spent))
      × ((b : ℕ) × Serves hash dump_size second (mac_resolve J query oui_db) rm b w.mac_cache
          × (b ≤ spent))

  abbrev pub geo : LookupHandler J (Option (Services J.Value))
  geo = geo_handler J hash dump_size second city asn query oui_db

  abbrev pub mac : LookupHandler J (Option (Services J.Value))
  mac = mac_handler J hash dump_size second city asn query oui_db

  -- Either handler gives the answer of its database, and keeps both caches healthy.
  handler_lem :
      (is_mac : Bool) (q : Str) (spent : ℕ) (w : Services J.Value)
      → IsHealthy spent w
      → spent + estimate_entry_size dump_size q (database_answer is_mac q) < size_mod
      → (w' : Services J.Value) × ((if is_mac then mac else geo) q (some w)
          ≡ (some w', inr (database_answer is_mac q)))
        × IsHealthy (spent + estimate_entry_size dump_size q (database_answer is_mac q)) w'
  unfolding geo_handler mac_handler passed_on ip_lookup mac_lookup ticked
  handler_lem true q spent w ((a, sa, la), (b, sb, lb)) room =
      let now = w.clock w.tick in
      let (d, v, hit, e, p, (b', sb', lb')) =
        through_cache-Step hash dump_size second (mac_resolve J query oui_db) rm b now
          (w.clock (suc w.tick)) q w.mac_cache sb (omega (arith, lb, room)) in
      let next : IpCache J.Value → Services J.Value = λ c. record (ticked w) { mac_cache = c } in
      (
        next d,
        ap (passed_on next) e ∙ ap (λ x. (some (next d), inr x)) p,
        ((a, sa, omega (arith, la)), (b', sb', omega (arith, lb, lb'))),
      )
  handler_lem false q spent w ((a, sa, la), (b, sb, lb)) room =
      let now = w.clock w.tick in
      let (d, v, hit, e, p, (a', sa', la')) =
        through_cache-Step hash dump_size second (ip_resolve J city asn) rg a now
          (w.clock (suc w.tick)) q w.geo_cache sa (omega (arith, la, room)) in
      let next : IpCache J.Value → Services J.Value = λ c. record (ticked w) { geo_cache = c } in
      (
        next d,
        ap (passed_on next) e ∙ ap (λ x. (some (next d), inr x)) p,
        ((a', sa', omega (arith, la, la')), (b, sb, omega (arith, lb))),
      )

  module _ (Latency : Type 0) (inet_pton getaddrinfo : Str → Bool) where
    -- A server that is ready, with both handlers, and services that are healthy.
    abbrev pub IsWired : ℕ → Server J (Option (Services J.Value)) Latency → Type 0
    IsWired spent s =
        IsServing s
        × (s.lookup_handler ≡ some geo)
        × (s.mac_lookup_handler ≡ some mac)
        × ((w : Services J.Value) × (s.services ≡ some w) × IsHealthy spent w)

    -- The answer to the query of a request, and the bytes that it may take in a cache.
    abbrev pub answer_to : Request → J.Value
    answer_to req = database_answer (asks_mac req) (query_of req (get_real_client_ip req))

    abbrev pub cost : Request → ℕ
    cost req = estimate_entry_size dump_size (query_of req (get_real_client_ip req)) (answer_to req)

    -- A well-formed request is answered as the database does, any other has status 400.
    abbrev pub Replies : Request → Response J → Type 0
    Replies req res =
        ((well_formed inet_pton getaddrinfo req (get_real_client_ip req) ≡ true)
          × (res.content ≡ some (answer_to req))
          × (res.status ≡ none))
        ⊎ ((well_formed inet_pton getaddrinfo req (get_real_client_ip req) ≡ false)
            × (res.status ≡ some 400))

    more : (spent cost : ℕ) (w : Services J.Value) → IsHealthy spent w → IsHealthy (spent + cost) w
    more spent cost w ((a, sa, la), (b, sb, lb)) =
        ((a, sa, omega (arith, la)), (b, sb, omega (arith, lb)))

    chosen :
        (is_mac : Bool) (s : Server J (Option (Services J.Value)) Latency)
        → s.lookup_handler ≡ some geo
        → s.mac_lookup_handler ≡ some mac
        → (if is_mac then s.mac_lookup_handler else s.lookup_handler)
          ≡ some (if is_mac then mac else geo)
    chosen true s g m = m
    chosen false s g m = g

    query_lem :
        (now : ℕ) (latency : Latency) (req : Request) (spent : ℕ)
        (s : Server J (Option (Services J.Value)) Latency) (res : Response J)
        → IsWired spent s
        → res.status ≡ none
        → spent + cost req < size_mod
        → IsWired
            (spent + cost req)
            (lookup_query J second inet_pton getaddrinfo now latency req
              (get_real_client_ip req)
              s
              res).0
          × Replies req
              (lookup_query J second inet_pton getaddrinfo now latency req
                (get_real_client_ip req)
                s
                res).1
    unfolding handled set_content
    query_lem now latency req spent s res (v, g, m, (w, k, h)) unset room =
        let c = get_real_client_ip req in
        let P = λ (r : Server J (Option (Services J.Value)) Latency × Response J).
          IsWired (spent + cost req) r.0 × Replies req r.1 in
        elim (Bool-cases (well_formed inet_pton getaddrinfo req c)) [
          | inl ok ↦
              let (w', e, h') = handler_lem (asks_mac req) (query_of req c) spent w h room in
              let f = if asks_mac req then mac else geo in
              let r =
                lookup_query_valid J second inet_pton getaddrinfo now latency req c s res f ok
                  (chosen (asks_mac req) s g m) (ap (f (query_of req c)) k ∙ e) in
              subst P (sym r) ((v, g, m, (w', refl, h')), inl (ok, refl, unset))
          | inr bad ↦
              let (res', r, n) =
                lookup_query_invalid J second inet_pton getaddrinfo now latency req c s res bad in
              subst P (sym r) ((v, g, m, (w, k, more spent (cost req) w h)), inr (bad, n))
        ]

    module _ (sha256 : Str → List ℕ) (start later third now : ℕ) (latency : Latency) (req : Request)
        (s : Server J (Option (Services J.Value)) Latency) (res : Response J) where
      -- The request passes `prepare_request`, and its query is replied to; or it is refused there.
      abbrev pub IsReplied : Response J → Type 0
      IsReplied res' =
          ((t : Server J (Option (Services J.Value)) Latency) × (prepare_request J sha256 start
                later third req s res
              ≡ some (t, res, some (get_real_client_ip req)))
            × Replies req res')
          ⊎ ((t : Server J (Option (Services J.Value)) Latency) × (prepare_request J sha256 start
                  later third req s res
                ≡ some (t, res', none))
              × ((res'.status ≡ some 401) ⊎ ((res'.status ≡ some 400) ⊎ (res'.status ≡ some 429))))

      prepared :
          (spent : ℕ) (p : Server J (Option (Services J.Value)) Latency × Response J × Option Str)
          → IsWired spent s
          → res.status ≡ none
          → spent + cost req < size_mod
          → prepare_request J sha256 start later third req s res ≡ some p
          → Prepared (get_real_client_ip req) (MayPass J sha256 req s) res s p
          → (r : Server J (Option (Services J.Value)) Latency × Response J) × (handle_lookup_get J
                second sha256 inet_pton getaddrinfo start later third now latency req s res
              ≡ some r)
            × IsWired (spent + cost req) r.0
            × IsReplied r.1
      unfolding handle_lookup_get
      prepared spent (t, res', none) (_, g, m, (w, k, h)) unset room e (v, same, d) =
          let (sk, _, sg, sm, _) = same in
          (
            (t, res'),
            rw e refl,
            (v, sg ∙ g, sm ∙ m, (w, sk ∙ k, more spent (cost req) w h)),
            inr (t, rw e refl, d),
          )
      prepared spent (t, res', some ip) (_, g, m, (w, k, h)) unset room e (v, same, (q, _, _, d)) =
          let (sk, _, sg, sm, _) = same in
          let out = lookup_query J second inet_pton getaddrinfo now latency req in
          let wired =
            query_lem now latency req spent t res' (v, sg ∙ g, sm ∙ m, (w, sk ∙ k, h))
              (ap (λ (z : Response J). z.status) d ∙ unset) room in
          (
            out (get_real_client_ip req) t res',
            rw e (ap (λ c. some (out c t res')) q),
            wired.0,
            inl (
              t,
              e ∙ ap (λ z. some (t, z, some ip)) d ∙ ap (λ c. some (t, res, some c)) q,
              wired.1,
            ),
          )

      -- A lookup of such a server is defined, is replied to, and leaves such a server.
      pub get_lem :
          (spent : ℕ)
          → IsWired spent s
          → res.status ≡ none
          → spent + cost req < size_mod
          → (r : Server J (Option (Services J.Value)) Latency × Response J) × (handle_lookup_get J
                second sha256 inet_pton getaddrinfo start later third now latency req s res
              ≡ some r)
            × IsWired (spent + cost req) r.0
            × IsReplied r.1
      get_lem spent h unset room =
          let (p, e, d) = prepare_request_lem J sha256 start later third req s res h.0 in
          prepared spent p h unset room e d
