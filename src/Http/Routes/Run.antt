-- ===== src/Http/Routes/Run.antt =====
-- http_server.cpp: any sequence of requests and clean-up rounds is served.
use ip_server.Base.{
  ℕ, suc, ◌≤◌, ◌≡◌, refl, ap, ◌∙◌, ◌⊎◌, inl, inr, List, [], ◌∷◌, Option, none, some, if◌then◌else◌,
  Bool-cases, Option-cases, length, All,
}
use ip_server.Base.Text.{Str}
use ip_server.Base.Real.{Real, IsOrdered}
use ip_server.Json.{Json}
use ip_server.Metrics.{Metrics}
use ip_server.Metrics.Ranks.{get_stats-IsRanked}
use ip_server.RateLimiter.Sweep.{cleanup_lem}
use ip_server.Password.Sets.{Within}
use ip_server.Http.{Request, Response, Server, set_header, set_content}
use ip_server.Http.Pages.{handle_root, handle_health, health_json}
use ip_server.Http.Gate.Admission.{IsServing}
use ip_server.Http.Lookup.Answers.{handle_lookup_get_lem}
use ip_server.Http.Batch.Answers.{handle_lookup_post_lem}
use ip_server.PasswordHandler.Get.{handle_get_lem}
use ip_server.PasswordHandler.Post.{PostOutcome, handle_post_lem}
use ip_server.Http.Routes.{
  Method, Route, Env, System, Served, root, health, lookup_get, lookup_post, password_get,
  password_post, preflight, route, cors, parse_body, with_metrics, handle, serve, clean_up, Event,
  request, cleanup_round, run,
}

-- The numbers drawn are in their ranges, and the shuffles permute.
abbrev pub IsFair : {Double : Type 0} → Env Double → Type 0
IsFair env =
    ((j i n : ℕ) → env.draws j i n ≤ n)
    × ((j : ℕ) (s : Str)
        → (length (env.shuffles j s) ≡ length s)
          × ((pool : Str) → Within pool s → Within pool (env.shuffles j s)))

-- The status that is sent: the library's, for none, or one of five.
abbrev pub HasStatus : {J : Json} → Response J → Type 0
HasStatus res =
    (res.status ≡ none)
    ⊎ ((res.status ≡ some 200)
        ⊎ ((res.status ≡ some 400)
            ⊎ ((res.status ≡ some 401) ⊎ ((res.status ≡ some 429) ⊎ (res.status ≡ some 500)))))

refused :
    {J : Json} (res : Response J) (k : ℕ)
    → res.status ≡ some k
    → (k ≡ 400) ⊎ ((k ≡ 401) ⊎ ((k ≡ 429) ⊎ (k ≡ 500)))
    → (res.status ≡ some 400)
      ⊎ ((res.status ≡ some 401) ⊎ ((res.status ≡ some 429) ⊎ (res.status ≡ some 500)))
refused res k e (inl q) = inl (e ∙ ap some q)
refused res k e (inr (inl q)) = inr (inl (e ∙ ap some q))
refused res k e (inr (inr (inl q))) = inr (inr (inl (e ∙ ap some q)))
refused res k e (inr (inr (inr q))) = inr (inr (inr (e ∙ ap some q)))

module _ {J : Json} {R : Real} (order : IsOrdered R) {Services : Type 0}
    (sys : System J R Services) where
  abbrev Serves : Option (Served sys) → Type 0
  Serves out = (p : Served sys) × (out ≡ some p) × IsServing p.0 × HasStatus p.1

  module _ (s : Server J Services R.Double) (v : IsServing s) (res : Response J)
      (n : res.status ≡ none) (env : Env R.Double) (fair : IsFair env) (req : Request) where
    health-Serves : Serves (handle sys health env req s res)
    unfolding handle handle_health set_content
    health-Serves =
        let (t, e, l, k, r) = get_stats-IsRanked R order sys.second env.now s.metrics in
        let o = health_json J R sys.of_double env.epoch s.cache_stats_handler s.services t in
        ((s, record res { content = some (J.of_object o) }), rw (handle_health, e) refl, v, inl n)

    lookup_get-Serves : Serves (handle sys lookup_get env req s res)
    unfolding handle
    lookup_get-Serves =
        let (p, e, w, o) =
          handle_lookup_get_lem sys.second sys.inet_pton sys.getaddrinfo env.done env.latency
            sys.sha256 env.now env.later env.third req s res v in
        (
          p,
          e,
          w,
          elim o [
            | inl a ↦ inl (a.6 ∙ n)
            | inr (inl t) ↦ inr (inr (inr (inr (inr t.5))))
            | inr (inr r) ↦ inr (inr (refused p.1 r.0 r.1 r.2))
          ],
        )

    lookup_post-Serves : Serves (handle sys lookup_post env req s res)
    unfolding handle
    lookup_post-Serves =
        let (p, e, w, o) =
          handle_lookup_post_lem J sys.second env.clock env.latencies sys.async (parse_body sys)
            sys.sha256 sys.inet_pton sys.getaddrinfo env.now env.later env.third req s res v in
        (p, e, w, elim o [ inl a ↦ inl (a ∙ n) | inr b ↦ inr (inr b) ])

    password_get-Serves : Serves (handle sys password_get env req s res)
    unfolding handle with_metrics
    password_get-Serves =
        let ((m, res'), e, o) =
          handle_get_lem J sys.of_double sys.second env.now env.latency sys.calculate_entropy
            sys.below (env.draws 0) (fair.0 0) (env.shuffles 0) (fair.1 0) req s.metrics res in
        (
          (record s { metrics = m }, res'),
          rw e refl,
          v,
          elim o [
            | inl a ↦ inr (inl a.5)
            | inr (inl b) ↦ inr (inr (inl b.1))
            | inr (inr c) ↦ inr (inr (inr (inr (inr c.1))))
          ],
        )

    posted :
        (m : Metrics R.Double) (p : Metrics R.Double × Response J) (out : Str ⊎ J.Value)
        → PostOutcome J sys.of_double sys.second env.now env.latency sys.calculate_entropy sys.below
            out s.max_batch_size m p
        → HasStatus p.1
    posted m p (inl e) o = inr (inr (inl o.0))
    posted m p (inr body) (inl o) = inr (inl o.8)
    posted m p (inr body) (inr o) = inr (inr (inl o.1.0))

    password_post-Serves : Serves (handle sys password_post env req s res)
    unfolding handle with_metrics
    password_post-Serves =
        let ((m, res'), e, o) =
          handle_post_lem J sys.of_double sys.second env.now env.latency sys.calculate_entropy
            sys.below env.draws fair.0 env.shuffles fair.1 s.max_batch_size sys.parse req s.metrics
            res in
        (
          (record s { metrics = m }, res'),
          rw e refl,
          v,
          posted s.metrics (m, res') (sys.parse req.body) o,
        )

    handle-Serves : (r : Route) → Serves (handle sys r env req s res)
    unfolding handle handle_root set_content
    handle-Serves root = ((s, handle_root J res), refl, v, inl n)
    handle-Serves health = health-Serves
    handle-Serves lookup_get = lookup_get-Serves
    handle-Serves lookup_post = lookup_post-Serves
    handle-Serves password_get = password_get-Serves
    handle-Serves password_post = password_post-Serves
    handle-Serves preflight = ((s, res), refl, v, inl n)

  serve-Serves :
      (method : Method) (path : Str) (env : Env R.Double) (req : Request)
      (s : Server J Services R.Double)
      → IsFair env
      → IsServing s
      → Serves (serve sys method path env req s)
  unfolding serve cors set_header
  serve-Serves method path env req s fair v =
      let res = cors sys (record { status = none; headers = []; content = none }) in
      elim (Option-cases (route method path)) [
        | inl e ↦ rw (e, serve) ((s, res), refl, v, inl refl)
        | inr (r, e) ↦ rw (e, serve) (handle-Serves s v res refl env fair req r)
      ]

  clean_up-IsServing :
      (clock : ℕ → ℕ) (s : Server J Services R.Double)
      → IsServing s
      → (s' : Server J Services R.Double) × ((if s.enable_rate_limiter
            then clean_up sys clock s
            else some s)
          ≡ some s')
        × IsServing s'
  unfolding clean_up
  clean_up-IsServing clock s v = elim (Bool-cases s.enable_rate_limiter) [
    | inl on ↦
        let (l, e, w) = v on in
        let (l', f, w', _, _) = cleanup_lem l clock w in
        (record s { rate_limiter = some l' }, rw (on, clean_up, e, f) refl, λ _. (l', refl, w'))
    | inr off ↦ (s, rw off refl, v)
  ]

  abbrev pub FairEvent : Event sys → Type 0
  FairEvent (request method path env req) = IsFair env
  FairEvent (cleanup_round clock) = Unit

  abbrev pub requests : List (Event sys) → ℕ
  requests [] = 0
  requests (request method path env req ∷ events) = suc (requests events)
  requests (cleanup_round clock ∷ events) = requests events

  pub run_lem :
      (events : List (Event sys)) (s : Server J Services R.Double)
      → All FairEvent events
      → IsServing s
      → (s' : Server J Services R.Double) × (responses : List (Response J)) × (run sys events s
          ≡ some (s', responses))
        × IsServing s'
        × (length responses ≡ requests events)
        × All HasStatus responses
  unfolding run
  run_lem [] s f v = (s, [], refl, v, refl, tt)
  run_lem (request method path env req ∷ events) s (f, fs) v =
      let ((s', res), e, w, h) = serve-Serves method path env req s f v in
      let (s'', rest, g, w', l, hs) = run_lem events s' fs w in
      (s'', res ∷ rest, rw (e, g) refl, w', ap suc l, (h, hs))
  run_lem (cleanup_round clock ∷ events) s (f, fs) v =
      let (s', e, w) = clean_up-IsServing clock s v in
      let (s'', rest, g, w', l, hs) = run_lem events s' fs w in
      (s'', rest, rw (e, g) refl, w', l, hs)
