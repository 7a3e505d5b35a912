-- ===== src/Http/Lookup/Answers.antt =====
-- http_server.cpp, `handle_lookup_get`: every outcome of a request.
use ip_server.Base.{
  ℕ, ◌≡◌, refl, sym, ap, subst, ◌∙◌, ◌⊎◌, inl, inr, Bool, true, false, List, Option, none, some,
  if◌then◌else◌, Bool-cases,
}
use ip_server.Base.Text.{Str, codes, empty}
use ip_server.Json.{Json}
use ip_server.Validation.{is_valid_ip_format, is_valid_mac_format}
use ip_server.Metrics.{record_request, record_error}
use ip_server.Http.{
  Request, Response, Server, LookupHandler, Thrown, send_error_response, set_content,
}
use ip_server.Http.Gate.{prepare_request, get_real_client_ip}
use ip_server.Http.Gate.Authentication.{MayPass}
use ip_server.Http.Gate.Admission.{IsServing, SameBut, Prepared, prepare_request_lem}
use ip_server.Http.Lookup.{handled, call_handler, answer_query, lookup_query, handle_lookup_get}

module _ {J : Json} {Services Latency : Type 0} (second : ℕ) (inet_pton getaddrinfo : Str → Bool)
    (now : ℕ) (latency : Latency) where
  -- The handler that is set for a query of this kind, for a query of the right form.
  abbrev pub Chosen : Server J Services Latency → LookupHandler J Services → Str → Type 0
  Chosen s h query =
      ((s.mac_lookup_handler ≡ some h) × (is_valid_mac_format query ≡ true))
      ⊎ ((s.lookup_handler ≡ some h) × (is_valid_ip_format inet_pton getaddrinfo query ≡ true))

  -- The value of the handler is the answer, and one request is recorded.
  abbrev pub Answered : Response J → (s s' : Server J Services Latency) → Response J → Type 0
  Answered res s s' res' =
      (h : LookupHandler J Services) × (query : Str) × (value : J.Value) × Chosen s h query
      × (h query s.services ≡ (s'.services, inr value))
      × (res'.content ≡ some value)
      × (res'.status ≡ res.status)
      × (s'.metrics ≡ record_request second now latency s.metrics)

  -- The handler threw, and one error is recorded.
  abbrev pub Threw : (s s' : Server J Services Latency) → Response J → Type 0
  Threw s s' res' =
      (h : LookupHandler J Services) × (query : Str) × (e : Thrown) × Chosen s h query
      × (h query s.services ≡ (s'.services, inl e))
      × (res'.status ≡ some 500)
      × (s'.metrics ≡ record_error s.metrics)

  -- No handler was called, and the status says why.
  abbrev pub Refused : (s s' : Server J Services Latency) → Response J → Type 0
  Refused s s' res' =
      (status : ℕ) × (res'.status ≡ some status)
      × ((status ≡ 400) ⊎ ((status ≡ 401) ⊎ ((status ≡ 429) ⊎ (status ≡ 500))))
      × (s'.services ≡ s.services)
      × (s'.metrics ≡ s.metrics)

  abbrev pub Outcome :
      Response J → (s : Server J Services Latency) → Server J Services Latency × Response J → Type 0
  Outcome res s (s', res') =
      (s'.rate_limiter ≡ s.rate_limiter)
      × (s'.enable_rate_limiter ≡ s.enable_rate_limiter)
      × (Answered res s s' res' ⊎ (Threw s s' res' ⊎ Refused s s' res'))

  module _ (s : Server J Services Latency) (res : Response J) where
    handled_lem :
        (h : LookupHandler J Services) (query : Str)
        → Chosen s h query
        → (out : Services × (Thrown ⊎ J.Value)) → h query s.services ≡ out
        → Outcome res s (handled J second now latency s res out)
    unfolding handled set_content
    handled_lem h query c (w, inr v) e = (refl, refl, inl (h, query, v, c, e, refl, refl, refl))
    handled_lem h query c (w, inl x) e = (refl, refl, inr (inl (h, query, x, c, e, refl, refl)))

    answer_query_lem :
        (is_mac valid : Bool) (query : Str) (handler : Option (LookupHandler J Services))
        → ((h : LookupHandler J Services) → valid ≡ true → handler ≡ some h → Chosen s h query)
        → Outcome res s (answer_query J second now latency is_mac valid query handler s res)
    unfolding answer_query send_error_response call_handler
    answer_query_lem is_mac false query handler c =
        (refl, refl, inr (inr (400, refl, inl refl, refl, refl)))
    answer_query_lem is_mac true query none c =
        (refl, refl, inr (inr (500, refl, inr (inr (inr refl)), refl, refl)))
    answer_query_lem is_mac true query (some h) c =
        handled_lem h query (c h refl refl) (h query s.services) refl

    lookup_query_lem :
        (req : Request) (ip : Str)
        → Outcome res s (lookup_query J second inet_pton getaddrinfo now latency req ip s res)
    unfolding lookup_query send_error_response
    lookup_query_lem req ip =
        let mac = req.param_value (codes "mac") in
        let ip_param = req.param_value (codes "ip") in
        let query = if empty ip_param then ip else ip_param in
        let all = lookup_query J second inet_pton getaddrinfo now latency req ip s res in
        elim (Bool-cases (empty mac)) [
          | inl m ↦
              let valid = is_valid_ip_format inet_pton getaddrinfo query in
              let q : all
                  ≡ answer_query J second now latency false valid query s.lookup_handler s res =
                rw (m, lookup_query) refl in
              subst (Outcome res s) (sym q)
                (answer_query_lem false valid query s.lookup_handler (λ h v e. inr (e, v)))
          | inr m ↦ elim (Bool-cases (empty ip_param)) [
            | inl i ↦
                let valid = is_valid_mac_format mac in
                let q : all
                    ≡ answer_query J second now latency true valid mac s.mac_lookup_handler s res =
                  rw (m, i, lookup_query) refl in
                subst (Outcome res s) (sym q)
                  (answer_query_lem true valid mac s.mac_lookup_handler (λ h v e. inl (e, v)))
            | inr i ↦
                let refusal =
                  send_error_response J 400 (codes "Bad Request")
                    (codes "Cannot specify both 'ip' and 'mac' parameters simultaneously") res in
                let q : all ≡ (s, refusal) = rw (m, i, lookup_query) refl in
                subst (Outcome res s) (sym q)
                  (refl, refl, inr (inr (400, refl, inl refl, refl, refl)))
          ]
        ]

  -- What becomes of a request to `s`, with the limiter updated in between.
  abbrev pub Ends :
      Response J → Server J Services Latency → Server J Services Latency × Response J → Type 0
  Ends res s (s', res') = Answered res s s' res' ⊎ (Threw s s' res' ⊎ Refused s s' res')

  Chosen-from :
      (s t : Server J Services Latency) (f : LookupHandler J Services) (query : Str)
      → SameBut s t
      → Chosen t f query
      → Chosen s f query
  Chosen-from s t f query (_, _, h, mh, _) (inl (e, v)) = inl (sym mh ∙ e, v)
  Chosen-from s t f query (_, _, h, mh, _) (inr (e, v)) = inr (sym h ∙ e, v)

  Outcome-from :
      (res : Response J) (s t : Server J Services Latency)
      (r : Server J Services Latency × Response J)
      → SameBut s t
      → Outcome res t r
      → Ends res s r
  Outcome-from res s t r same (_, _, o) =
      let w = same.0 in
      let m = same.1 in
      elim o [
        | inl (f, query, v, c, e, a, b, k) ↦ inl (
          f,
          query,
          v,
          Chosen-from s t f query same c,
          subst (λ z. f query z ≡ (r.0.services, inr v)) w e,
          a,
          b,
          k ∙ ap (record_request second now latency) m,
        )
        | inr (inl (f, query, x, c, e, b, k)) ↦ inr (
            inl (
              f,
              query,
              x,
              Chosen-from s t f query same c,
              subst (λ z. f query z ≡ (r.0.services, inl x)) w e,
              b,
              k ∙ ap record_error m,
            ))
        | inr (inr (n, e, k, a, b)) ↦ inr (inr (n, e, k, a ∙ w, b ∙ m))
      ]

  -- The statuses of a refusal by `prepare_request`.
  refusal :
      (s t : Server J Services Latency) (res' : Response J)
      → (res'.status ≡ some 401) ⊎ ((res'.status ≡ some 400) ⊎ (res'.status ≡ some 429))
      → SameBut s t
      → Refused s t res'
  refusal s t res' (inl e) same = (401, e, inr (inl refl), same.0, same.1)
  refusal s t res' (inr (inl e)) same = (400, e, inl refl, same.0, same.1)
  refusal s t res' (inr (inr e)) same = (429, e, inr (inr (inl refl)), same.0, same.1)

  module _ (sha256 : Str → List ℕ) (start later third : ℕ) (req : Request)
      (s : Server J Services Latency) (res : Response J) where
    abbrev pub IsHandled : Type 0
    IsHandled =
        (r : Server J Services Latency × Response J) × (handle_lookup_get J second sha256 inet_pton
            getaddrinfo start later third now latency req s res
          ≡ some r)
        × IsServing r.0
        × Ends res s r

    prepared :
        (p : Server J Services Latency × Response J × Option Str)
        → prepare_request J sha256 start later third req s res ≡ some p
        → Prepared (get_real_client_ip req) (MayPass J sha256 req s) res s p
        → IsHandled
    unfolding handle_lookup_get
    prepared (t, res', none) e (v, same, d) =
        ((t, res'), rw e refl, v, inr (inr (refusal s t res' d same)))
    prepared (t, res', some ip) e (v, same, (_, _, _, d)) =
        let r = lookup_query J second inet_pton getaddrinfo now latency req ip t res' in
        let o = subst (λ z. Outcome z t r) d (lookup_query_lem t res' req ip) in
        (
          r,
          rw e refl,
          (λ on. let (l, q, w) = v (sym o.1 ∙ on) in (l, o.0 ∙ q, w)),
          Outcome-from res s t r same o,
        )

    -- A lookup on a server whose limiter, if it limits, is valid, is defined and leaves such a
    -- server. Either the value of a handler that is set, for a query of the right form, is the
    -- answer and one request is recorded; or the handler threw, the status is 500 and one error
    -- is recorded; or no handler was called and the status is 400, 401, 429 or 500.
    pub handle_lookup_get_lem : IsServing s → IsHandled
    handle_lookup_get_lem v =
        let (p, e, d) = prepare_request_lem J sha256 start later third req s res v in prepared p e d
