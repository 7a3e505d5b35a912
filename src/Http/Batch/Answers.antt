-- ===== src/Http/Batch/Answers.antt =====
-- http_server.cpp, `handle_lookup_post`: every request is answered.
use ip_server.Base.{
  ℕ, ◌≡◌, refl, sym, subst, ◌∙◌, ◌⊎◌, inl, inr, Bool, List, Option, some, Option-cases, none,
}
use ip_server.Base.Text.{Str, codes}
use ip_server.Json.{Json}
use ip_server.Validation.{is_valid_ip_format, is_valid_mac_format}
use ip_server.Metrics.{Metrics}
use ip_server.Http.{
  Request, Response, Server, LookupHandler, Thrown, json_error, other_error, send_error_response,
  set_content,
}
use ip_server.Http.Batch.{
  handle_lookup_post, array_member, process_batch, run_batch, caught, finish, answer_batch,
  process_and_answer, lookup_body,
}
use ip_server.Http.Batch.Order.{Accepted, process_batch_lem}
use ip_server.Http.Gate.{prepare_request, get_real_client_ip}
use ip_server.Http.Gate.Authentication.{MayPass}
use ip_server.Http.Gate.Admission.{IsServing, Prepared, prepare_request_lem}

-- The status is that of the response so far, or an error's.
abbrev pub IsAnswer : {J : Json} → Response J → Response J → Type 0
IsAnswer res res' =
    (res'.status ≡ res.status)
    ⊎ ((res'.status ≡ some 400)
        ⊎ ((res'.status ≡ some 401) ⊎ ((res'.status ≡ some 429) ⊎ (res'.status ≡ some 500))))

module _ (J : Json) {Services Latency : Type 0} (second : ℕ) (clock : ℕ → ℕ) (latency : ℕ → Latency)
    (async : LookupHandler J Services
      → List Str
      → Services
      → Services × List (Thrown ⊎ J.Value)) where
  -- The limiter is as before, and the response is an answer.
  abbrev Settles :
      Server J Services Latency → Response J → Server J Services Latency × Response J → Type 0
  Settles s res (s', res') =
      (s'.rate_limiter ≡ s.rate_limiter)
      × (s'.enable_rate_limiter ≡ s.enable_rate_limiter)
      × IsAnswer res res'

  module _ (s : Server J Services Latency) (res : Response J) where
    finish-Settles :
        (out : Services × Metrics Latency × (Thrown ⊎ List J.Value))
        → Settles s res (finish J second clock latency async s res out)
    unfolding finish caught send_error_response set_content
    finish-Settles (w, m, inl (json_error e)) = (refl, refl, inr (inl refl))
    finish-Settles (w, m, inl (other_error e)) = (refl, refl, inr (inr (inr (inr refl))))
    finish-Settles (w, m, inr values) = (refl, refl, inl refl)

    caught-Settles : (e : Thrown) → Settles s res (caught J second clock latency async e s res)
    unfolding caught send_error_response
    caught-Settles (json_error e) = (refl, refl, inr (inl refl))
    caught-Settles (other_error e) = (refl, refl, inr (inr (inr (inr refl))))

    batch-Settles :
        (h : Option (LookupHandler J Services)) (type : Str) (validator : Str → Bool)
        (items : List J.Value) (out : Response J ⊎ (LookupHandler J Services × List Str))
        → process_batch J s.max_batch_size h type validator items res ≡ out
        → Accepted J s.max_batch_size h validator items out
        → Settles s res
            (process_and_answer J second clock latency async h type validator items s res)
    unfolding process_and_answer answer_batch
    batch-Settles h type validator items (inl res') e (inl (_, q)) =
        let p : process_and_answer J second clock latency async h type validator items s res
            ≡ (s, res') =
          rw (process_and_answer, e) refl in
        subst (Settles s res) (sym p) (refl, refl, inr (inr (inr (inr q))))
    batch-Settles h type validator items (inl res') e (inr (_, q)) =
        let p : process_and_answer J second clock latency async h type validator items s res
            ≡ (s, res') =
          rw (process_and_answer, e) refl in
        subst (Settles s res) (sym p) (refl, refl, inr (inl q))
    batch-Settles h type validator items (inr (f, queries)) e a =
        let p : process_and_answer J second clock latency async h type validator items s res
            ≡ answer_batch J second clock latency async f queries s res =
          rw (process_and_answer, e) refl in
        subst (Settles s res) (sym p)
          (finish-Settles (run_batch J second clock latency async f queries s.services s.metrics))

    process-Settles :
        (h : Option (LookupHandler J Services)) (type : Str) (validator : Str → Bool)
        (items : List J.Value)
        → Settles s res
            (process_and_answer J second clock latency async h type validator items s res)
    process-Settles h type validator items =
        batch-Settles h type validator items
          (process_batch J s.max_batch_size h type validator items res) refl
          (process_batch_lem J s.max_batch_size h type validator items res)

    lookup_body-Settles :
        (inet_pton getaddrinfo : Str → Bool) (body : J.Value)
        → Settles s res (lookup_body J second clock latency async inet_pton getaddrinfo body s res)
    unfolding lookup_body send_error_response
    lookup_body-Settles inet_pton getaddrinfo body =
        let all = lookup_body J second clock latency async inet_pton getaddrinfo body s res in
        let refused = λ (m : Str). send_error_response J 400 (codes "Bad Request") m res in
        elim (Option-cases (array_member J (codes "ips") body)) [
          | inl i ↦ elim (Option-cases (array_member J (codes "macs") body)) [
            | inl k ↦
                let p : all ≡ (
                  s,
                  refused (codes "Missing or invalid 'ips' or 'macs' array in request body"),
                ) =
                  rw (lookup_body, i, k) refl in
                subst (Settles s res) (sym p) (refl, refl, inr (inl refl))
            | inr (macs, k) ↦
                let p : all
                    ≡ process_and_answer J second clock latency async s.mac_lookup_handler
                        (codes "MAC") is_valid_mac_format macs s res =
                  rw (lookup_body, i, k) refl in
                subst (Settles s res) (sym p)
                  (process-Settles s.mac_lookup_handler (codes "MAC") is_valid_mac_format macs)
          ]
          | inr (ips, i) ↦ elim (Option-cases (array_member J (codes "macs") body)) [
            | inl k ↦
                let p : all
                    ≡ process_and_answer J second clock latency async s.lookup_handler (codes "IP")
                        (is_valid_ip_format inet_pton getaddrinfo) ips s res =
                  rw (lookup_body, i, k) refl in
                subst (Settles s res) (sym p) (
                  process-Settles s.lookup_handler (codes "IP")
                    (is_valid_ip_format inet_pton getaddrinfo) ips)
            | inr (macs, k) ↦
                let p : all ≡ (
                  s,
                  refused (codes "Cannot specify both 'ips' and 'macs' in the same request"),
                ) =
                  rw (lookup_body, i, k) refl in
                subst (Settles s res) (sym p) (refl, refl, inr (inl refl))
          ]
        ]

  module _ (parse : Str → Thrown ⊎ J.Value) (sha256 : Str → List ℕ)
      (inet_pton getaddrinfo : Str → Bool) (now later third : ℕ) (req : Request)
      (s : Server J Services Latency) (res : Response J) where
    abbrev pub IsAnswered : Type 0
    IsAnswered =
        (r : Server J Services Latency × Response J) × (handle_lookup_post J second clock latency
            async parse sha256 inet_pton getaddrinfo now later third req s res
          ≡ some r)
        × IsServing r.0
        × IsAnswer res r.1

    serves :
        (t : Server J Services Latency) (r : Server J Services Latency × Response J)
        → IsServing t
        → Settles t res r
        → IsServing r.0 × IsAnswer res r.1
    serves t r v (a, b, o) = ((λ on. let (l, q, w) = v (sym b ∙ on) in (l, a ∙ q, w)), o)

    parsed :
        (t : Server J Services Latency) (res' : Response J) (ip : Str)
        → prepare_request J sha256 now later third req s res ≡ some (t, res', some ip)
        → IsServing t
        → res' ≡ res
        → (out : Thrown ⊎ J.Value) → parse req.body ≡ out
        → IsAnswered
    unfolding handle_lookup_post
    parsed t res' ip e v d (inl x) p =
        let r = caught J second clock latency async x t res' in
        let (w, a) = serves t r v (subst (λ z. Settles t z r) d (caught-Settles t res' x)) in
        (r, rw (e, p) refl, w, a)
    parsed t res' ip e v d (inr body) p =
        let r = lookup_body J second clock latency async inet_pton getaddrinfo body t res' in
        let (w, a) =
          serves t r v (
            subst (λ z. Settles t z r) d (lookup_body-Settles t res' inet_pton getaddrinfo body)) in
        (r, rw (e, p) refl, w, a)

    refusal :
        (res' : Response J)
        → (res'.status ≡ some 401) ⊎ ((res'.status ≡ some 400) ⊎ (res'.status ≡ some 429))
        → IsAnswer res res'
    refusal res' (inl e) = inr (inr (inl e))
    refusal res' (inr (inl e)) = inr (inl e)
    refusal res' (inr (inr e)) = inr (inr (inr (inl e)))

    prepared :
        (p : Server J Services Latency × Response J × Option Str)
        → prepare_request J sha256 now later third req s res ≡ some p
        → Prepared (get_real_client_ip req) (MayPass J sha256 req s) res s p
        → IsAnswered
    unfolding handle_lookup_post
    prepared (t, res', none) e (v, same, d) = ((t, res'), rw e refl, v, refusal res' d)
    prepared (t, res', some ip) e (v, same, (_, _, _, d)) =
        parsed t res' ip e v d (parse req.body) refl

    pub handle_lookup_post_lem : IsServing s → IsAnswered
    handle_lookup_post_lem v =
        let (p, e, d) = prepare_request_lem J sha256 now later third req s res v in prepared p e d
