-- ===== src/Http/Gate/Admission.antt =====
-- http_server.cpp, `prepare_request`: what passes and what is refused.
use ip_server.Base.{
  ℕ, ◌≡◌, refl, ◌⊎◌, inl, inr, Bool, true, false, List, Option, none, some, Bool-cases,
}
use ip_server.Base.Text.{Str, codes, empty}
use ip_server.Json.{Json}
use ip_server.RateLimiter.{RateLimiter, is_allowed, get_remaining}
use ip_server.RateLimiter.Invariant.{IsValid}
use ip_server.RateLimiter.Decision.{is_allowed_total}
use ip_server.RateLimiter.Remaining.{get_remaining-IsValid}
use ip_server.Http.{Request, Response, Server, send_error_response, send_json_response, set_header}
use ip_server.Http.Gate.{
  authenticate_request, get_real_client_ip, limit_request, too_many, prepare_request,
}
use ip_server.Http.Gate.Authentication.{Checked, MayPass, authenticate_request_lem}

-- What is said to the client: nothing yet for an address that passes, and a refusal otherwise.
abbrev pub Verdict :
    {J : Json} (c : Str) (Passes : Type 0) (res res' : Response J) → Option Str → Type 0
Verdict c Passes res res' (some ip) = (ip ≡ c) × (empty c ≡ false) × Passes × (res' ≡ res)
Verdict c Passes res res' none =
    (res'.status ≡ some 401) ⊎ ((res'.status ≡ some 400) ⊎ (res'.status ≡ some 429))

module _ {J : Json} {Services Latency : Type 0} where
  -- A server that limits requests has a valid limiter.
  abbrev pub IsServing : Server J Services Latency → Type 0
  IsServing s =
      s.enable_rate_limiter ≡ true → (l : RateLimiter) × (s.rate_limiter ≡ some l) × IsValid l

  -- All but the limiter is as before.
  abbrev pub SameBut : (s s' : Server J Services Latency) → Type 0
  SameBut s s' =
      (s'.services ≡ s.services)
      × (s'.metrics ≡ s.metrics)
      × (s'.lookup_handler ≡ s.lookup_handler)
      × (s'.mac_lookup_handler ≡ s.mac_lookup_handler)
      × (s'.max_batch_size ≡ s.max_batch_size)

  abbrev pub Prepared :
      Str
      → Type 0
      → Response J
      → Server J Services Latency
      → Server J Services Latency × Response J × Option Str
      → Type 0
  Prepared c Passes res s (s', res', ip) =
      IsServing s' × SameBut s s' × Verdict c Passes res res' ip

module _ (J : Json) (sha256 : Str → List ℕ) {Services Latency : Type 0} (now later third : ℕ) where
  module _ (c : Str) (s : Server J Services Latency) (res : Response J) (Passes : Type 0)
      (n : empty c ≡ false) (p : Passes) where
    limited :
        (l l' : RateLimiter) (b : Bool)
        → s.enable_rate_limiter ≡ true
        → s.rate_limiter ≡ some l
        → is_allowed c now later l ≡ some (l', b)
        → IsValid l'
        → (r : Server J Services Latency × Response J × Option Str) × (limit_request J sha256 now
              later third c s res
            ≡ some r)
          × Prepared c Passes res s r
    unfolding too_many send_json_response set_header limit_request get_remaining
    limited l l' true on e a w = (
      (record s { rate_limiter = some l' }, res, some c),
      rw (on, e, a, limit_request) refl,
      ((λ _. (l', refl, w)), (refl, refl, refl, refl, refl), (refl, n, p, refl)),
    )
    limited l l' false on e a w =
        let out = too_many J sha256 third c l' s res in
        (
          (out.0, out.1, none),
          rw (on, e, a, limit_request) refl,
          (
            (λ _. ((get_remaining c third l').0, refl, get_remaining-IsValid l' w c third)),
            (refl, refl, refl, refl, refl),
            inr (inr refl),
          ),
        )

    limit_request_lem :
        IsServing s
        → (r : Server J Services Latency × Response J × Option Str) × (limit_request J sha256 now
              later third c s res
            ≡ some r)
          × Prepared c Passes res s r
    unfolding limit_request
    limit_request_lem v = elim (Bool-cases s.enable_rate_limiter) [
      | inr off ↦ (
        (s, res, some c),
        rw (off, limit_request) refl,
        (v, (refl, refl, refl, refl, refl), (refl, n, p, refl)),
      )
      | inl on ↦
          let (l, e, w) = v on in
          let (l', b, a, w') = is_allowed_total l w c now later in limited l l' b on e a w'
    ]

  module _ (req : Request) (s : Server J Services Latency) (res : Response J)
      (v : IsServing s) where
    abbrev pub IsPrepared : Type 0
    IsPrepared =
        (r : Server J Services Latency × Response J × Option Str) × (prepare_request J sha256 now
            later third req s res
          ≡ some r)
        × Prepared (get_real_client_ip req) (MayPass J sha256 req s) res s r

    authenticated :
        (a : Response J × Bool)
        → authenticate_request J sha256 req s res ≡ a
        → Checked J sha256 res a (MayPass J sha256 req s)
        → IsPrepared
    unfolding prepare_request send_error_response
    authenticated (res', false) e h =
        ((s, res', none), rw e refl, (v, (refl, refl, refl, refl, refl), inl h.0))
    authenticated (res', true) e h =
        let c = get_real_client_ip req in
        elim (Bool-cases (empty c)) [
          | inl n ↦ (
            (
              s,
              send_error_response J 400 (codes "Bad Request")
                  (codes "Unable to determine source IP address") res',
              none,
            ),
            rw (e, n) refl,
            (v, (refl, refl, refl, refl, refl), inr (inl refl)),
          )
          | inr n ↦
              let (r, q, d) = limit_request_lem c s res (MayPass J sha256 req s) n (h.1.0 refl) v in
              (r, rw (e, n, h.0) q, d)
        ]

    pub prepare_request_lem : IsPrepared
    prepare_request_lem =
        authenticated (authenticate_request J sha256 req s res) refl
          (authenticate_request_lem J sha256 req s res)
