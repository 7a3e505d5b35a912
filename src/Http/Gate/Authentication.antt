-- ===== src/Http/Gate/Authentication.antt =====
-- http_server.cpp, `authenticate_request`: which requests pass.
use ip_server.Base.{
  subst, eq_of_some, ℕ, ◌≡◌, refl, sym, ap, ◌∙◌, ◌⊎◌, inl, inr, ◌↔◌, Bool, true, false, List, [],
  ◌∷◌, ◌++◌, none, some, arith, drop, length, Bool-cases, Option-cases,
}
use ip_server.Base.Text.{Str, codes, starts_with}
use ip_server.Json.{Json}
use ip_server.Auth.{ApiAuth, is_valid}
use ip_server.Http.{Request, Response, Server, send_error_response, set_header}
use ip_server.Http.Gate.{unauthorized, check_header, authenticate_request}

-- A text that starts with `p` is `p` and the rest behind it.
starts_with-drop : (s p : Str) → starts_with s p ≡ true → s ≡ p ++ drop (length p) s
starts_with-drop s [] h = refl
starts_with-drop [] (b ∷ p) h = cc
starts_with-drop (a ∷ s) (b ∷ p) h = let r = starts_with-drop s p in ground (arith, h, r)

abbrev pub bearer : Str
bearer = codes "Bearer "

module _ (sha256 : Str → List ℕ) where
  -- The header has a valid key behind the word that it must start with.
  abbrev pub HasKey : ApiAuth → Str → Type 0
  HasKey auth header = (key : Str) × (header ≡ bearer ++ key) × (is_valid sha256 key auth ≡ true)

-- What a check says of the response: untouched when the request passes, 401 otherwise.
abbrev pub Marked : {J : Json} → Response J → Response J × Bool → Type 0
Marked res (res', true) = res' ≡ res
Marked res (res', false) = res'.status ≡ some 401

module _ (J : Json) (sha256 : Str → List ℕ) where
  -- The two ways to say whether a check passed.
  abbrev pub Checked : Response J → Response J × Bool → Type 0 → Type 0
  Checked res r Passes = Marked res r × ((r.1 ≡ true) ↔ Passes)

  check_header_lem :
      (auth : ApiAuth) (h : Str) (res : Response J)
      → Checked res (check_header J sha256 auth h res) (HasKey sha256 auth h)
  unfolding check_header unauthorized send_error_response set_header
  check_header_lem auth [] res = (refl, ((λ e. absurd (cc e)), λ (key, e, v). absurd (cc e)))
  check_header_lem auth (c ∷ h) res = elim (Bool-cases (starts_with (c ∷ h) bearer)) [
    | inr n ↦ rw n (
      refl,
      ((λ e. absurd (cc e)), λ (key, e, v). absurd (cc (sym n ∙ ap (λ x. starts_with x bearer) e))),
    )
    | inl y ↦ rw y (elim (Bool-cases (is_valid sha256 (drop 7 (c ∷ h)) auth)) [
      | inl v ↦
          rw v (refl, ((λ _. (drop 7 (c ∷ h), starts_with-drop (c ∷ h) bearer y, v)), λ _. refl))
      | inr v ↦ rw v (
        refl,
        (
          (λ e. absurd (cc e)),
          λ (key, e, w). absurd (cc (sym v ∙ ap (λ x. is_valid sha256 (drop 7 x) auth) e ∙ w)),
        ),
      )
    ])
  ]

  module _ {Services Latency : Type 0} where
    -- Authentication is off, or the request has a key.
    abbrev pub MayPass : Request → Server J Services Latency → Type 0
    MayPass req s =
        (s.enable_api_auth ≡ false)
        ⊎ ((s.api_auth ≡ none)
            ⊎ ((auth : ApiAuth) × (s.api_auth ≡ some auth)
                × HasKey sha256 auth (req.header_value (codes "Authorization"))))

    -- A request passes exactly when authentication is off or its header is the word `Bearer`, a
    -- space and a valid key; the response is then untouched, and has status 401 otherwise.
    pub authenticate_request_lem :
        (req : Request) (s : Server J Services Latency) (res : Response J)
        → Checked res (authenticate_request J sha256 req s res) (MayPass req s)
    unfolding authenticate_request
    authenticate_request_lem req s res =
        let header = req.header_value (codes "Authorization") in
        let Holds = λ (r : Response J × Bool). Checked res r (MayPass req s) in
        elim (Bool-cases s.enable_api_auth) [
          | inr off ↦
              let e : authenticate_request J sha256 req s res ≡ (res, true) =
                rw (off, authenticate_request) refl in
              subst Holds (sym e) (refl, ((λ _. inl off), λ _. refl))
          | inl on ↦ elim (Option-cases s.api_auth) [
            | inl n ↦
                let e : authenticate_request J sha256 req s res ≡ (res, true) =
                  rw (on, n, authenticate_request) refl in
                subst Holds (sym e) (refl, ((λ _. inr (inl n)), λ _. refl))
            | inr (auth, n) ↦
                let c = check_header_lem auth header res in
                let e : authenticate_request J sha256 req s res
                    ≡ check_header J sha256 auth header res =
                  rw (on, n, authenticate_request) refl in
                subst Holds (sym e) (
                  c.0,
                  (
                    (λ p. inr (inr (auth, n, c.1.0 p))),
                    λ p. c.1.1 (elim p [
                      | inl q ↦ absurd (cc q)
                      | inr (inl q) ↦ absurd (cc q)
                      | inr (inr (auth', q, k)) ↦
                          subst (λ x. HasKey sha256 x header) (sym (eq_of_some (sym n ∙ q))) k
                    ]),
                  ),
                )
          ]
        ]
