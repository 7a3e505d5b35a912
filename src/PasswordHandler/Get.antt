-- ===== src/PasswordHandler/Get.antt =====
-- password_handler.cpp, `handle_get`: every outcome.
use ip_server.Base.{
  true, ◌^◌, arith, ◌||◌, ◌<◌, ℕ, ◌≡◌, ◌≤◌, refl, ◌⊎◌, inl, inr, Bool, Option, some, Bool-cases,
  Option-cases, length,
}
use ip_server.Base.Int.{ℤ, pos, pos_part}
use ip_server.Base.Text.{Str, codes, empty}
use ip_server.Base.Decimal.{Stoi, number, fails, invalid, out_of_range, stoi}
use ip_server.Base.Decimal.{to_string}
use ip_server.Base.Decimal.RoundTrip.{stoi-to_string, to_string_filled}
use ip_server.Json.{Json}
use ip_server.Metrics.{Metrics, record_request, record_error}
use ip_server.Http.{Request, Response, send_error_response, send_json_response}
use ip_server.Password.{PasswordConfig, PasswordResult, build_character_sets, validate_config}
use ip_server.Password.Sets.{Within}
use ip_server.Password.Accepts.{IsAcceptable, validate_config_iff}
use ip_server.Password.Generate.{generate_lem}
use ip_server.PasswordHandler.{
  Exception, invalid_argument, other_exception, stoi_value, length_param, flag_params, catch_get,
  result_json, answer_one, handle_get,
}

-- A password as a configuration asks for it.
abbrev pub Suits : {Double : Type 0} → PasswordConfig → PasswordResult Double → Type 0
Suits c r =
    (length r.password ≡ pos_part c.length) × Within (build_character_sets c).pool r.password

-- `std::stoi` throws `invalid_argument` or `out_of_range`.
abbrev pub IsRead : Exception ⊎ ℤ → Type 0
IsRead out =
    ((n : ℤ) × (out ≡ inr n))
    ⊎ (((e : Str) × (out ≡ inl (invalid_argument e)))
        ⊎ ((e : Str) × (out ≡ inl (other_exception e))))

stoi_value-IsRead : (s : Stoi) → IsRead (stoi_value s)
unfolding stoi_value
stoi_value-IsRead (number n) = inl (n, refl)
stoi_value-IsRead (fails invalid) = inr (inl (codes "stoi", refl))
stoi_value-IsRead (fails out_of_range) = inr (inr (codes "stoi", refl))

length_param-IsRead : (req : Request) → IsRead (length_param req)
unfolding length_param
length_param-IsRead req = elim (Bool-cases (empty (req.param_value (codes "length")))) [
  | inl e ↦ rw e (inl (pos 16, refl))
  | inr e ↦ rw e (stoi_value-IsRead (stoi (req.param_value (codes "length"))))
]

-- A kind of character is on.
abbrev pub IsOn : PasswordConfig → Type 0
IsOn c = (c.uppercase || c.lowercase || c.digits || c.symbols) ≡ true

length_param-to_string :
    (req : Request) (n : ℕ)
    → n < 2 ^ 31
    → req.param_value (codes "length") ≡ to_string (pos n)
    → length_param req ≡ inr (pos n)
unfolding length_param stoi_value
length_param-to_string req n h t =
    rw (t, to_string_filled n, stoi-to_string (pos n) (omega arith) h) refl

module _ (J : Json) {Double : Type 0} (of_double : Double → J.Value) {Latency : Type 0}
    (second now : ℕ) (latency : Latency) (calculate_entropy : ℕ → ℕ → Double)
    (below : Double → ℕ → Bool) where
  -- A password was made, and one request is recorded.
  abbrev Made : Request → Metrics Latency → Metrics Latency × Response J → Type 0
  Made req m (m', res') =
      (n : ℤ) × (r : PasswordResult Double) × (length_param req ≡ inr n)
      × IsAcceptable (flag_params req n)
      × Suits (flag_params req n) r
      × (res'.status ≡ some 200)
      × (res'.content ≡ some (result_json J of_double r))
      × (m' ≡ record_request second now latency m)

  -- A length that is no number, or a configuration that is not acceptable; nothing is recorded.
  abbrev Declined : Request → Metrics Latency → Metrics Latency × Response J → Type 0
  Declined req m (m', res') =
      (((e : Str) × (length_param req ≡ inl (invalid_argument e)))
        ⊎ ((n : ℤ) × (length_param req ≡ inr n) × ¬ IsAcceptable (flag_params req n)))
      × (res'.status ≡ some 400)
      × (m' ≡ m)

  -- A number that is no `int`; one error is recorded.
  abbrev Failing : Request → Metrics Latency → Metrics Latency × Response J → Type 0
  Failing req m (m', res') =
      ((e : Str) × (length_param req ≡ inl (other_exception e)))
      × (res'.status ≡ some 500)
      × (m' ≡ record_error m)

  abbrev pub GetOutcome : Request → Metrics Latency → Metrics Latency × Response J → Type 0
  GetOutcome req m r = Made req m r ⊎ (Declined req m r ⊎ Failing req m r)

  module _ (draw : ℕ → ℕ → ℕ) (in_range : (i n : ℕ) → draw i n ≤ n) (shuffle : Str → Str)
      (permutes : (s : Str)
        → (length (shuffle s) ≡ length s)
          × ((pool : Str) → Within pool s → Within pool (shuffle s)))
      (req : Request) (m : Metrics Latency) (res : Response J) where
    abbrev answered : Option (Metrics Latency × Response J)
    answered =
        handle_get J of_double second now latency calculate_entropy below draw shuffle req m res

    -- The part behind the parameters.
    generated :
        (n : ℤ)
        → length_param req ≡ inr n
        → (p : Metrics Latency × Response J) × (answered ≡ some p) × GetOutcome req m p
    unfolding handle_get answer_one catch_get send_error_response send_json_response
    generated n e =
        let c = flag_params req n in
        let (good, bad) = generate_lem draw in_range shuffle permutes calculate_entropy below c in
        elim (Option-cases (validate_config c)) [
          | inl v ↦
              let (r, g, l, w) = good v in
              let p =
                answer_one J of_double second now latency calculate_entropy below m res (inr r) in
              (
                p,
                rw (handle_get, e, g) refl,
                inl (n, r, e, (validate_config_iff c).0 v, (l, w), refl, refl, refl),
              )
          | inr (x, v) ↦
              let p =
                answer_one J of_double second now latency calculate_entropy below m res (inl x) in
              let no_good : ¬ IsAcceptable c = λ a. absurd (cc (v, (validate_config_iff c).1 a)) in
              (p, rw (handle_get, e, bad x v) refl, inr (inl (inr (n, e, no_good), refl, refl)))
        ]

    pub handle_get_lem :
        (p : Metrics Latency × Response J) × (answered ≡ some p) × GetOutcome req m p
    unfolding handle_get catch_get send_error_response
    handle_get_lem = elim (length_param-IsRead req) [
      | inl (n, e) ↦ generated n e
      | inr (inl (x, e)) ↦ (
        catch_get J (invalid_argument x) m res,
        rw (handle_get, e) refl,
        inr (inl (inl (x, e), refl, refl)),
      )
      | inr (inr (x, e)) ↦ (
        catch_get J (other_exception x) m res,
        rw (handle_get, e) refl,
        inr (inr ((x, e), refl, refl)),
      )
    ]

    -- The decimal text of an acceptable length gets a password of that length.
    pub handle_get-to_string :
        (n : ℕ)
        → 8 ≤ n
        → n ≤ 128
        → req.param_value (codes "length") ≡ to_string (pos n)
        → IsOn (flag_params req (pos n))
        → (r : PasswordResult Double) × (m' : Metrics Latency) × (res' : Response J) × (answered
            ≡ some (m', res'))
          × (length r.password ≡ n)
          × (res'.status ≡ some 200)
          × (res'.content ≡ some (result_json J of_double r))
          × (m' ≡ record_request second now latency m)
    unfolding handle_get answer_one send_json_response flag_params
    handle_get-to_string n l h t on =
        let e = length_param-to_string req n (omega arith) t in
        let c = flag_params req (pos n) in
        let v = (validate_config_iff c).1 (omega arith, omega arith, on) in
        let (r, g, k, w) =
          (generate_lem draw in_range shuffle permutes calculate_entropy below c).0 v in
        let (m', res') =
          answer_one J of_double second now latency calculate_entropy below m res (inr r) in
        (r, m', res', rw (handle_get, e, g) refl, k, refl, refl, refl)
