-- ===== src/PasswordHandler/Post.antt =====
-- password_handler.cpp, `handle_post`: every outcome.
use ip_server.Base.{
  false, arith, All, ◌<◌, List, ℕ, ◌≡◌, ◌++◌, ◌≤◌, refl, ◌⊎◌, inl, inr, Bool, Option, some,
  Bool-cases, Option-cases, length,
}
use ip_server.Base.Int.{negsuc, ltb_ℤ, ◌≤ℤ◌, ℤ, pos}
use ip_server.Base.Text.{Str, codes}
use ip_server.Base.Decimal.{to_string}
use ip_server.Json.{Json}
use ip_server.Metrics.{Metrics, record_request}
use ip_server.Http.{Request, Response, send_error_response, send_json_response}
use ip_server.Password.{PasswordResult, validate_config}
use ip_server.Password.Sets.{Within}
use ip_server.Password.Accepts.{IsAcceptable, validate_config_iff}
use ip_server.PasswordHandler.{
  json_exception, batch_json, body_config, catch_post, handle_post, answer_all, post_body,
  int_member,
}
use ip_server.Password.Batch.{generate_batch_lem, generate_batch_invalid}
use ip_server.PasswordHandler.Get.{Suits}

module _ (J : Json) {Double : Type 0} (of_double : Double → J.Value) {Latency : Type 0}
    (second now : ℕ) (latency : Latency) (calculate_entropy : ℕ → ℕ → Double)
    (below : Double → ℕ → Bool) where
  -- A batch was made, of as many passwords as the body asks for, and one request is recorded.
  abbrev MadeAll : J.Value → ℤ → Metrics Latency → Metrics Latency × Response J → Type 0
  MadeAll body max_batch m (m', res') =
      (n : ℕ) × (rs : List (PasswordResult Double)) × (int_member J body (codes "count") (pos 1)
        ≡ pos n)
      × (0 < n)
      × (pos n ≤ℤ max_batch)
      × IsAcceptable (body_config J body)
      × (length rs ≡ n)
      × All (Suits (body_config J body)) rs
      × (res'.status ≡ some 200)
      × (res'.content ≡ some (batch_json J of_double rs))
      × (m' ≡ record_request second now latency m)

  -- The count is not from 1 to the limit, or the configuration is not acceptable.
  abbrev IsUnfit : J.Value → ℤ → Type 0
  IsUnfit body max_batch = ¬ (
      (pos 1 ≤ℤ int_member J body (codes "count") (pos 1))
      × (int_member J body (codes "count") (pos 1) ≤ℤ max_batch)
      × IsAcceptable (body_config J body))

  abbrev Untouched : Metrics Latency → Metrics Latency × Response J → Type 0
  Untouched m (m', res') = (res'.status ≡ some 400) × (m' ≡ m)

  abbrev pub PostOutcome :
      Str ⊎ J.Value → ℤ → Metrics Latency → Metrics Latency × Response J → Type 0
  PostOutcome (inl e) max_batch m p = Untouched m p
  PostOutcome (inr body) max_batch m p =
      MadeAll body max_batch m p ⊎ (IsUnfit body max_batch × Untouched m p)

  module _ (draws : ℕ → ℕ → ℕ → ℕ) (in_range : (j i n : ℕ) → draws j i n ≤ n)
      (shuffles : ℕ → Str → Str)
      (permutes : (j : ℕ) (s : Str)
        → (length (shuffles j s) ≡ length s)
          × ((pool : Str) → Within pool s → Within pool (shuffles j s)))
      (max_batch : ℤ) (parse : Str → Str ⊎ J.Value) (req : Request) (m : Metrics Latency)
      (res : Response J) where
    abbrev posted : J.Value → Option (Metrics Latency × Response J)
    posted body =
        post_body J of_double second now latency calculate_entropy below draws shuffles max_batch
          body m res

    abbrev Posted : J.Value → Type 0
    Posted body =
        (p : Metrics Latency × Response J) × (posted body ≡ some p)
        × PostOutcome (inr body) max_batch m p

    counted :
        (body : J.Value) (k : ℤ)
        → int_member J body (codes "count") (pos 1) ≡ k
        → ltb_ℤ k (pos 1) ≡ false
        → ltb_ℤ max_batch k ≡ false
        → Posted body
    unfolding post_body answer_all catch_post send_error_response send_json_response
    counted body (negsuc n) e l h = absurd (ground (arith, l))
    counted body (pos n) e l h =
        let c = body_config J body in
        let test : 0 < n = ground (arith, l) in
        let within : pos n ≤ℤ max_batch = ground (arith, h) in
        elim (Option-cases (validate_config c)) [
          | inl v ↦
              let (rs, g, k, w) =
                generate_batch_lem draws in_range shuffles permutes calculate_entropy below c v n
                  test in
              let p =
                answer_all J of_double second now latency calculate_entropy below m res (inr rs) in
              (
                p,
                rw (post_body, e, l, h, g) refl,
                inl (n, rs, e, test, within, (validate_config_iff c).0 v, k, w, refl, refl, refl),
              )
          | inr (x, v) ↦
              let g =
                generate_batch_invalid draws in_range shuffles permutes calculate_entropy below c n
                  x test v in
              let p =
                answer_all J of_double second now latency calculate_entropy below m res (inl x) in
              (
                p,
                rw (post_body, e, l, h, g) refl,
                inr (λ u. absurd (cc (v, (validate_config_iff c).1 u.2)), (refl, refl)),
              )
        ]

    post_body_lem : (body : J.Value) → Posted body
    unfolding post_body send_error_response
    post_body_lem body =
        let k = int_member J body (codes "count") (pos 1) in
        let refused = λ (text : Str). send_error_response J 400 (codes "Bad Request") text res in
        elim (Bool-cases (ltb_ℤ k (pos 1))) [
          | inl l ↦ (
            (m, refused (codes "Count must be at least 1")),
            rw (post_body, l) refl,
            inr (λ u. absurd (ground (arith, l, u.0)), (refl, refl)),
          )
          | inr l ↦ elim (Bool-cases (ltb_ℤ max_batch k)) [
            | inl h ↦ (
              (m, refused (codes "Count cannot exceed " ++ to_string max_batch)),
              rw (post_body, l, h) refl,
              inr (λ u. absurd (ground (arith, h, u.1)), (refl, refl)),
            )
            | inr h ↦ counted body k refl l h
          ]
        ]

    parsed :
        (out : Str ⊎ J.Value)
        → parse req.body ≡ out
        → (p : Metrics Latency × Response J) × (handle_post J of_double second now latency
              calculate_entropy below draws shuffles max_batch parse req m res
            ≡ some p)
          × PostOutcome out max_batch m p
    unfolding handle_post catch_post send_error_response
    parsed (inl e) q =
        (catch_post J (json_exception e) m res, rw (handle_post, q) refl, (refl, refl))
    parsed (inr body) q = let (p, e, o) = post_body_lem body in (p, rw (handle_post, q) e, o)

    pub handle_post_lem :
        (p : Metrics Latency × Response J) × (handle_post J of_double second now latency
            calculate_entropy below draws shuffles max_batch parse req m res
          ≡ some p)
        × PostOutcome (parse req.body) max_batch m p
    handle_post_lem = parsed (parse req.body) refl
