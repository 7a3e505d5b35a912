-- ===== src/Http/Batch.antt =====
-- http_server.cpp, `handle_lookup_post`. The i-th lookup has the reading `clock i` and the
-- measured time `latency i`. What `std::async` makes of a list of queries, in any interleaving, is
-- a parameter: the services afterwards, and the outcome of each query in the order of the list.
pub mod Order
pub mod Answers
use ip_server.Base.{
  ℕ, suc, Bool, List, [], ◌∷◌, ◌++◌, Option, none, some, if◌then◌else◌, ◌>>=◌, ◌⊎◌, inl, inr,
  length, leb,
}
use ip_server.Base.Int.{ℤ, pos, ltb_ℤ}
use ip_server.Base.Text.{Str, codes}
use ip_server.Json.{Json}
use ip_server.Validation.{is_valid_ip_format, is_valid_mac_format}
use ip_server.Metrics.{Metrics, record_request, record_error}
use ip_server.Http.{
  Request, Response, Server, LookupHandler, Thrown, json_error, other_error, send_error_response,
  send_json_response, set_content,
}
use ip_server.Http.Gate.{prepare_request}

module _ (J : Json) where
  -- `body.contains(key) && body[key].is_array()`, with the elements.
  unfoldable pub array_member : Str → J.Value → Option (List J.Value)
  array_member key body = do o ← J.as_object body; v ← J.member key o; J.as_list v

  -- The loop of `process_batch`: the strings that pass the validator.
  unfoldable pub valid_queries : (Str → Bool) → List J.Value → List Str
  valid_queries validator [] = []
  valid_queries validator (item ∷ items) =
      let rest = valid_queries validator items in
      elim (J.as_str item) [ none ↦ rest | some s ↦ if validator s then s ∷ rest else rest ]

  -- `process_batch`: the handler and the queries, or the response that refuses the batch.
  unfoldable pub process_batch :
      {Services : Type 0}
      → ℤ
      → Option (LookupHandler J Services)
      → Str
      → (Str → Bool)
      → List J.Value
      → Response J
      → Response J ⊎ (LookupHandler J Services × List Str)
  process_batch max_batch_size none type validator items res = inl (
      send_error_response J 500 (codes "Internal Server Error")
        (type ++ codes " lookup handler not configured") res)
  process_batch max_batch_size (some h) type validator items res =
      let error = J.set_member (codes "requested_size") (J.of_int (pos (length items))) (
        J.set_member (codes "max_batch_size") (J.of_int max_batch_size) (
          J.set_member (codes "error") (J.of_str (codes "Batch size exceeds maximum limit"))
            J.no_members)) in
      if ltb_ℤ max_batch_size (pos (length items))
      then inl (send_json_response J (J.of_object error) 400 res)
      else inr (h, valid_queries validator items)

module _ (J : Json) {Latency : Type 0} (second : ℕ) (clock : ℕ → ℕ) (latency : ℕ → Latency) where
  -- The loop over the futures: it stops at an exception.
  unfoldable pub collect :
      ℕ → List (Thrown ⊎ J.Value) → Metrics Latency → Metrics Latency × (Thrown ⊎ List J.Value)
  collect i [] m = (m, inr [])
  collect i (inl e ∷ outcomes) m = (m, inl e)
  collect i (inr v ∷ outcomes) m =
      let (m', rest) = collect (suc i) outcomes (record_request second (clock i) (latency i) m) in
      (m', elim rest [ inl e ↦ inl e | inr vs ↦ inr (v ∷ vs) ])

  -- The loop of the first branch, from the i-th query on: it stops at an exception.
  unfoldable pub run_each :
      {Services : Type 0}
      → LookupHandler J Services
      → ℕ
      → List Str
      → Services
      → Metrics Latency
      → Services × Metrics Latency × (Thrown ⊎ List J.Value)
  run_each handler i [] w m = (w, m, inr [])
  run_each handler i (q ∷ qs) w m =
      let (w', outcome) = handler q w in
      let (w'', m'', rest) =
        run_each handler (suc i) qs w' (record_request second (clock i) (latency i) m) in
      elim outcome [
        | inl e ↦ (w', m, inl e)
        | inr v ↦ (w'', m'', elim rest [ inl e ↦ inl e | inr vs ↦ inr (v ∷ vs) ])
      ]

  module _ {Services : Type 0}
      (async : LookupHandler J Services
        → List Str
        → Services
        → Services × List (Thrown ⊎ J.Value)) where
    unfoldable pub run_batch :
        LookupHandler J Services
        → List Str
        → Services
        → Metrics Latency
        → Services × Metrics Latency × (Thrown ⊎ List J.Value)
    run_batch handler queries w m =
        if leb (length queries) 10
        then run_each handler 0 queries w m
        else (let (w', outcomes) = async handler queries w in
            let (m', rest) = collect 0 outcomes m in (w', m', rest))

    -- The two `catch` clauses.
    unfoldable pub caught :
        Thrown → Server J Services Latency → Response J → Server J Services Latency × Response J
    caught (json_error e) s res =
        (s, send_error_response J 400 (codes "Bad Request") (codes "Invalid JSON: " ++ e) res)
    caught (other_error e) s res = (
      record s { metrics = record_error s.metrics },
      send_error_response J 500 (codes "Internal Server Error") e res,
    )

    -- The end of the handler, or its `catch` clauses.
    unfoldable pub finish :
        Server J Services Latency
        → Response J
        → Services × Metrics Latency × (Thrown ⊎ List J.Value)
        → Server J Services Latency × Response J
    finish s res (w, m, inl e) = caught e (record s { services = w; metrics = m }) res
    finish s res (w, m, inr values) =
        (record s { services = w; metrics = m }, set_content J (J.of_list values) res)

    -- The part from the lookups on.
    unfoldable pub answer_batch :
        LookupHandler J Services
        → List Str
        → Server J Services Latency
        → Response J
        → Server J Services Latency × Response J
    answer_batch handler queries s res =
        finish s res (run_batch handler queries s.services s.metrics)

    unfoldable pub process_and_answer :
        Option (LookupHandler J Services)
        → Str
        → (Str → Bool)
        → List J.Value
        → Server J Services Latency
        → Response J
        → Server J Services Latency × Response J
    process_and_answer h type validator items s res =
        elim (process_batch J s.max_batch_size h type validator items res) [
          | inl refused ↦ (s, refused)
          | inr (handler, queries) ↦ answer_batch handler queries s res
        ]

    -- The part behind the parsing of the body.
    unfoldable pub lookup_body :
        (Str → Bool)
        → (Str → Bool)
        → J.Value
        → Server J Services Latency
        → Response J
        → Server J Services Latency × Response J
    lookup_body inet_pton getaddrinfo body s res = elim (array_member J (codes "ips") body) [
      | none ↦ elim (array_member J (codes "macs") body) [
        | none ↦ (
          s,
          send_error_response J 400 (codes "Bad Request")
              (codes "Missing or invalid 'ips' or 'macs' array in request body") res,
        )
        | some macs ↦
            process_and_answer s.mac_lookup_handler (codes "MAC") is_valid_mac_format macs s res
      ]
      | some ips ↦ elim (array_member J (codes "macs") body) [
        | none ↦
            process_and_answer s.lookup_handler (codes "IP")
              (is_valid_ip_format inet_pton getaddrinfo) ips s res
        | some _ ↦ (
          s,
          send_error_response J 400 (codes "Bad Request")
              (codes "Cannot specify both 'ips' and 'macs' in the same request") res,
        )
      ]
    ]

    unfoldable pub handle_lookup_post :
        (Str → Thrown ⊎ J.Value)
        → (Str → List ℕ)
        → (Str → Bool)
        → (Str → Bool)
        → (now later third : ℕ) → Request
        → Server J Services Latency
        → Response J
        → Option (Server J Services Latency × Response J)
    handle_lookup_post parse sha256 inet_pton getaddrinfo now later third req s res = do
      (s', res', client_ip) ← prepare_request J sha256 now later third req s res
      some (elim client_ip [
        | none ↦ (s', res')
        | some _ ↦ elim (parse req.body) [
          | inl e ↦ caught e s' res'
          | inr body ↦ lookup_body inet_pton getaddrinfo body s' res'
        ]
      ])
