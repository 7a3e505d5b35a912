-- ===== src/Http/Batch/Order.antt =====
-- http_server.cpp, `handle_lookup_post`: the queries of a batch, and the order of its results.
use ip_server.Base.{
  ℕ, suc, ◌≤◌, ◌≡◌, refl, sym, subst, ◌⊎◌, inl, inr, Bool, true, List, [], ◌∷◌, Option, none, some,
  arith, Bool-cases, Option-cases, length, leb, All, map,
}
use ip_server.Base.Int.{ℤ, pos, ltb_ℤ, ◌≤ℤ◌}
use ip_server.Base.Text.{Str}
use ip_server.Json.{Json}
use ip_server.Metrics.{Metrics, record_request}
use ip_server.Http.{
  Response, Server, LookupHandler, Thrown, set_content, send_error_response, send_json_response,
}
use ip_server.Http.Batch.{
  valid_queries, process_batch, collect, run_each, run_batch, answer_batch, finish,
}

module _ (J : Json) where
  -- The queries of a batch pass the validator, and there are no more than items.
  valid_queries_lem :
      (validator : Str → Bool) (items : List J.Value)
      → All (λ q. validator q ≡ true) (valid_queries J validator items)
        × (length (valid_queries J validator items) ≤ length items)
  unfolding valid_queries
  valid_queries_lem validator [] = (tt, omega arith)
  valid_queries_lem validator (item ∷ items) =
      let (a, n) = valid_queries_lem validator items in
      let rest = valid_queries J validator items in
      let Fine =
        λ (qs : List Str). All (λ q. validator q ≡ true) qs × (length qs ≤ suc (length items)) in
      elim (Option-cases (J.as_str item)) [
        | inl e ↦
            let step : valid_queries J validator (item ∷ items) ≡ rest =
              rw (e, valid_queries) refl in
            subst Fine (sym step) (a, omega (arith, n))
        | inr (q, e) ↦ elim (Bool-cases (validator q)) [
          | inl v ↦
              let step : valid_queries J validator (item ∷ items) ≡ q ∷ rest =
                rw (e, v, valid_queries) refl in
              subst Fine (sym step) ((v, a), omega (arith, n))
          | inr v ↦
              let step : valid_queries J validator (item ∷ items) ≡ rest =
                rw (e, v, valid_queries) refl in
              subst Fine (sym step) (a, omega (arith, n))
        ]
      ]

  -- A batch is accepted only if a handler is set and the batch is within the limit; its queries
  -- then pass the validator and are no more than the limit. It is refused otherwise, with 400 or
  -- 500.
  abbrev pub Accepted :
      {Services : Type 0}
      → ℤ
      → Option (LookupHandler J Services)
      → (Str → Bool)
      → List J.Value
      → Response J ⊎ (LookupHandler J Services × List Str)
      → Type 0
  Accepted max_batch_size handler validator items (inl res') =
      ((handler ≡ none) × (res'.status ≡ some 500))
      ⊎ ((ltb_ℤ max_batch_size (pos (length items)) ≡ true) × (res'.status ≡ some 400))
  Accepted max_batch_size handler validator items (inr (h, queries)) =
      (handler ≡ some h)
      × (pos (length items) ≤ℤ max_batch_size)
      × All (λ q. validator q ≡ true) queries
      × (pos (length queries) ≤ℤ max_batch_size)

  pub process_batch_lem :
      {Services : Type 0} (max_batch_size : ℤ) (handler : Option (LookupHandler J Services))
      (type : Str) (validator : Str → Bool) (items : List J.Value) (res : Response J)
      → Accepted max_batch_size handler validator items
          (process_batch J max_batch_size handler type validator items res)
  unfolding process_batch send_error_response send_json_response
  process_batch_lem max_batch_size none type validator items res = inl (refl, refl)
  process_batch_lem max_batch_size (some h) type validator items res =
      let (a, n) = valid_queries_lem validator items in
      elim (Bool-cases (ltb_ℤ max_batch_size (pos (length items)))) [
        | inl b ↦ rw b (inr (b, refl))
        | inr b ↦
            let k : pos (length items) ≤ℤ max_batch_size = ground (arith, b) in
            rw b (refl, k, a, omega (arith, k, n))
      ]

module _ (J : Json) {Services Latency : Type 0} (second : ℕ) (clock : ℕ → ℕ) (latency : ℕ → Latency)
    (handler : LookupHandler J Services) (answer : Str → J.Value) where
  -- The handler answers each query with the same value, whatever the state of the services.
  abbrev pub AnswersAs : Type 0
  AnswersAs = (q : Str) (w : Services) → (handler q w).1 ≡ inr (answer q)

  -- The metrics after the recording of `n` requests, from the i-th on.
  abbrev pub recorded : ℕ → List Str → Metrics Latency → Metrics Latency
  recorded i [] m = m
  recorded i (q ∷ qs) m = recorded (suc i) qs (record_request second (clock i) (latency i) m)

  module _ (pure : AnswersAs) where
    run_each_lem :
        (i : ℕ) (qs : List Str) (w : Services) (m : Metrics Latency)
        → (w' : Services) × (run_each J second clock latency handler i qs w m
            ≡ (w', recorded i qs m, inr (map answer qs)))
    unfolding run_each
    run_each_lem i [] w m = (w, refl)
    run_each_lem i (q ∷ qs) w m =
        let (w', e) =
          run_each_lem (suc i) qs (handler q w).0 (record_request second (clock i) (latency i) m) in
        (w', rw (pure q w, run_each) (rw e refl))

    collect_lem :
        (i : ℕ) (qs : List Str) (m : Metrics Latency)
        → collect J second clock latency i (map (λ q. inr (answer q)) qs) m
          ≡ (recorded i qs m, inr (map answer qs))
    unfolding collect
    collect_lem i [] m = refl
    collect_lem i (q ∷ qs) m =
        rw (collect_lem (suc i) qs (record_request second (clock i) (latency i) m)) refl

    module _
        (async : LookupHandler J Services
          → List Str
          → Services
          → Services × List (Thrown ⊎ J.Value)) where
      -- The futures have the outcomes of their tasks.
      abbrev pub IsAsync : Type 0
      IsAsync =
          (qs : List Str) (w : Services) → (async handler qs w).1 ≡ map (λ q. inr (answer q)) qs

      -- A batch has one result for each query, in the order of the queries, and one recorded
      -- request for each, whether it is looked up one after the other or concurrently.
      pub answer_batch_lem :
          IsAsync
          → (qs : List Str) (s : Server J Services Latency) (res : Response J)
          → let (s', res') = answer_batch J second clock latency async handler qs s res in
            (res'.content ≡ some (J.of_list (map answer qs)))
            × (res'.status ≡ res.status)
            × (s'.metrics ≡ recorded 0 qs s.metrics)
      unfolding answer_batch run_batch set_content finish
      answer_batch_lem a qs s res = elim (Bool-cases (leb (length qs) 10)) [
        | inl b ↦
            let (w', e) = run_each_lem 0 qs s.services s.metrics in
            rw (b, answer_batch, run_batch, e) (refl, refl, refl)
        | inr b ↦
            rw (b, answer_batch, run_batch, a qs s.services, collect_lem 0 qs s.metrics)
              (refl, refl, refl)
      ]
