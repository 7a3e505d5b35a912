-- ===== src/Metrics/History.antt =====
-- metrics.cpp: what the queues hold after a sequence of requests.
use mathlib.Core.List.{append_assoc, append-nil}
use ip_server.Base.{
  All, ◌%◌, ◌*◌, subst, All-append, ltb→lt, ℕ, zero, suc, ◌-◌, ◌≤◌, ◌≡◌, refl, ap, sym, ◌∙◌, inl,
  inr, List, [], ◌∷◌, ◌++◌, arith, ltb, length, length-append, drop, Bool-cases,
}
use ip_server.Metrics.{
  size_mod, record_request, new_metrics, pop_before, Metrics, max_latencies, push_latency,
}
use ip_server.RateLimiter.{pop_old}
use ip_server.RateLimiter.Window.{
  Sorted, recent, pop_old-recent, pop_old_later, pop_old-append, Sorted-snoc, All-le_trans,
}

module _ {Latency : Type 0} where
  -- The last `n` elements.
  abbrev pub last_of : ℕ → List Latency → List Latency
  last_of n xs = drop (length xs - n) xs

  drop-length-append :
      (xs ys : List Latency) (k : ℕ) → k ≤ length xs → drop k (xs ++ ys) ≡ drop k xs ++ ys
  drop-length-append xs ys zero h = refl
  drop-length-append [] ys (suc k) h = absurd (omega (arith, h))
  drop-length-append (x ∷ xs) ys (suc k) h = drop-length-append xs ys k (omega (arith, h))

  drop-suc : (k : ℕ) (xs : List Latency) → drop 1 (drop k xs) ≡ drop (suc k) xs
  drop-suc zero xs = refl
  drop-suc (suc k) [] = refl
  drop-suc (suc k) (x ∷ xs) = drop-suc k xs

  length-drop : (k : ℕ) (xs : List Latency) → length (drop k xs) ≡ length xs - k
  length-drop zero xs = omega arith
  length-drop (suc k) [] = omega arith
  length-drop (suc k) (x ∷ xs) = omega (arith, length-drop k xs)

  push_latency-last_of :
      (x : Latency) (xs : List Latency)
      → push_latency x (last_of max_latencies xs) ≡ last_of max_latencies (xs ++ x ∷ [])
  unfolding push_latency
  push_latency-last_of x xs =
      let ys = xs ++ x ∷ [] in
      let d = length xs - max_latencies in
      let more = length-append xs (x ∷ []) in
      let size = length-drop d ys in
      rw (sym (drop-length-append xs (x ∷ []) d (omega arith)))
        (elim (Bool-cases (ltb max_latencies (length (drop d ys)))) [
          | inl h ↦
              let k : suc d ≡ length ys - max_latencies =
                omega (arith, more, size, ltb→lt max_latencies (length (drop d ys)) h) in
              rw h (drop-suc d ys ∙ ap (λ k. drop k ys) k)
          | inr h ↦
              let k : d ≡ length ys - max_latencies = ground (arith, more, size, h) in
              rw h (ap (λ k. drop k ys) k)
        ])

pop_before-pop_old : (w now : ℕ) (ts : List ℕ) → pop_before w now ts ≡ pop_old w now ts
unfolding pop_before pop_old
pop_before-pop_old w now [] = refl
pop_before-pop_old w now (t ∷ ts) = ground (arith, pop_before-pop_old w now ts)

module _ {Latency : Type 0} (second : ℕ) where
  -- A sequence of requests, each with its reading and its latency.
  abbrev pub run : Metrics Latency → List (ℕ × Latency) → Metrics Latency
  run m [] = m
  run m ((now, x) ∷ calls) = run (record_request second now x m) calls

  -- The readings do not fall, from `last` on.
  abbrev pub Rising : ℕ → List (ℕ × Latency) → Type 0
  Rising last [] = Unit {0}
  Rising last ((now, x) ∷ calls) = last ≤ now × Rising now calls

  abbrev pub last_reading : ℕ → List (ℕ × Latency) → ℕ
  last_reading last [] = last
  last_reading last ((now, x) ∷ calls) = last_reading now calls

  abbrev pub times : List (ℕ × Latency) → List ℕ
  times [] = []
  times ((now, x) ∷ calls) = now ∷ times calls

  abbrev pub measured : List (ℕ × Latency) → List Latency
  measured [] = []
  measured ((now, x) ∷ calls) = x ∷ measured calls

  -- `m` after the readings `ts` and the latencies `xs`, the last reading at `last`.
  abbrev Holds : ℕ → List ℕ → List Latency → Metrics Latency → Type 0
  Holds last ts xs m =
      (m.total_requests ≡ length xs % size_mod)
      × (m.latencies ≡ last_of max_latencies xs)
      × (m.request_timestamps ≡ pop_old (60 * second) last ts)
      × Sorted ts
      × All (λ t. t ≤ last) ts

  record_request-Holds :
      (last now : ℕ) (x : Latency) (ts : List ℕ) (xs : List Latency) (m : Metrics Latency)
      → Holds last ts xs m
      → last ≤ now
      → Holds now (ts ++ now ∷ []) (xs ++ x ∷ []) (record_request second now x m)
  unfolding record_request
  record_request-Holds last now x ts xs m (n, l, r, s, a) h =
      let w = 60 * second in
      let older = All-le_trans ts last now h a in
      (
        omega (arith, n, length-append xs (x ∷ [])),
        ap (push_latency x) l ∙ push_latency-last_of x xs,
        pop_before-pop_old w now (m.request_timestamps ++ now ∷ [])
            ∙ ap (λ q. pop_old w now (q ++ now ∷ [])) r
            ∙ pop_old-append w now (pop_old w last ts) ts (now ∷ [])
                (pop_old_later w last now ts h),
        Sorted-snoc ts now s older,
        All-append (λ t. t ≤ now) ts (now ∷ []) older (omega arith, tt),
      )

  run-Holds :
      (last : ℕ) (ts : List ℕ) (xs : List Latency) (calls : List (ℕ × Latency))
      (m : Metrics Latency)
      → Holds last ts xs m
      → Rising last calls
      → Holds (last_reading last calls) (ts ++ times calls) (xs ++ measured calls) (run m calls)
  run-Holds last ts xs [] m h r =
      subst (λ us. Holds last us (xs ++ []) m) (sym (append-nil ts))
        (subst (λ ys. Holds last ts ys m) (sym (append-nil xs)) h)
  run-Holds last ts xs ((now, x) ∷ calls) m h (a, r) =
      let next =
        run-Holds now (ts ++ now ∷ []) (xs ++ x ∷ []) calls (record_request second now x m)
          (record_request-Holds last now x ts xs m h a) r in
      let end = last_reading now calls in
      let m' = run (record_request second now x m) calls in
      subst (λ us. Holds end us (xs ++ x ∷ measured calls) m')
        (append_assoc ts (now ∷ []) (times calls))
        (subst (λ ys. Holds end ((ts ++ now ∷ []) ++ times calls) ys m')
          (append_assoc xs (x ∷ []) (measured calls)) next)

  -- After any sequence of requests with readings that do not fall, the number of requests is
  -- right modulo 2^64, and the queues hold the last thousand latencies and the readings of the
  -- last minute, in order.
  pub record_request_lem :
      (start : ℕ) (calls : List (ℕ × Latency))
      → Rising 0 calls
      → let m = run (new_metrics start) calls in
        (m.total_requests ≡ length (measured calls) % size_mod)
        × (m.latencies ≡ last_of max_latencies (measured calls))
        × (m.request_timestamps ≡ recent (60 * second) (last_reading 0 calls) (times calls))
  unfolding new_metrics pop_old
  record_request_lem start calls r =
      let h = run-Holds 0 [] [] calls (new_metrics start) (refl, refl, refl, tt, tt) r in
      (h.0, h.1, h.2 ∙ pop_old-recent (60 * second) (last_reading 0 calls) (times calls) h.3)
