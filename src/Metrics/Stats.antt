-- ===== src/Metrics/Stats.antt =====
-- metrics.cpp: the statistics. `second` is the number of ticks in a second; the readings of a
-- queue do not fall, so the duration is not negative. An index out of range is undefined
-- behaviour, `none`.
use ip_server.Base.{
  ℕ, ◌-◌, ◌*◌, ◌/◌, List, [], ◌∷◌, Option, some, if◌then◌else◌, ◌>>=◌, length, get_elem?, ltb, ◌==◌,
}
use ip_server.Base.Real.{Real}
use ip_server.Metrics.{Metrics}

module _ (R : Real) where
  pub record Stats : Type 0 where
    pub total_requests : ℕ
    pub total_errors : ℕ
    pub error_rate : R.Double
    pub current_qps : R.Double
    pub avg_latency_ms : R.Double
    pub p50_latency_ms : R.Double
    pub p95_latency_ms : R.Double
    pub p99_latency_ms : R.Double
    pub uptime_seconds : ℕ

  -- `std::ranges::sort`.
  unfoldable pub insert : R.Double → List R.Double → List R.Double
  insert x [] = x ∷ []
  insert x (y ∷ ys) = let rest = insert x ys in if R.le x y then x ∷ y ∷ ys else y ∷ rest

  unfoldable pub sort : List R.Double → List R.Double
  sort [] = []
  sort (x ∷ xs) = insert x (sort xs)

  -- The percentile of a number of hundredths.
  unfoldable pub calculate_percentile : ℕ → List R.Double → Option R.Double
  calculate_percentile percent [] = some (R.of_nat 0)
  calculate_percentile percent (x ∷ xs) =
      let sorted = sort (x ∷ xs) in
      get_elem? sorted (R.trunc (R.mul (R.of_percent percent) (R.of_nat (length sorted - 1))))

  -- `std::accumulate` from `acc`.
  unfoldable pub accumulate : R.Double → List R.Double → R.Double
  accumulate acc [] = acc
  accumulate acc (x ∷ xs) = accumulate (R.add acc x) xs

  unfoldable pub average : List R.Double → R.Double
  average [] = R.of_nat 0
  average (x ∷ xs) = R.div (accumulate (R.of_nat 0) (x ∷ xs)) (R.of_nat (length (x ∷ xs)))

  unfoldable pub last_or : ℕ → List ℕ → ℕ
  last_or t [] = t
  last_or t (u ∷ us) = last_or u us

  unfoldable pub calculate_qps : ℕ → List ℕ → R.Double
  calculate_qps second [] = R.of_nat 0
  calculate_qps second (t ∷ ts) =
      let duration = (last_or t ts - t) * 1000 / second in
      if ltb (length (t ∷ ts)) 2
      then R.of_nat 0
      else if duration == 0
      then R.of_nat 0
      else R.mul (R.div (R.of_nat (length (t ∷ ts) - 1)) (R.of_nat duration)) (R.of_nat 1000)

  unfoldable pub error_rate : ℕ → ℕ → R.Double
  error_rate errors requests =
      if ltb 0 requests
      then R.mul (R.div (R.of_nat errors) (R.of_nat requests)) (R.of_nat 100)
      else R.of_nat 0

  -- The members, with the percentiles of the block under the lock.
  unfoldable pub fill_stats : ℕ → ℕ → Metrics R.Double → (p50 p95 p99 : R.Double) → Stats
  fill_stats second now m p50 p95 p99 = record {
    total_requests = m.total_requests;
    total_errors = m.total_errors;
    error_rate = error_rate m.total_errors m.total_requests;
    current_qps = calculate_qps second m.request_timestamps;
    avg_latency_ms = average m.latencies;
    p50_latency_ms = p50;
    p95_latency_ms = p95;
    p99_latency_ms = p99;
    uptime_seconds = (now - m.start_time) / second;
  }

  unfoldable pub get_stats : ℕ → ℕ → Metrics R.Double → Option Stats
  get_stats second now m = do
    p50 ← calculate_percentile 50 m.latencies
    p95 ← calculate_percentile 95 m.latencies
    p99 ← calculate_percentile 99 m.latencies
    some (fill_stats second now m p50 p95 p99)
