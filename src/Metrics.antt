-- ===== src/Metrics.antt =====
-- src/metrics.cpp, `Metrics`: the counters and the two bounded queues. A latency is a value of a
-- parameter type; a call takes its reading of the steady clock, in ticks, and the number `second`
-- of ticks in a second.
pub mod History
pub mod Stats
pub mod Percentile
pub mod Ranks
use ip_server.Base.{ℕ, suc, ◌+◌, ◌*◌, ◌%◌, List, [], ◌∷◌, ◌++◌, length, drop, ltb, if◌then◌else◌}
use ip_server.Base.Int.{size_mod}

abbrev pub max_latencies : ℕ
max_latencies = 1000

pub record Metrics (Latency : Type 0) : Type 0 where
  pub total_requests : ℕ
  pub total_errors : ℕ
  pub latencies : List Latency
  pub request_timestamps : List ℕ
  pub start_time : ℕ

-- The constructor, with its reading of the clock.
unfoldable pub new_metrics : {Latency : Type 0} → ℕ → Metrics Latency
new_metrics now = record {
  total_requests = 0;
  total_errors = 0;
  latencies = [];
  request_timestamps = [];
  start_time = now;
}

-- The loop of `record_request`: `front() < now - 60 s`.
unfoldable pub pop_before : ℕ → ℕ → List ℕ → List ℕ
pop_before window now [] = []
pop_before window now (t ∷ ts) = if ltb (t + window) now then pop_before window now ts else t ∷ ts

module _ {Latency : Type 0} where
  -- `push_back`, and `pop_front` beyond the bound.
  unfoldable pub push_latency : Latency → List Latency → List Latency
  push_latency latency latencies =
      let longer = latencies ++ latency ∷ [] in
      if ltb max_latencies (length longer) then drop 1 longer else longer

  unfoldable pub record_request : ℕ → ℕ → Latency → Metrics Latency → Metrics Latency
  record_request second now latency m = record m {
    total_requests = (m.total_requests + 1) % size_mod;
    latencies = push_latency latency m.latencies;
    request_timestamps = pop_before (60 * second) now (m.request_timestamps ++ now ∷ []);
  }

  unfoldable pub record_error : Metrics Latency → Metrics Latency
  record_error m = record m { total_errors = (m.total_errors + 1) % size_mod }
