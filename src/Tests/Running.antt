-- ===== src/Tests/Running.antt =====
-- The running server at small inputs: numbers stand for `double`, the first character of every
-- set is drawn, and nothing is shuffled.
use ip_server.Base.{
  ℕ, ◌*◌, ◌/◌, ◌+◌, ◌≤◌, ◌<◌, ◌≡◌, refl, ◌⊎◌, inr, true, List, [], ◌∷◌, some, arith, length, leb,
  All,
}
use ip_server.Base.Int.{pos}
use ip_server.Base.Text.{codes}
use ip_server.Base.Real.{Real, IsOrdered}
use ip_server.Metrics.{Metrics, new_metrics}
use ip_server.Metrics.Stats.{Stats, get_stats}
use ip_server.Metrics.Ranks.{IsRanked, get_stats-IsRanked}
use ip_server.Http.{Response, Server}
use ip_server.Http.Gate.Admission.{IsServing}
use ip_server.Http.Routes.{Env, System, Event, get, post, request, cleanup_round, run}
use ip_server.Http.Routes.Run.{HasStatus, requests, run_lem}
use ip_server.Tests.Values.{plain, text, number}
use ip_server.Tests.Requests.{server, server-IsServing, request as asked, digest, never, futures}

abbrev pub whole : Real
whole = record {
  Double = ℕ;
  of_nat = λ n. n;
  of_percent = λ n. n;
  add = λ x y. x + y;
  mul = λ x y. x * y;
  div = λ x y. x / y;
  trunc = λ x. x / 100;
  round = λ x. x;
  le = leb;
}

total : (x y : ℕ) → (leb x y ≡ true) ⊎ (leb y x ≡ true)
total x y = ground arith

trans : (x y z : ℕ) → leb x y ≡ true → leb y z ≡ true → leb x z ≡ true
trans x y z h k = ground (arith, h, k)

part : (c k : ℕ) → c ≤ 100 → c * k / 100 ≤ k
part c k h = grind arith

grows : (c d k : ℕ) → c ≤ d → c * k / 100 ≤ d * k / 100
grows c d k h = grind arith

pub whole-IsOrdered : IsOrdered whole
whole-IsOrdered = record { le_total = total; le_trans = trans; part_le = part; part_mono = grows }

abbrev pub env : Env ℕ
env = record {
  now = 1;
  later = 2;
  third = 3;
  done = 4;
  epoch = 5;
  latency = 6;
  clock = λ i. i;
  latencies = λ i. i;
  draws = λ j i n. 0;
  shuffles = λ j s. s;
}

abbrev pub sys : System plain whole (Unit {0})
sys = record {
  second = 1;
  parse = λ body. inr (text body);
  sha256 = digest;
  inet_pton = never;
  getaddrinfo = never;
  async = futures;
  of_double = λ x. number (pos x);
  calculate_entropy = λ l n. l;
  below = λ d n. true;
}

abbrev pub events : List (Event sys)
events =
    request get (codes "/health") env asked
    ∷ cleanup_round (λ i. i)
    ∷ request post (codes "/password/generate") env asked
    ∷ request get (codes "/nowhere") env asked
    ∷ []

run_lem_example :
    (s' : Server plain (Unit {0}) ℕ) × (responses : List (Response plain)) × (run sys events server
      ≡ some (s', responses))
    × IsServing s'
    × (length responses ≡ requests whole-IsOrdered sys events)
    × All HasStatus responses
run_lem_example =
    run_lem whole-IsOrdered sys events server
      (
        (λ j i n. omega arith, λ j s. (refl, λ pool w. w)),
        (
          tt,
          (
            (λ j i n. omega arith, λ j s. (refl, λ pool w. w)),
            ((λ j i n. omega arith, λ j s. (refl, λ pool w. w)), tt),
          ),
        ),
      )
      server-IsServing

abbrev measured : Metrics ℕ
measured = record (new_metrics 0) { latencies = 30 ∷ 10 ∷ 20 ∷ [] }

get_stats-IsRanked_example :
    (t : Stats whole) × (get_stats whole 1 9 measured ≡ some t)
    × (leb t.p50_latency_ms t.p95_latency_ms ≡ true)
    × (leb t.p95_latency_ms t.p99_latency_ms ≡ true)
    × (0 < length measured.latencies
        → IsRanked whole whole-IsOrdered 50 measured.latencies t.p50_latency_ms
          × IsRanked whole whole-IsOrdered 95 measured.latencies t.p95_latency_ms
          × IsRanked whole whole-IsOrdered 99 measured.latencies t.p99_latency_ms)
unfolding new_metrics
get_stats-IsRanked_example = get_stats-IsRanked whole whole-IsOrdered 1 9 measured
