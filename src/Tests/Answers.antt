-- ===== src/Tests/Answers.antt =====
-- The password handlers at small inputs.
use ip_server.Base.{ℕ, ◌≡◌, refl, true, [], some, if◌then◌else◌, arith, length}
use ip_server.Base.Int.{pos}
use ip_server.Base.Text.{codes, str_eq}
use ip_server.Base.Decimal.{to_string, stoi, number, fails, out_of_range, invalid}
use ip_server.Metrics.{Metrics, record_request}
use ip_server.Http.{Request, Response}
use ip_server.Password.{PasswordResult}
use ip_server.PasswordHandler.{handle_get, result_json, flag_params, parse_bool_param}
use ip_server.PasswordHandler.Get.{GetOutcome, handle_get_lem, handle_get-to_string}
use ip_server.Tests.Values.{plain, Plain, number as number_value}
use ip_server.Tests.Requests.{response}

abbrev of_double : ℕ → Plain
of_double n = number_value (pos n)

abbrev first : ℕ → ℕ → ℕ
first i n = 0

-- A request with a length, and nothing else.
abbrev long : Request
long = record {
  header_value = λ k. [];
  param_value = λ k. if str_eq k (codes "length") then codes "24" else [];
  remote_addr = [];
  body = [];
}

reads :
    (stoi (codes " +24x") ≡ number (pos 24))
    × (stoi (codes "99999999999") ≡ fails out_of_range)
    × (stoi (codes "x") ≡ fails invalid)
unfolding stoi
reads = (refl, refl, refl)

abbrev metrics : Metrics ℕ
metrics = record {
  total_requests = 0;
  total_errors = 0;
  latencies = [];
  request_timestamps = [];
  start_time = 0;
}

handle_get_lem_example :
    (p : Metrics ℕ × Response plain) × (handle_get plain of_double 1 2 3
        (λ l n. l)
        (λ d n. true)
        first
        (λ s. s)
        long
        metrics
        response
      ≡ some p)
    × GetOutcome plain of_double 1 2 3 (λ l n. l) (λ d n. true) long metrics p
handle_get_lem_example =
    handle_get_lem plain of_double 1 2 3 (λ l n. l) (λ d n. true) first (λ i n. omega arith)
      (λ s. s) (λ s. (refl, λ pool w. w)) long metrics response

handle_get-to_string_example :
    (r : PasswordResult ℕ) × (m' : Metrics ℕ) × (res' : Response plain) × (handle_get plain
        of_double 1 2 3
        (λ l n. l)
        (λ d n. true)
        first
        (λ s. s)
        long
        metrics
        response
      ≡ some (m', res'))
    × (length r.password ≡ 24)
    × (res'.status ≡ some 200)
    × (res'.content ≡ some (result_json plain of_double r))
    × (m' ≡ record_request 1 2 3 metrics)
unfolding to_string flag_params parse_bool_param
handle_get-to_string_example =
    handle_get-to_string plain of_double 1 2 3 (λ l n. l) (λ d n. true) first (λ i n. omega arith)
      (λ s. s) (λ s. (refl, λ pool w. w)) long metrics response 24 (omega arith) (omega arith) refl
      refl
