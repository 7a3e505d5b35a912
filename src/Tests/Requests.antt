-- ===== src/Tests/Requests.antt =====
-- The server, the metrics and the configuration at small inputs. The handler answers a query with
-- the query; the digest of a text is the text itself; a second has one tick.
use ip_server.Base.{
  if◌then◌else◌, ℕ, ◌*◌, ◌%◌, ◌≡◌, refl, ◌↔◌, ◌⊎◌, inr, Bool, true, false, List, [], ◌∷◌, none,
  some, arith, length, map,
}
use ip_server.Base.Int.{size_mod}
use ip_server.Base.Text.{Str, codes, starts_with}
use ip_server.Base.Trim.{trim}
use ip_server.Metrics.{new_metrics, max_latencies}
use ip_server.Metrics.History.{run, last_of, last_reading, times, measured, record_request_lem}
use ip_server.RateLimiter.Window.{recent}
use ip_server.Config.{ServerConfig, default_config}
use ip_server.Config.Validate.{validate, then_check, check_range, check_rotation, check_logging}
use ip_server.Config.Validate.Limits.{WithinLimits, validate_lem}
use ip_server.Http.{Request, Response, Server, LookupHandler, Thrown, new_server}
use ip_server.Http.Setup.{new_server-IsServing}
use ip_server.Http.Gate.{get_real_client_ip, first_forwarded, authenticate_request}
use ip_server.Http.Gate.Authentication.{Checked, MayPass, authenticate_request_lem}
use ip_server.Http.Gate.Admission.{IsServing}
use ip_server.Http.Lookup.Answers.{IsHandled, handle_lookup_get_lem}
use ip_server.Http.Batch.{answer_batch}
use ip_server.Http.Batch.Order.{recorded, answer_batch_lem}
use ip_server.Tests.Values.{plain, Plain, text}

program : Unit {0}
unfolding trim first_forwarded get_real_client_ip default_config then_check check_range
    check_rotation check_logging validate
program = tt

abbrev pub digest : Str → List ℕ
digest s = s

abbrev pub never : Str → Bool
never s = false

abbrev pub config : ServerConfig
config = record default_config { enable_api_auth = true; default_api_key = codes "k" }

pub passes : validate config ≡ none
unfolding program
passes = refl

abbrev pub echo : LookupHandler plain (Unit {0})
echo q w = (w, inr (text q))

abbrev pub server : Server plain (Unit {0}) ℕ
server = record (new_server digest none 1 0 config tt) { lookup_handler = some echo }

abbrev pub request : Request
request = record {
  header_value =
      λ k. if starts_with k (codes "X-F") then codes " 1.2.3.4 , 5.6.7.8" else codes "Bearer k";
  param_value = λ k. [];
  remote_addr = codes "9.9.9.9";
  body = [];
}

abbrev pub response : Response plain
response = record { status = none; headers = []; content = none }

client : get_real_client_ip request ≡ codes "1.2.3.4"
unfolding program
client = refl

pub server-IsServing : IsServing server
unfolding new_server
server-IsServing = new_server-IsServing plain ℕ digest none 1 0 config tt passes

validate_lem_example : (validate config ≡ none) ↔ WithinLimits config
validate_lem_example = validate_lem config

authenticate_request_lem_example :
    Checked plain digest response
      (authenticate_request plain digest request server response)
      (MayPass plain digest request server)
authenticate_request_lem_example = authenticate_request_lem plain digest request server response

handle_lookup_get_lem_example : IsHandled 1 never never 4 5 digest 1 2 3 request server response
handle_lookup_get_lem_example =
    handle_lookup_get_lem 1 never never 4 5 digest 1 2 3 request server response server-IsServing

abbrev pub futures :
    LookupHandler plain (Unit {0}) → List Str → Unit {0} → Unit {0} × List (Thrown ⊎ Plain)
futures h [] w = (w, [])
futures h (q ∷ qs) w = ((futures h qs w).0, (h q w).1 ∷ (futures h qs w).1)

futures-IsAsync :
    (qs : List Str) (w : Unit {0}) → (futures echo qs w).1 ≡ map (λ q. inr (text q)) qs
futures-IsAsync [] w = refl
futures-IsAsync (q ∷ qs) w = cc (futures-IsAsync qs w)

answer_batch_lem_example :
    let (s', res') =
      answer_batch plain 1
        (λ i. i)
        (λ i. i)
        futures
        echo
        (codes "a" ∷ codes "b" ∷ [])
        server
        response in
    (res'.content ≡ some (plain.of_list (map text (codes "a" ∷ codes "b" ∷ []))))
    × (res'.status ≡ none)
    × (s'.metrics
        ≡ recorded plain 1
            (λ i. i)
            (λ i. i)
            echo
            text
            0
            (codes "a" ∷ codes "b" ∷ [])
            server.metrics)
answer_batch_lem_example =
    answer_batch_lem plain 1 (λ i. i) (λ i. i) echo text (λ q w. refl) futures futures-IsAsync
      (codes "a" ∷ codes "b" ∷ []) server response

abbrev calls : List (ℕ × ℕ)
calls = (1, 20) ∷ (70, 30) ∷ []

record_request_lem_example :
    let m = run 1 (new_metrics 0) calls in
    (m.total_requests ≡ length (measured 1 calls) % size_mod)
    × (m.latencies ≡ last_of max_latencies (measured 1 calls))
    × (m.request_timestamps ≡ recent (60 * 1) (last_reading 1 0 calls) (times 1 calls))
record_request_lem_example = record_request_lem 1 0 calls (omega arith, (omega arith, tt))
