-- ===== src/PasswordHandler.antt =====
-- src/password_handler.cpp. The random numbers, the shuffles and the entropy are the parameters of
-- the generator; `of_double` is the JSON value of a floating-point number, and `parse` gives a
-- value or the text of an exception of the JSON library.
pub mod Get
pub mod Post
use ip_server.Base.{
  ℕ, Bool, true, false, List, map, ◌++◌, Option, none, some, if◌then◌else◌, ◌>>=◌, ◌⊎◌, inl, inr,
  length,
}
use ip_server.Base.Int.{ℤ, pos, ltb_ℤ, to_int}
use ip_server.Base.Text.{Str, codes, empty}
use ip_server.Base.Decimal.{Failed, invalid, out_of_range, Stoi, number, fails, stoi, to_string}
use ip_server.Json.{Json}
use ip_server.Validation.{parse_bool_string}
use ip_server.Metrics.{Metrics, record_request, record_error}
use ip_server.Config.Stored.{as_int32}
use ip_server.Http.{Request, Response, send_error_response, send_json_response}
use ip_server.Password.{PasswordConfig, PasswordResult, generate, generate_batch}

-- An exception that is caught: by the JSON library's type, by `invalid_argument`, or by
-- `std::exception`.
pub data Exception : Type 0 where
  json_exception : Str → Exception
  invalid_argument : Str → Exception
  other_exception : Str → Exception

unfoldable pub default_password : PasswordConfig
default_password = record {
  length = pos 16;
  uppercase = true;
  lowercase = true;
  digits = true;
  symbols = true;
  exclude_similar = true;
}

unfoldable pub parse_bool_param : Request → Str → Bool → Bool
parse_bool_param req key default =
    let val = req.param_value key in if empty val then default else parse_bool_string val

-- The exceptions of `std::stoi` have its name as their text.
unfoldable pub stoi_value : Stoi → Exception ⊎ ℤ
stoi_value (number n) = inr n
stoi_value (fails invalid) = inl (invalid_argument (codes "stoi"))
stoi_value (fails out_of_range) = inl (other_exception (codes "stoi"))

-- `config.length_` behind the parameter `length`.
unfoldable pub length_param : Request → Exception ⊎ ℤ
length_param req =
    let val = req.param_value (codes "length") in
    if empty val then inr (pos 16) else stoi_value (stoi val)

unfoldable pub flag_params : Request → ℤ → PasswordConfig
flag_params req n = record {
  length = n;
  uppercase = parse_bool_param req (codes "uppercase") true;
  lowercase = parse_bool_param req (codes "lowercase") true;
  digits = parse_bool_param req (codes "digits") true;
  symbols = parse_bool_param req (codes "symbols") true;
  exclude_similar = parse_bool_param req (codes "exclude_similar") true;
}

module _ (J : Json) where
  -- `readBool` and `readInt`: a member of the right type, or the field as it was.
  unfoldable pub bool_member : J.Value → Str → Bool → Bool
  bool_member body key field = elim (do o ← J.as_object body; v ← J.member key o; J.as_bool v) [
    | none ↦ field
    | some b ↦ b
  ]

  unfoldable pub int_member : J.Value → Str → ℤ → ℤ
  int_member body key field = elim (do o ← J.as_object body; v ← J.member key o; J.as_int v) [
    | none ↦ field
    | some n ↦ as_int32 n
  ]

  unfoldable pub body_config : J.Value → PasswordConfig
  body_config body =
      let c = default_password in
      record {
        length = int_member body (codes "length") c.length;
        uppercase = bool_member body (codes "uppercase") c.uppercase;
        lowercase = bool_member body (codes "lowercase") c.lowercase;
        digits = bool_member body (codes "digits") c.digits;
        symbols = bool_member body (codes "symbols") c.symbols;
        exclude_similar = bool_member body (codes "exclude_similar") c.exclude_similar;
      }

  module _ {Latency : Type 0} where
    -- The `catch` clauses of `handle_get`.
    unfoldable pub catch_get :
        Exception → Metrics Latency → Response J → Metrics Latency × Response J
    catch_get (invalid_argument e) m res = (
      m,
      send_error_response J 400 (codes "Bad Request") (codes "Invalid parameter value: " ++ e) res,
    )
    catch_get (json_exception e) m res =
        (record_error m, send_error_response J 500 (codes "Internal Server Error") e res)
    catch_get (other_exception e) m res =
        (record_error m, send_error_response J 500 (codes "Internal Server Error") e res)

    -- Those of `handle_post`.
    unfoldable pub catch_post :
        Exception → Metrics Latency → Response J → Metrics Latency × Response J
    catch_post (json_exception e) m res =
        (m, send_error_response J 400 (codes "Bad Request") (codes "Invalid JSON: " ++ e) res)
    catch_post (invalid_argument e) m res =
        (m, send_error_response J 400 (codes "Bad Request") e res)
    catch_post (other_exception e) m res =
        (record_error m, send_error_response J 500 (codes "Internal Server Error") e res)

  module _ {Double : Type 0} (of_double : Double → J.Value) where
    unfoldable pub result_json : PasswordResult Double → J.Value
    result_json r = J.of_object (
        J.set_member (codes "strength") (J.of_str r.strength) (
          J.set_member (codes "entropy") (of_double r.entropy) (
            J.set_member (codes "length") (J.of_int (to_int r.length))
              (J.set_member (codes "password") (J.of_str r.password) J.no_members))))

    unfoldable pub batch_json : List (PasswordResult Double) → J.Value
    batch_json results = J.of_object (
        J.set_member (codes "passwords") (J.of_list (map result_json results))
          (J.set_member (codes "count") (J.of_int (to_int (length results))) J.no_members))

    module _ {Latency : Type 0} (second now : ℕ) (latency : Latency)
        (calculate_entropy : ℕ → ℕ → Double) (below : Double → ℕ → Bool) where
      -- What follows the call of the generator.
      unfoldable pub answer_one :
          Metrics Latency → Response J → Str ⊎ PasswordResult Double → Metrics Latency × Response J
      answer_one m res (inl e) = catch_get (invalid_argument e) m res
      answer_one m res (inr r) =
          (record_request second now latency m, send_json_response J (result_json r) 200 res)

      unfoldable pub answer_all :
          Metrics Latency
          → Response J
          → Str ⊎ List (PasswordResult Double)
          → Metrics Latency × Response J
      answer_all m res (inl e) = catch_post (invalid_argument e) m res
      answer_all m res (inr rs) =
          (record_request second now latency m, send_json_response J (batch_json rs) 200 res)

      unfoldable pub handle_get :
          (ℕ → ℕ → ℕ)
          → (Str → Str)
          → Request
          → Metrics Latency
          → Response J
          → Option (Metrics Latency × Response J)
      handle_get draw shuffle req m res = elim (length_param req) [
        | inl e ↦ some (catch_get e m res)
        | inr n ↦ do
          outcome ← generate draw shuffle calculate_entropy below (flag_params req n)
          some (answer_one m res outcome)
      ]

      -- The part behind the parsing.
      unfoldable pub post_body :
          (ℕ → ℕ → ℕ → ℕ)
          → (ℕ → Str → Str)
          → ℤ
          → J.Value
          → Metrics Latency
          → Response J
          → Option (Metrics Latency × Response J)
      post_body draws shuffles max_batch body m res =
          let count = int_member body (codes "count") (pos 1) in
          if ltb_ℤ count (pos 1)
          then some (
            m,
            send_error_response J 400 (codes "Bad Request") (codes "Count must be at least 1") res,
          )
          else if ltb_ℤ max_batch count
          then some (
            m,
            send_error_response J 400 (codes "Bad Request")
                (codes "Count cannot exceed " ++ to_string max_batch) res,
          )
          else (do
            outcome ← generate_batch draws shuffles calculate_entropy below (body_config body) count
            some (answer_all m res outcome))

      unfoldable pub handle_post :
          (ℕ → ℕ → ℕ → ℕ)
          → (ℕ → Str → Str)
          → ℤ
          → (Str → Str ⊎ J.Value)
          → Request
          → Metrics Latency
          → Response J
          → Option (Metrics Latency × Response J)
      handle_post draws shuffles max_batch parse req m res = elim (parse req.body) [
        | inl e ↦ some (catch_post (json_exception e) m res)
        | inr body ↦ post_body draws shuffles max_batch body m res
      ]
