-- ===== src/GoTests/HandlerCases.antt =====
-- service_go/handlers: iris_test.go, health_test.go and model_test.go. A test's mock is a
-- connection that answers as the mock does, and its HTTP response is read off the events.
use ai_gateway_monitor.Common.{
  ℕ, ◌≡◌, refl, true, false, String, Option, none, some, List, [], ◌∷◌, map, pos,
}
use ai_gateway_monitor.Go.Strconv.{itoa, itoa_ℕ}
use ai_gateway_monitor.Config.{Config}
use ai_gateway_monitor.Config.Loading.{default_config}
use ai_gateway_monitor.Proto.{Float32, zero_f32}
use ai_gateway_monitor.Proto.Clients.{Result, ok, err, iris_predict, model_predict}
use ai_gateway_monitor.Http.{Json, str, int, obj, member, end, request_id}
use ai_gateway_monitor.Http.Counting.{responses}
use ai_gateway_monitor.ApiError.{api_error_from_grpc, write_grpc_error, write_validation_error}
use ai_gateway_monitor.ApiError.Contract.{error_body}
use ai_gateway_monitor.Testing.{
  TestError, status, plain, test_errors, test_conn, anonymous, as_written, flower_body,
}
use ai_gateway_monitor.Health.{Connectivity, ConnStateProvider, check, readyz}
use ai_gateway_monitor.Iris.{IrisBody, first_invalid, validate_iris_feature, magnitude, pool_get}
use ai_gateway_monitor.Iris.{predict as predict_iris}
use ai_gateway_monitor.Model.{admitted, record_usage}
use ai_gateway_monitor.Model.{predict as predict_model}

handlers : Unit {0}
unfolding predict_iris first_invalid validate_iris_feature magnitude pool_get iris_predict
    api_error_from_grpc write_grpc_error write_validation_error predict_model model_predict
    record_usage admitted request_id itoa itoa_ℕ check readyz
handlers = tt

-- iris_test.go
abbrev iris_responses : Option TestError → Result String IrisBody → List (ℕ × Json)
iris_responses failing bound =
    responses
      (predict_iris test_errors (test_conn failing []) default_config as_written anonymous bound 0
        []).0

iris_predict_invalid_json :
    iris_responses none (err "invalid character 'o' in literal null")
    ≡ (400, error_body "INVALID_ARGUMENT" "invalid character 'o' in literal null" anonymous) ∷ []
unfolding handlers
iris_predict_invalid_json = refl

abbrev nothing : IrisBody
nothing = record {
  sepal_length = none;
  sepal_width = none;
  petal_length = none;
  petal_width = none;
}

iris_predict_missing_fields :
    iris_responses none (ok nothing)
    ≡ (
      400,
      error_body "INVALID_ARGUMENT"
          "all iris features are required: sepal_length, sepal_width, petal_length, petal_width"
          anonymous,
    )
      ∷ []
unfolding handlers
iris_predict_missing_fields = refl

-- -1 is 0xBF800000, and 999 is 0x4479C000.
abbrev minus_one : Float32
minus_one = record { negative = true; exponent = 127; fraction = 0 }

abbrev nine_hundred_ninety_nine : Float32
nine_hundred_ninety_nine = record { negative = false; exponent = 136; fraction = 0x79C000 }

iris_predict_out_of_range_rejected :
    (iris_responses none (ok (record flower_body { sepal_length = some minus_one }))
      ≡ (400, error_body "INVALID_ARGUMENT" "sepal_length must be between 0 and 50" anonymous) ∷ [])
    × (iris_responses none (ok (record flower_body { petal_width = some nine_hundred_ninety_nine }))
        ≡ (400, error_body "INVALID_ARGUMENT" "petal_width must be between 0 and 50" anonymous)
          ∷ [])
unfolding handlers
iris_predict_out_of_range_rejected = (refl, refl)

abbrev zeros : IrisBody
zeros = record {
  sepal_length = some zero_f32;
  sepal_width = some zero_f32;
  petal_length = some zero_f32;
  petal_width = some zero_f32;
}

iris_predict_all_zero_fields_accepted : map (λ r. r.0) (iris_responses none (ok zeros)) ≡ 200 ∷ []
unfolding handlers
iris_predict_all_zero_fields_accepted = refl

iris_predict_success_e2e :
    iris_responses none (ok flower_body)
    ≡ (
      200,
      obj (
          member "result" (str "setosa") (
            member "id"
              (int (pos 0))
              (member "source" (str "Go Gateway -> Python AI (Iris)") end))),
    )
      ∷ []
unfolding handlers
iris_predict_success_e2e = refl

iris_predict_timeout_e2e :
    iris_responses (some (status 4 "context deadline exceeded")) (ok flower_body)
    ≡ (504, error_body "MODEL_TIMEOUT" "context deadline exceeded" anonymous) ∷ []
unfolding handlers
iris_predict_timeout_e2e = refl

-- health_test.go
abbrev code_and_status : TestError → String × ℕ
code_and_status e =
    ((api_error_from_grpc test_errors e).0.code, (api_error_from_grpc test_errors e).1)

api_error_from_grpc_cases :
    (code_and_status (status 4 "context deadline exceeded") ≡ ("MODEL_TIMEOUT", 504))
    × (code_and_status (status 14 "connection refused") ≡ ("BACKEND_UNAVAILABLE", 503))
    × (code_and_status (status 3 "bad prompt") ≡ ("INVALID_ARGUMENT", 400))
    × (code_and_status (status 13 "boom") ≡ ("INTERNAL_ERROR", 500))
    × (code_and_status (plain "plain error") ≡ ("INTERNAL_ERROR", 500))
unfolding handlers
api_error_from_grpc_cases = (refl, refl, refl, refl, refl)

healthz_always_ok : map (λ r. r.0) (responses check) ≡ 200 ∷ []
unfolding handlers
healthz_always_ok = refl

-- The mock's state, and whether Connect was called on it.
abbrev mock_conn : ConnStateProvider (ℕ × String)
mock_conn = record { get_state = λ s. s.0; connect = λ s. (s.0, "connect") }

abbrev states : Connectivity
states = record { idle = 0; ready = 2; text = λ _. "" }

abbrev probed : ℕ → List ℕ × Option (ℕ × String)
probed state =
    let (events, conn) = readyz states mock_conn (some (state, "")) in
    (map (λ r. r.0) (responses events), conn)

-- IDLE, CONNECTING, READY, TRANSIENT_FAILURE and SHUTDOWN.
readyz_conn_states :
    (probed 0 ≡ (503 ∷ [], some (0, "connect")))
    × (probed 1 ≡ (503 ∷ [], some (1, "")))
    × (probed 2 ≡ (200 ∷ [], some (2, "")))
    × (probed 3 ≡ (503 ∷ [], some (3, "")))
    × (probed 4 ≡ (503 ∷ [], some (4, "")))
unfolding handlers
readyz_conn_states = (refl, refl, refl, refl, refl)

readyz_nil_conn : map (λ r. r.0) (responses (readyz states mock_conn none).0) ≡ 503 ∷ []
unfolding handlers
readyz_nil_conn = refl

-- model_test.go
abbrev limited : ℕ → Config
limited n = record default_config { max_prompt_len = pos n }

abbrev model_responses : ℕ → Result String String → List (ℕ × Json)
model_responses n bound =
    responses (predict_model test_errors (test_conn none []) (limited n) anonymous bound)

model_predict_missing_prompt :
    model_responses 2000 (err "Prompt is required")
    ≡ (400, error_body "INVALID_ARGUMENT" "Prompt is required" anonymous) ∷ []
unfolding handlers
model_predict_missing_prompt = refl

model_predict_prompt_too_long :
    model_responses 10 (ok "aaaaaaaaaaa")
    ≡ (
      400,
      error_body "INVALID_ARGUMENT" "prompt exceeds maximum length of 10 characters" anonymous,
    )
      ∷ []
unfolding handlers
model_predict_prompt_too_long = refl

model_predict_prompt_length_counts_runes :
    map (λ r. r.0) (model_responses 10 (ok "语语语语语语语语语语")) ≡ 200 ∷ []
unfolding handlers
model_predict_prompt_length_counts_runes = refl
