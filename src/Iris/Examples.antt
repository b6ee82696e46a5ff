-- ===== src/Iris/Examples.antt =====
-- The Iris endpoint on concrete requests.
use mathlib.Core.List.Perm
use ai_gateway_monitor.Iris.Sequence.{Serves, request, finished}
use ai_gateway_monitor.Http.{Event}
use ai_gateway_monitor.Common.{◌≡◌, refl, ◌↔◌, none, some, [], ◌∷◌, arith, ◌++◌, List}
use ai_gateway_monitor.Go.Strconv.{itoa_ℕ}
use ai_gateway_monitor.Config.Loading.{default_config}
use ai_gateway_monitor.Proto.{empty_iris_request}
use ai_gateway_monitor.Proto.Clients.{ok, iris_predict}
use ai_gateway_monitor.Http.Counting.{AnswersWith, calls}
use ai_gateway_monitor.Testing.{
  test_errors, test_conn, anonymous, status, five_and_a_half, fifty, flower, flower_body,
  as_written,
}
use ai_gateway_monitor.Iris.{path, predict, validate_iris_feature, RequestPool, first_invalid}
use ai_gateway_monitor.Iris.Decision.{decision}
use ai_gateway_monitor.Iris.Validation.{IsMeasurement, validate_iff_IsMeasurement}
use ai_gateway_monitor.Iris.Reuse.{expected_calls, predict_iris-calls}
use ai_gateway_monitor.Iris.Trace.{expected_answer, predict_iris-AnswersWith}
use ai_gateway_monitor.Iris.Order.{complete_body, decision_iff_measurements}

limits :
    (validate_iris_feature "petal_width" (fifty 0) ≡ none)
    × (validate_iris_feature "petal_width" (fifty 1) ≡ some "petal_width must be between 0 and 50")
unfolding validate_iris_feature itoa_ℕ
limits = (refl, refl)

validate_iff_IsMeasurement_example :
    (validate_iris_feature "sepal_width" five_and_a_half ≡ none) ↔ IsMeasurement five_and_a_half
validate_iff_IsMeasurement_example =
    validate_iff_IsMeasurement "sepal_width" five_and_a_half (omega arith)

decision_iff_measurements_example :
    (decision as_written (ok (complete_body flower)) ≡ ok flower) ↔ (
      IsMeasurement flower.sepal_length
      × IsMeasurement flower.sepal_width
      × IsMeasurement flower.petal_length
      × IsMeasurement flower.petal_width)
decision_iff_measurements_example =
    decision_iff_measurements as_written Perm.refl flower (omega arith) (omega arith) (omega arith)
      (omega arith)

predict_iris-calls_example :
    calls
      (predict test_errors
        (test_conn none [])
        default_config
        as_written
        anonymous
        (ok flower_body)
        0
        (empty_iris_request ∷ [])).0
    ≡ expected_calls default_config (decision as_written (ok flower_body))
predict_iris-calls_example =
    predict_iris-calls test_errors (test_conn none []) default_config as_written anonymous
      (ok flower_body) 0 (empty_iris_request ∷ []) (refl, tt)

-- A backend that misses its deadline.
predict_iris-AnswersWith_example :
    AnswersWith path
      (expected_answer test_errors
        (test_conn (some (status 4 "late")) [])
        default_config
        as_written
        anonymous
        (decision as_written (ok flower_body)))
      (predict test_errors
        (test_conn (some (status 4 "late")) [])
        default_config
        as_written
        anonymous
        (ok flower_body)
        0
        []).0
predict_iris-AnswersWith_example =
    predict_iris-AnswersWith test_errors (test_conn (some (status 4 "late")) []) default_config
      as_written anonymous (ok flower_body) 0 [] tt

abbrev flower_events : RequestPool → List Event × RequestPool
flower_events pool =
    predict test_errors (test_conn none []) default_config as_written anonymous (ok flower_body) 0
      pool

-- The second request gets the message that the first one has put back.
two_flowers :
    Serves test_errors
      (test_conn none [])
      default_config
      as_written
      []
      ((anonymous, ok flower_body) ∷ (anonymous, ok flower_body) ∷ [])
      ((flower_events []).0 ++ (flower_events (flower_events []).1).0 ++ [])
      (flower_events (flower_events []).1).1
unfolding predict first_invalid validate_iris_feature iris_predict
two_flowers =
    request anonymous (ok flower_body) 0 []
      (request anonymous (ok flower_body) 0 (flower_events []).1 finished)
