-- ===== src/Iris/Sharing/Examples.antt =====
-- Two requests that overlap.
use ai_gateway_monitor.Common.{◌≤◌, ◌≡◌, [], ◌∷◌, All, map, none, refl}
use ai_gateway_monitor.Config.Loading.{default_config}
use ai_gateway_monitor.Proto.{IrisPredictRequest}
use ai_gateway_monitor.Proto.Clients.{ok, iris_predict_name}
use ai_gateway_monitor.Http.{iris}
use ai_gateway_monitor.Http.Counting.{calls}
use ai_gateway_monitor.Iris.Sharing.Sequential.{predict_is_a_run}
use ai_gateway_monitor.Iris.{predict, validate_iris_feature, first_invalid}
use ai_gateway_monitor.Iris.Reuse.{fresh_request}
use ai_gateway_monitor.Iris.Sharing.{Shared, Reaches}
use ai_gateway_monitor.Iris.Sharing.Exclusive.{references, sends_own_features, shares_nothing}
use ai_gateway_monitor.Testing.{
  empty_heap, overlapping, flower, flower_body, as_written, anonymous, test_errors, test_conn,
}

sends_own_features_example : All (λ c. c.1 ≡ fresh_request c.0) overlapping.0.sent
sends_own_features_example = sends_own_features empty_heap overlapping.1

shares_nothing_example : references overlapping.0 0 ≤ 1
shares_nothing_example = shares_nothing empty_heap overlapping.1 0

predict_is_a_run_example :
    let out =
      predict test_errors
        (test_conn none [])
        default_config
        as_written
        anonymous
        (ok flower_body)
        0
        (map overlapping.0.heap overlapping.0.pool) in
    (t : Shared) × Reaches overlapping.0 t
    × (t.flights ≡ overlapping.0.flights)
    × (map t.heap t.pool ≡ out.1)
    × ((req : IrisPredictRequest) × (t.sent ≡ (flower, req) ∷ overlapping.0.sent)
        × (calls out.0 ≡ (iris_predict_name, default_config.iris_timeout, iris req) ∷ []))
unfolding validate_iris_feature first_invalid
predict_is_a_run_example =
    predict_is_a_run test_errors (test_conn none []) default_config as_written anonymous empty_heap
      overlapping.1 (ok flower_body) flower 0 refl
