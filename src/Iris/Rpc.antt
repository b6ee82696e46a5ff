-- ===== src/Iris/Rpc.antt =====
-- POST /predict/iris: the RPC and its metric.
use ai_gateway_monitor.Common.{ℕ, ℤ, refl, String, List, [], ◌∷◌, ◌++◌}
use ai_gateway_monitor.Config.{Config}
use ai_gateway_monitor.Proto.{Float32, IrisPredictResponse}
use ai_gateway_monitor.Proto.Clients.{Result, ok, err, ClientConn, iris_predict, iris_predict_name}
use ai_gateway_monitor.Http.{Request, Context, call, observe_grpc, observe_http, iris}
use ai_gateway_monitor.Http.Rpcs.{Reports, not_called, succeeded, failed}
use ai_gateway_monitor.ApiError.{
  GrpcErrors, api_error_from_grpc, write_grpc_error, write_validation_error,
}
use ai_gateway_monitor.ApiError.Contract.{api_error-ne-200}
use ai_gateway_monitor.Iris.{
  IrisBody, Features, RequestPool, path, answer, grpc_status, forward, fill, pool_get, predict,
}
use ai_gateway_monitor.Iris.Decision.{act, decision, predict-act}

module _ (g : GrpcErrors) {S : Type 0} (cc : ClientConn g.Err S) (cfg : Config)
    (order : List (String × Float32) → List (String × Float32)) (c : Context) where
  written-Reports :
      (timeout : ℤ) (req : Request) (r : Result g.Err IrisPredictResponse)
      → Reports iris_predict_name "IrisPredict" path (
          (call iris_predict_name timeout req
            ∷ observe_grpc "IrisPredict" (grpc_status r)
            ∷ answer g cc cfg order c r)
          ++ observe_http path ∷ [])
  unfolding answer write_grpc_error
  written-Reports timeout req (ok resp) = succeeded timeout req refl refl refl
  written-Reports timeout req (err e) =
      failed timeout req (api_error_from_grpc g e).1 refl refl refl (api_error-ne-200 g e)

  act-Reports :
      (d : Result String Features) (i : ℕ) (pool : RequestPool)
      → Reports iris_predict_name "IrisPredict" path
          ((act g cc cfg order c d i pool).0 ++ observe_http path ∷ [])
  unfolding write_validation_error forward
  act-Reports (err message) i pool = not_called refl refl
  act-Reports (ok f) i pool =
      let req = fill f (pool_get i pool).0 in
      written-Reports cfg.iris_timeout (iris req) (iris_predict cc cfg.iris_timeout req).0

  pub predict_iris-Reports :
      (bound : Result String IrisBody) (i : ℕ) (pool : RequestPool)
      → Reports iris_predict_name "IrisPredict" path (predict g cc cfg order c bound i pool).0
  predict_iris-Reports bound i pool =
      rw (predict-act g cc cfg order c bound i pool) (act-Reports (decision order bound) i pool)
