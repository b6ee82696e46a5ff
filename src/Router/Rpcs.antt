-- ===== src/Router/Rpcs.antt =====
-- The RPCs of a request to a route, and their metric.
use ai_gateway_monitor.Common.{Bool, ◌≡◌, refl, String, List, [], All}
use ai_gateway_monitor.Config.{Config}
use ai_gateway_monitor.Proto.{Float32}
use ai_gateway_monitor.Proto.Clients.{
  ClientConn, iris_predict_name, model_predict_name, model_predict_stream_name,
}
use ai_gateway_monitor.Http.{Event, Context}
use ai_gateway_monitor.Http.Counting.{calls, grpc_timings}
use ai_gateway_monitor.Http.Rpcs.{Reports}
use ai_gateway_monitor.ApiError.{GrpcErrors}
use ai_gateway_monitor.Health.{Connectivity, ConnStateProvider, check}
use ai_gateway_monitor.Health.Contract.{readyz_uncalled}
use ai_gateway_monitor.Iris.Rpc.{predict_iris-Reports}
use ai_gateway_monitor.Model.{step, StepFunction, Received}
use ai_gateway_monitor.Model.Rounds.{Rounds}
use ai_gateway_monitor.Model.Rpc.{predict_model-Reports, predict_stream-Reports}
use ai_gateway_monitor.Router.{
  Handler, promhttp_handler, health_check, health_readyz, iris_predict, model_predict,
  model_predict_stream, setup, Incoming, serve,
}

-- What is called, timed and counted of a request to a route, by its handler.
abbrev pub Rpcs : Handler → String → List Event → Type 0
Rpcs iris_predict path t = Reports iris_predict_name "IrisPredict" path t
Rpcs model_predict path t = Reports model_predict_name "ModelPredict" path t
Rpcs model_predict_stream path t = Reports model_predict_stream_name "ModelPredictStream" path t
Rpcs promhttp_handler path t = (calls t ≡ []) × (grpc_timings t ≡ [])
Rpcs health_check path t = (calls t ≡ []) × (grpc_timings t ≡ [])
Rpcs health_readyz path t = (calls t ≡ []) × (grpc_timings t ≡ [])

module _ (g : GrpcErrors) {S : Type 0} (conn : ClientConn g.Err S) (recv : S → Received g.Err × S)
    (gin_stream : StepFunction S → S → List Event × Bool)
    (order : List (String × Float32) → List (String × Float32)) (k : Connectivity) {C : Type 0}
    (provider : ConnStateProvider C) (exposition : List Event) (cfg : Config) where
  -- If gin's loop keeps its documented contract and the exposition of the metrics makes no RPC, then
  -- a request to any route for predictions, whatever the pool holds, makes one RPC, which is timed
  -- once in grpc_request_duration_seconds under its method, or none, and then nothing is timed; the
  -- RPC is timed as ok exactly if the request is counted with 200 under the route's path, and as
  -- error exactly if it is counted with another status. A probe or a scrape makes no RPC.
  pub setup-Rpcs :
      ((c : Context) (s : S)
        → Rounds
            (step g recv c)
            s
            (gin_stream (step g recv c) s).0
            (gin_stream (step g recv c) s).1)
      → calls exposition ≡ []
      → grpc_timings exposition ≡ []
      → (r : Incoming C)
      → All
          (λ route.
            Rpcs route.handler route.path
              (serve g conn recv gin_stream order k provider exposition cfg route.handler r))
          setup
  unfolding setup serve check
  setup-Rpcs documented uncalled untimed r = (
    (uncalled, untimed),
    (
      (refl, refl),
      (
        readyz_uncalled k provider r.channel,
        (
          predict_iris-Reports g conn cfg order r.context r.iris_body r.picked r.pool,
          (
            predict_model-Reports g conn cfg r.context r.prompt_body,
            (
              predict_stream-Reports g conn recv gin_stream cfg r.context (documented r.context)
                  r.prompt_body,
              tt,
            ),
          ),
        ),
      ),
    ),
  )
