-- ===== src/Router.antt =====
-- service_go/router/router.go: the routes, and what a request to a route runs.
-- Gin's engine and the handler of promhttp are third-party code: the engine is the table of routes
-- that it was given, the exposition of the metrics an argument.
pub mod Accounting
pub mod Settings
pub mod Statuses
pub mod Exchanges
pub mod Scrapes
pub mod Session
pub mod Rpcs
mod Examples
use ai_gateway_monitor.Common.{ℕ, Bool, String, Option, List, [], ◌∷◌}
use ai_gateway_monitor.Config.{Config}
use ai_gateway_monitor.Proto.{Float32}
use ai_gateway_monitor.Proto.Clients.{Result, ClientConn}
use ai_gateway_monitor.Http.{Event, Context}
use ai_gateway_monitor.ApiError.{GrpcErrors}
use ai_gateway_monitor.Health.{Connectivity, ConnStateProvider, check, readyz, new_health_handler}
use ai_gateway_monitor.Iris.{IrisBody, RequestPool}
use ai_gateway_monitor.Iris.{predict as predict_iris}
use ai_gateway_monitor.Model.{predict as predict_model}
use ai_gateway_monitor.Model.{predict_stream, StepFunction, Received, new_model_handler}

pub data Method : Type 0 where
  get : Method
  post : Method

-- The functions that `Setup` registers.
pub data Handler : Type 0 where
  promhttp_handler : Handler
  health_check : Handler
  health_readyz : Handler
  iris_predict : Handler
  model_predict : Handler
  model_predict_stream : Handler

pub record Route : Type 0 where
  pub method : Method
  pub path : String
  pub handler : Handler

abbrev route : Method → String → Handler → Route
route m p h = record { method = m; path = p; handler = h }

-- `Setup`
unfoldable pub setup : List Route
setup =
    route get "/metrics" promhttp_handler
    ∷ route get "/healthz" health_check
    ∷ route get "/readyz" health_readyz
    ∷ route post "/predict/iris" iris_predict
    ∷ route post "/predict/model" model_predict
    ∷ route post "/predict/model/stream" model_predict_stream
    ∷ []

-- What reaches a handler: gin's binding of the body for it, and the state that it shares.
pub record Incoming (C : Type 0) : Type 0 where
  pub context : Context
  pub iris_body : Result String IrisBody
  pub prompt_body : Result String String
  pub pool : RequestPool
  pub picked : ℕ
  pub channel : Option C

module _ (g : GrpcErrors) {S : Type 0} (conn : ClientConn g.Err S) (recv : S → Received g.Err × S)
    (gin_stream : StepFunction S → S → List Event × Bool)
    (order : List (String × Float32) → List (String × Float32)) (k : Connectivity) {C : Type 0}
    (provider : ConnStateProvider C) (exposition : List Event) (cfg : Config) where
  -- The handlers as `main` builds them: on one connection and one configuration.
  unfoldable pub serve : Handler → Incoming C → List Event
  serve promhttp_handler r = exposition
  serve health_check r = check
  serve health_readyz r = (readyz k provider (new_health_handler r.channel).conn).0
  serve iris_predict r = (predict_iris g conn cfg order r.context r.iris_body r.picked r.pool).0
  serve model_predict r =
      let h = new_model_handler conn cfg in predict_model g h.client h.cfg r.context r.prompt_body
  serve model_predict_stream r =
      let h = new_model_handler conn cfg in
      predict_stream g h.client recv gin_stream h.cfg r.context r.prompt_body
