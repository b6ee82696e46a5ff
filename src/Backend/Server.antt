-- ===== src/Backend/Server.antt =====
-- service_python/server.py: the gRPC server of the backend, and what a signal makes of it.
use ai_gateway_monitor.Common.{ℕ, ◌*◌, String, List, [], ◌∷◌}
use ai_gateway_monitor.Backend.IrisPredictor.{IrisPredictor}
use ai_gateway_monitor.Backend.OllamaPredictor.{ModelPredictor}

-- The options by the names that gRPC has for them, times in milliseconds.
pub record ServerOptions : Type 0 where
  pub keepalive_permit_without_calls : ℕ
  pub min_ping_interval_without_data_ms : ℕ
  pub keepalive_time_ms : ℕ
  pub keepalive_timeout_ms : ℕ

abbrev pub server_options : ServerOptions
server_options = record {
  keepalive_permit_without_calls = 1;
  min_ping_interval_without_data_ms = 20000;
  keepalive_time_ms = 60000;
  keepalive_timeout_ms = 10000;
}

abbrev pub max_workers : ℕ
max_workers = 10

-- A server with its servicers and its port.
pub record GrpcServer (E : Type 0) : Type 0 where
  pub workers : ℕ
  pub options : ServerOptions
  pub maximum_concurrent_rpcs : ℕ
  pub iris_predictor : IrisPredictor E
  pub model_predictor : ModelPredictor E
  pub insecure_port : String

abbrev pub create_server : {E : Type 0} → IrisPredictor E → ModelPredictor E → GrpcServer E
create_server iris_predictor model_predictor = record {
  workers = max_workers;
  options = server_options;
  maximum_concurrent_rpcs = max_workers * 2;
  iris_predictor = iris_predictor;
  model_predictor = model_predictor;
  insecure_port = "[::]:50051";
}

-- A call of the handler `_shutdown`.
pub data ShutdownCall : Type 0 where
  stop_server : (grace : ℕ) → ShutdownCall
  shutdown_provider : ShutdownCall

-- `_shutdown`, for SIGTERM and for SIGINT. It does not wait for what `stop` returns.
abbrev pub graceful_shutdown : List ShutdownCall
graceful_shutdown = stop_server 5 ∷ shutdown_provider ∷ []
