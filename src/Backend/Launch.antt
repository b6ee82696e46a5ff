-- ===== src/Backend/Launch.antt =====
-- service_python/main.py, with setup_logging and setup_tracing of observability.py: the calls that
-- the process makes up to the wait for its end, given how they turn out.
pub mod Pings
mod Examples
use ai_gateway_monitor.Common.{
  Bool, true, false, not, String, Option, none, some, List, [], ◌∷◌, ◌++◌, if◌then◌else◌, ℤ,
}
use ai_gateway_monitor.Proto.{Float32}
use ai_gateway_monitor.Proto.Clients.{Result, ok, err}
use ai_gateway_monitor.Process.{Level}
use ai_gateway_monitor.Backend.IrisPredictor.{IrisPredictor, new_iris_predictor}
use ai_gateway_monitor.Backend.OllamaPredictor.{Ollama, ModelPredictor, new_model_predictor}
use ai_gateway_monitor.Backend.Observability.{resolve_log_level}
use ai_gateway_monitor.Backend.Server.{GrpcServer, create_server, ShutdownCall, graceful_shutdown}

pub data Call (E : Type 0) : Type 0 where
  -- the warning on stderr, and logging.basicConfig
  warn_log_level : Call E
  basic_config : Level → Call E
  -- OTLPSpanExporter
  new_exporter : (endpoint : String) → Call E
  -- trace.set_tracer_provider of a provider for this service
  set_tracer_provider : (service : String) → Call E
  -- set_global_textmap(TraceContextTextMapPropagator())
  set_global_textmap : Call E
  -- GrpcInstrumentorServer().instrument()
  instrument : Call E
  -- the constructors of the servicers return
  new_iris : IrisPredictor E → Call E
  new_model : ModelPredictor E → Call E
  -- create_server returns
  new_server : GrpcServer E → Call E
  -- signal.signal, for SIGTERM and SIGINT
  handle_signals : List ShutdownCall → Call E
  start : Call E
  wait_for_termination : Call E
  -- an exception ends the process
  uncaught : Call E

-- `os.environ`
abbrev pub Environ : Type 0
Environ = String → Option String

-- `os.getenv` with a default.
abbrev pub getenv : Environ → String → String → String
getenv environ name default = elim (environ name) [ none ↦ default | some value ↦ value ]

-- `setup_logging`
abbrev pub setup_logging : {E : Type 0} → Environ → List (Call E)
setup_logging environ =
    let (level, warns) = resolve_log_level (environ "LOG_LEVEL") in
    (if warns then warn_log_level ∷ [] else []) ++ basic_config level ∷ []

-- What the calls of third-party code come to: whether the exporter is built and gRPC instrumented,
-- whether there is a file under a path, what loading or training a classifier gives, what `float`
-- makes of a text, and what the constructor of Ollama's client gives.
pub record Outcomes (E : Type 0) : Type 1 where
  pub exporter_fails : Bool
  pub instrument_fails : Bool
  pub exists : String → Bool
  pub pickle_load : String → Result E (List Float32 → Result E ℤ)
  pub fit : Result E (List Float32 → Result E ℤ)
  pub target_names : List String
  pub Float : Type 0
  pub float : String → Result E Float
  pub client : (host : String) → Float → Result E (Ollama E)

module _ {E : Type 0} (environ : Environ) (o : Outcomes E) where
  -- From `create_server` on.
  pub with_servicers : IrisPredictor E → ModelPredictor E → List (Call E)
  with_servicers iris_predictor model_predictor =
      new_server (create_server iris_predictor model_predictor)
      ∷ handle_signals graceful_shutdown
      ∷ start
      ∷ wait_for_termination
      ∷ []

  -- The arguments of `ModelPredictor`, and its constructor.
  pub configured_model : Result E (ModelPredictor E)
  configured_model = elim (o.float (getenv environ "OLLAMA_TIMEOUT_SEC" "55")) [
    | err e ↦ err e
    | ok timeout_sec ↦
        new_model_predictor o.client (getenv environ "OLLAMA_HOST" "http://localhost:11434")
          (getenv environ "MODEL_NAME" "qwen2.5:1.5b") timeout_sec
  ]

  -- From the second servicer on.
  pub with_iris : Result E (ModelPredictor E) → IrisPredictor E → List (Call E)
  unfolding with_servicers
  with_iris (err _) iris_predictor = uncaught ∷ []
  with_iris (ok model_predictor) iris_predictor =
      new_model model_predictor ∷ with_servicers iris_predictor model_predictor

  -- From the first servicer on.
  pub with_tracing : Result E (IrisPredictor E) → List (Call E)
  unfolding with_iris configured_model
  with_tracing (err _) = uncaught ∷ []
  with_tracing (ok iris_predictor) =
      new_iris iris_predictor ∷ with_iris configured_model iris_predictor

  -- `setup_tracing`: its calls, and whether it returns.
  abbrev pub setup_tracing : List (Call E) × Bool
  setup_tracing =
      let exporter = new_exporter (getenv environ "JAEGER_ENDPOINT" "localhost:4317") in
      if o.exporter_fails then (exporter ∷ [], false) else (
        exporter ∷ set_tracer_provider "python-ai" ∷ set_global_textmap ∷ instrument ∷ [],
        not o.instrument_fails,
      )

  -- From `setup_tracing` on.
  pub traced : List (Call E)
  unfolding with_tracing
  traced =
      let rest = with_tracing (
        new_iris_predictor o.exists o.pickle_load o.fit o.target_names
          (environ "IRIS_MODEL_PATH")) in
      setup_tracing.0 ++ (if setup_tracing.1 then rest else uncaught ∷ [])

  -- The script `main.py`.
  unfoldable pub main_script : List (Call E)
  unfolding traced
  main_script = setup_logging environ ++ traced
