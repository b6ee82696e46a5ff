-- ===== src/Process.antt =====
-- service_go/main.go, with service_go/grpcclient/client.go and service_go/telemetry/tracer.go: the
-- life of the process, from the configuration to the exit.
-- The calls on third-party packages are actions, in order; what the world answers is an argument.
pub mod Lifecycle
pub mod Limits
pub mod Levels
pub mod Threads
mod Examples
use Prim.Native.String
use ai_gateway_monitor.Common.{
  ℕ, Bool, true, false, ◌||◌, String, Option, none, some, List, [], ◌∷◌, ◌++◌, if◌then◌else◌, ℤ,
}
use ai_gateway_monitor.Go.Text.{lower_is}
use ai_gateway_monitor.Config.{Config}
use ai_gateway_monitor.Metrics.{Instrument, register}
use ai_gateway_monitor.Router.{Route, setup}

pub data Level : Type 0 where
  debug : Level
  info : Level
  warn : Level
  error : Level

unfoldable pub parse_log_level : String → Level
parse_log_level level =
    if lower_is level "debug"
    then debug
    else if lower_is level "warn" || lower_is level "warning"
    then warn
    else if lower_is level "error"
    then error
    else info

-- The options of `grpc.NewClient`; its transport is plaintext.
pub record DialOptions : Type 0 where
  pub target : String
  pub max_call_recv_msg_size : ℤ
  pub time : ℤ
  pub timeout : ℤ
  pub permit_without_stream : Bool
  -- grpc.WithStatsHandler(otelgrpc.NewClientHandler())
  pub otel_stats_handler : Bool

abbrev pub dial : Config → DialOptions
dial cfg = record {
  target = cfg.ai_service_addr;
  max_call_recv_msg_size = cfg.grpc_max_recv_msg_size;
  time = cfg.grpc_keep_alive_time;
  timeout = cfg.grpc_keep_alive_timeout;
  permit_without_stream = true;
  otel_stats_handler = true;
}

-- The `http.Server` of the gateway.
pub record Server : Type 0 where
  pub addr : String
  pub handler : List Route
  pub read_timeout : ℤ
  pub write_timeout : ℤ
  pub idle_timeout : ℤ

unfoldable pub server : Config → Server
server cfg = record {
  addr = cfg.http_addr;
  handler = setup;
  read_timeout = cfg.http_read_timeout;
  write_timeout = cfg.http_write_timeout;
  idle_timeout = cfg.http_idle_timeout;
}

pub data Action : Type 0 where
  -- slog.SetDefault
  set_level : Level → Action
  -- the goroutine of pprof: its log record and http.ListenAndServe
  serve_pprof : (logged addr : String) → Action
  -- prometheus.MustRegister
  must_register : List Instrument → Action
  -- otlptracegrpc.New
  new_exporter : (endpoint : String) → Action
  -- otel.SetTracerProvider of a provider for this service
  set_tracer_provider : (service : String) → Action
  -- otel.SetTextMapPropagator(propagation.TraceContext{})
  set_propagator : Action
  -- grpc.NewClient, and Connect on its channel
  new_client : DialOptions → Action
  connect : Action
  -- the goroutine of the server
  listen_and_serve : Server → Action
  -- signal.Notify for SIGINT and SIGTERM
  notify : Action
  -- `<-quit` returns
  signal : Action
  -- srv.Shutdown under a context with a timeout
  shutdown : (timeout : ℤ) → Action
  -- the deferred calls
  cancel : Action
  close_conn : Action
  shutdown_tracer : Action
  log_info : String → Action
  log_error : String → Action

-- What the world answers: `MustRegister` panics over a name that is taken, the exporter or the
-- client cannot be built, the server stops by itself before a signal, `Shutdown` runs out of time.
pub record World : Type 0 where
  pub name_taken : Bool
  pub exporter_fails : Bool
  pub dial_fails : Bool
  pub server_fails : Bool
  pub shutdown_fails : Bool

-- What was done, and the exit status.
abbrev pub Run : Type 0
Run = List Action × ℕ

abbrev exit : ℕ → Run
exit status = ([], status)

-- Some actions, and then a run.
abbrev then_run : List Action → Run → Run
then_run done rest = (done ++ rest.0, rest.1)

-- From `signal.Notify` on: the signal, the end of `main`, and its deferred calls, last one first.
pub stop : Config → World → Run
stop cfg w = (
  notify
        ∷ signal
        ∷ log_info "Shutting down gracefully..."
        ∷ shutdown cfg.shutdown_timeout
        ∷ (if w.shutdown_fails then log_error "forced shutdown" ∷ [] else [])
      ++ log_info "Server stopped." ∷ cancel ∷ close_conn ∷ shutdown_tracer ∷ [],
  0,
)

-- From `srv` on. `os.Exit` in the server's goroutine ends the process without the deferred calls.
pub serving : Config → World → Run
unfolding stop
serving cfg w =
    let rest = stop cfg w in
    then_run (listen_and_serve (server cfg) ∷ log_info "Go Gateway running" ∷ [])
      (if w.server_fails then (log_error "HTTP server error" ∷ [], 1) else rest)

-- From `grpcclient.Dial` on.
pub dialing : Config → World → Run
unfolding serving
dialing cfg w =
    let rest = serving cfg w in
    then_run (new_client (dial cfg) ∷ []) (
      if w.dial_fails
      then (log_error "failed to connect to AI service" ∷ [], 1)
      else then_run (connect ∷ []) rest)

-- From `telemetry.InitTracer` on.
pub tracing : Config → World → Run
unfolding dialing
tracing cfg w =
    let rest = dialing cfg w in
    then_run (new_exporter cfg.jaeger_endpoint ∷ []) (
      if w.exporter_fails
      then (log_error "failed to initialize tracer" ∷ [], 1)
      else then_run (set_tracer_provider "go-gateway" ∷ set_propagator ∷ []) rest)

abbrev pub pprof_actions : Config → List Action
pprof_actions cfg =
    if cfg.pprof_enabled
    then serve_pprof (String.◌++◌ "http://localhost" (String.◌++◌ cfg.pprof_addr "/debug/pprof"))
        cfg.pprof_addr
      ∷ []
    else []

-- From `metrics.Register` on. Its panic exits with 2.
pub registering : List ℕ → Config → World → Run
unfolding tracing
registering def_buckets cfg w =
    let rest = tracing cfg w in
    then_run (must_register (register def_buckets) ∷ []) (if w.name_taken then exit 2 else rest)

-- `main`, on the configuration that `Load` returned.
unfoldable pub main : List ℕ → Config → World → Run
unfolding registering
main def_buckets cfg w =
    then_run (set_level (parse_log_level cfg.log_level) ∷ pprof_actions cfg)
      (registering def_buckets cfg w)
