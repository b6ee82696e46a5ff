-- ===== src/Lib.antt =====
-- ai-gateway-monitor: service_go, the gateway that turns REST requests into gRPC calls of the Python
-- AI backend and measures them, and that backend, service_python.
--
-- The parts and how they interact. `main` loads the configuration from the environment, registers the
-- instruments, starts tracing, dials the backend, and serves HTTP until a signal. The router hands a
-- request to a probe, to the Iris handler or to one of the two model handlers, which share the
-- connection and the configuration. A handler validates the body, calls the generated client under a
-- timeout, and answers with the reply or with an entry of the error contract; it counts and times
-- what it does. The streaming handler passes the backend's chunks on as server-sent events.
--
-- Which file models what (paths from the repository's root):
--   Common       numbers, lists, tests and Go's int64, shared by all files.
--   Go           strconv.Itoa, strconv.Atoi, time.ParseDuration and strings.ToLower, from the standard
--                library's documentation and behaviour; what time.ParseDuration makes of the digits
--                after a point is a parameter (`frac`), as Go computes it in float64.
--   Config       service_go/config/config.go: `Load` is `load`, `getEnv` is `get_env`, and so on; the
--                environment is a function, the log records are returned beside the value.
--   Proto        service_go/gen: the messages with `Reset`, and in Proto/Clients the calls of the two
--                generated clients over an abstract connection.
--   Http         what a handler does that others can see, as a list of events; Http/Counting reads
--                answers, counts, timings and calls off such a list, Http/Totals the values of the two
--                HTTP metrics.
--   ApiError     service_go/handlers/api_error.go: the error contract.
--   Iris         service_go/handlers/iris.go: the state of the handler is its pool of messages, which
--                `predict` takes and returns. Iris/Sequence has requests one after another, with a pool
--                that the garbage collector may empty; Iris/Sharing has requests that run at the same
--                time: a heap of messages, and the single actions of the requests as steps.
--   Model        service_go/handlers/model.go: `Predict` is `predict`; `PredictStream` is
--                `predict_stream`, the function that it hands to `c.Stream` is `step`.
--   Health       service_go/handlers/health.go: `Readyz` is `readyz`; the channel is a state behind
--                the interface, which `Connect` changes.
--   Router       service_go/router/router.go: `Setup` is `setup`; `serve` runs a registered handler.
--                Router/Exchanges lets requests be served side by side, event by event, and
--                Router/Session one after another, with the state that the handlers keep.
--   Metrics      service_go/metrics/metrics.go: the instruments. Metrics/Registration has
--                `Register` on a registry (`register_on`), for which Prometheus's documented
--                contract is a hypothesis.
--   Backend      service_python: the servicers in models that the gateway's calls come to,
--                iris_predictor.py as Backend/IrisPredictor, ollama_predictor.py as
--                Backend/OllamaPredictor; a servicer's context is passed along as a state.
--                Of the process, Backend/Launch has main.py and the setup functions of
--                observability.py, Backend/Server has server.py, and Backend/Observability
--                `_resolve_log_level`: the script is the calls that it makes, in order.
--   EndToEnd     a handler of the gateway with the servicer behind it, over gRPC, whose documented
--                behaviour for a call that comes through, or is cancelled, is a hypothesis (`Carries`,
--                `CarriesCancelled`).
--   Process      service_go/main.go, with service_go/grpcclient/client.go and
--                service_go/telemetry/tracer.go: `main` as the calls that it makes, in order, given
--                how the calls turn out. Process/Threads has its goroutines side by side: what each
--                of them, a request, or a signal can do next is a step of one state.
--   Gateway      the whole: the goroutines of Process/Threads, where each request in flight runs the
--                handler of its route.
--   GoTests      the cases of service_go's own tests, evaluated.
--   Testing      the collaborators that the examples share. Each part's Examples holds its tests.
--
-- Bounds and fuel. Durations and Go's int are integers with the range of int64, and the one sum that
-- can leave it wraps (`wrap64`). A float32 is its bit pattern. `parse_duration` reads its components on
-- fuel, the number of characters, which is enough because each component takes at least one
-- (Go/Duration/Fuel). `itoa` emits digits on fuel n + 1 for a number n. All other recursion is
-- structural. The step relations have no bound. `c.Stream` loops for as long as the stream lasts: the
-- loop is an argument, and what gin documents of it is the relation `Rounds`.
--
-- What is not modelled. Gin's binding of JSON, its engine and its middleware, gRPC, Prometheus and
-- OpenTelemetry are third-party code: arguments, or events and actions that are only recorded. Time is
-- not modelled: a timeout is the number that a call is given. Concurrent requests are modelled where
-- they meet: in the Iris handler's pool of messages, in the metrics, and at the end of the process. A
-- SIGKILL and a crash, which may come at any time, are left out. Of the Python backend the servicers
-- are modelled, with a stream of Ollama that ends, and the calls that start the process and that a
-- signal makes; scikit-learn, httpx, Ollama's client, and what `float` makes of OLLAMA_TIMEOUT_SEC are
-- arguments, and log records are left out. The GPU exporter, the deployment and the dashboards are not modelled.
pub mod Common
pub mod Go
pub mod Config
pub mod Proto
pub mod Http
pub mod ApiError
pub mod Iris
pub mod Testing
pub mod Model
pub mod Health
pub mod Router
pub mod Metrics
pub mod Process
pub mod Gateway
pub mod Backend
pub mod EndToEnd
pub mod GoTests
