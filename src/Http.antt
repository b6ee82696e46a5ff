-- ===== src/Http.antt =====
-- What a handler does that others can see, in order: the calls on gin's response writer, on the
-- Prometheus instruments, on the backend's client and on the log. Gin and Prometheus themselves
-- are not modelled: a call is an event.
pub mod Counting
pub mod Totals
pub mod Rpcs
use ai_gateway_monitor.Common.{ℕ, Bool, String, List, [], ◌∷◌, ℤ, str_eq, if◌then◌else◌}
use ai_gateway_monitor.Proto.{IrisPredictRequest, ModelPredictRequest}

-- `gin.H` values. `seconds n` is the quotient `float64(n) / 1e9`.
mutual
  pub data Json : Type 0 where
    str : String → Json
    int : ℤ → Json
    flag : Bool → Json
    seconds : ℤ → Json
    obj : Members → Json

  pub data Members : Type 0 where
    end : Members
    member : String → Json → Members → Members

pub data Request : Type 0 where
  iris : IrisPredictRequest → Request
  model : ModelPredictRequest → Request

pub data Event : Type 0 where
  -- c.JSON(status, body)
  respond : (status : ℕ) → Json → Event
  -- c.Header(key, value)
  set_header : (key value : String) → Event
  -- c.SSEvent(name, data)
  sse : (name : String) → Json → Event
  -- metrics.HTTPRequestsTotal.WithLabelValues(path, status).Inc()
  count_request : (path status : String) → Event
  -- the deferred timer.ObserveDuration() of metrics.HTTPDuration
  observe_http : (path : String) → Event
  -- metrics.GRPCRequestDuration.WithLabelValues(method, status).Observe(...)
  observe_grpc : (method status : String) → Event
  -- metrics.AITokensTotal.WithLabelValues(model).Add(...)
  add_tokens : (model : String) → ℤ → Event
  -- metrics.AIGenerationDuration.WithLabelValues(model).Observe(float64(ns) / 1e9)
  observe_generation : (model : String) → (ns : ℤ) → Event
  -- an RPC with the timeout of its context
  call : (method : String) → (timeout : ℤ) → Request → Event
  -- slog.Error(message, ...)
  log_error : (message : String) → Event

-- The parts of an HTTP request that the handlers read besides the body: the X-Request-ID header,
-- "" if it is not there, and the UUID that `uuid.New` gives if it is asked.
pub record Context : Type 0 where
  pub x_request_id : String
  pub new_uuid : String

abbrev pub status_ok : ℕ
status_ok = 200

abbrev pub status_bad_request : ℕ
status_bad_request = 400

abbrev pub status_internal_server_error : ℕ
status_internal_server_error = 500

abbrev pub status_service_unavailable : ℕ
status_service_unavailable = 503

abbrev pub status_gateway_timeout : ℕ
status_gateway_timeout = 504

unfoldable pub request_id : Context → String
request_id c = if str_eq c.x_request_id "" then c.new_uuid else c.x_request_id
