-- ===== src/Config/Environment.antt =====
-- `Load` on an environment that sets every variable.
use Prim.Native.String
use ai_gateway_monitor.Common.{
  ℕ, ◌+◌, ◌*◌, ◌^◌, ◌<◌, ◌≤◌, ◌≡◌, ◌≢◌, ◌⊎◌, refl, Bool, true, false, String, [], ℤ, IsInt64, ◌+ℤ◌,
  wrap64, arith, str_eq, str_eq-ne, if◌then◌else◌,
}
use ai_gateway_monitor.Go.Strconv.{itoa, itoa_ℕ}
use ai_gateway_monitor.Go.Text.{lower_is}
use ai_gateway_monitor.Config.{
  Config, Env, quiet, second, get_env, get_env_bool, parse_bool, cover_model_timeout, read, load,
}
use ai_gateway_monitor.Config.Getters.{get_env_int-itoa, get_env_duration-seconds}

-- A value for every variable, the durations in whole seconds.
pub record Settings : Type 0 where
  pub http_addr : String
  pub pprof_addr : String
  pub pprof_enabled : Bool
  pub ai_service_addr : String
  pub jaeger_endpoint : String
  pub log_level : String
  pub http_read_timeout : ℕ
  pub http_write_timeout : ℕ
  pub http_idle_timeout : ℕ
  pub shutdown_timeout : ℕ
  pub grpc_keep_alive_time : ℕ
  pub grpc_keep_alive_timeout : ℕ
  pub grpc_max_recv_msg_size : ℤ
  pub iris_timeout : ℕ
  pub model_timeout : ℕ
  pub max_prompt_len : ℤ

-- The configuration that they stand for.
abbrev pub configured : Settings → Config
configured s = record {
  http_addr = s.http_addr;
  pprof_addr = s.pprof_addr;
  pprof_enabled = s.pprof_enabled;
  ai_service_addr = s.ai_service_addr;
  jaeger_endpoint = s.jaeger_endpoint;
  log_level = s.log_level;
  http_read_timeout = second s.http_read_timeout;
  http_write_timeout = second s.http_write_timeout;
  http_idle_timeout = second s.http_idle_timeout;
  shutdown_timeout = second s.shutdown_timeout;
  grpc_keep_alive_time = second s.grpc_keep_alive_time;
  grpc_keep_alive_timeout = second s.grpc_keep_alive_timeout;
  grpc_max_recv_msg_size = s.grpc_max_recv_msg_size;
  iris_timeout = second s.iris_timeout;
  model_timeout = second s.model_timeout;
  max_prompt_len = s.max_prompt_len;
}

abbrev seconds : ℕ → String
seconds n = String.◌++◌ (itoa_ℕ n) "s"

-- The environment that sets them, with numbers as Go prints them.
abbrev pub environment : Settings → Env
environment s key =
    if str_eq key "HTTP_ADDR"
    then s.http_addr
    else if str_eq key "PPROF_ADDR"
    then s.pprof_addr
    else if str_eq key "PPROF_ENABLED"
    then if s.pprof_enabled then "true" else "false"
    else if str_eq key "AI_SERVICE_ADDR"
    then s.ai_service_addr
    else if str_eq key "JAEGER_ENDPOINT"
    then s.jaeger_endpoint
    else if str_eq key "LOG_LEVEL"
    then s.log_level
    else if str_eq key "HTTP_READ_TIMEOUT"
    then seconds s.http_read_timeout
    else if str_eq key "HTTP_WRITE_TIMEOUT"
    then seconds s.http_write_timeout
    else if str_eq key "HTTP_IDLE_TIMEOUT"
    then seconds s.http_idle_timeout
    else if str_eq key "SHUTDOWN_TIMEOUT"
    then seconds s.shutdown_timeout
    else if str_eq key "GRPC_KEEP_ALIVE_TIME"
    then seconds s.grpc_keep_alive_time
    else if str_eq key "GRPC_KEEP_ALIVE_TIMEOUT"
    then seconds s.grpc_keep_alive_timeout
    else if str_eq key "GRPC_MAX_RECV_MSG_SIZE"
    then itoa s.grpc_max_recv_msg_size
    else if str_eq key "IRIS_TIMEOUT"
    then seconds s.iris_timeout
    else if str_eq key "MODEL_TIMEOUT"
    then seconds s.model_timeout
    else if str_eq key "MAX_PROMPT_LEN"
    then itoa s.max_prompt_len
    else ""

abbrev Fits : ℕ → Type 0
Fits n = n * 1_000_000_000 < 2 ^ 63

-- Texts that are not empty, numbers that fit their types, and a write timeout that is disabled or
-- leaves 15 s for the model.
pub record IsProper (s : Settings) : Type 0 where
  pub http_addr : s.http_addr ≢ ""
  pub pprof_addr : s.pprof_addr ≢ ""
  pub ai_service_addr : s.ai_service_addr ≢ ""
  pub jaeger_endpoint : s.jaeger_endpoint ≢ ""
  pub log_level : s.log_level ≢ ""
  pub http_read_timeout : Fits s.http_read_timeout
  pub http_write_timeout : Fits s.http_write_timeout
  pub http_idle_timeout : Fits s.http_idle_timeout
  pub shutdown_timeout : Fits s.shutdown_timeout
  pub grpc_keep_alive_time : Fits s.grpc_keep_alive_time
  pub grpc_keep_alive_timeout : Fits s.grpc_keep_alive_timeout
  pub grpc_max_recv_msg_size : IsInt64 s.grpc_max_recv_msg_size
  pub iris_timeout : Fits s.iris_timeout
  pub model_timeout : Fits s.model_timeout
  pub max_prompt_len : IsInt64 s.max_prompt_len
  pub covers : (s.http_write_timeout ≡ 0) ⊎ (s.model_timeout + 15 ≤ s.http_write_timeout)

get_env-set :
    (env : Env) (key fallback : String) {v : String}
    → env key ≡ v
    → v ≢ ""
    → get_env env key fallback ≡ v
unfolding get_env
get_env-set env key fallback {v} h present = rw (h, str_eq-ne v "" present) refl

get_env_bool-printed :
    (env : Env) (key : String) (fallback b : Bool)
    → env key ≡ (if b then "true" else "false")
    → get_env_bool env key fallback ≡ quiet b
unfolding get_env_bool parse_bool lower_is
get_env_bool-printed env key fallback true h = rw h refl
get_env_bool-printed env key fallback false h = rw h refl

guard_quiet :
    (s : Settings) → IsProper s → cover_model_timeout (configured s) ≡ quiet (configured s)
unfolding cover_model_timeout wrap64 ◌+ℤ◌
guard_quiet s h = ground (arith, h.covers)

-- The environment holds each setting under its variable.
record Sets (env : Env) (s : Settings) : Type 0 where
  http_addr : env "HTTP_ADDR" ≡ s.http_addr
  pprof_addr : env "PPROF_ADDR" ≡ s.pprof_addr
  ai_service_addr : env "AI_SERVICE_ADDR" ≡ s.ai_service_addr
  jaeger_endpoint : env "JAEGER_ENDPOINT" ≡ s.jaeger_endpoint
  log_level : env "LOG_LEVEL" ≡ s.log_level
  pprof_enabled : env "PPROF_ENABLED" ≡ (if s.pprof_enabled then "true" else "false")
  http_read_timeout : env "HTTP_READ_TIMEOUT" ≡ seconds s.http_read_timeout
  http_write_timeout : env "HTTP_WRITE_TIMEOUT" ≡ seconds s.http_write_timeout
  http_idle_timeout : env "HTTP_IDLE_TIMEOUT" ≡ seconds s.http_idle_timeout
  shutdown_timeout : env "SHUTDOWN_TIMEOUT" ≡ seconds s.shutdown_timeout
  grpc_keep_alive_time : env "GRPC_KEEP_ALIVE_TIME" ≡ seconds s.grpc_keep_alive_time
  grpc_keep_alive_timeout : env "GRPC_KEEP_ALIVE_TIMEOUT" ≡ seconds s.grpc_keep_alive_timeout
  iris_timeout : env "IRIS_TIMEOUT" ≡ seconds s.iris_timeout
  model_timeout : env "MODEL_TIMEOUT" ≡ seconds s.model_timeout
  grpc_max_recv_msg_size : env "GRPC_MAX_RECV_MSG_SIZE" ≡ itoa s.grpc_max_recv_msg_size
  max_prompt_len : env "MAX_PROMPT_LEN" ≡ itoa s.max_prompt_len

environment-Sets : (s : Settings) → Sets (environment s) s
environment-Sets s = record {
  http_addr = refl;
  pprof_addr = refl;
  ai_service_addr = refl;
  jaeger_endpoint = refl;
  log_level = refl;
  pprof_enabled = refl;
  http_read_timeout = refl;
  http_write_timeout = refl;
  http_idle_timeout = refl;
  shutdown_timeout = refl;
  grpc_keep_alive_time = refl;
  grpc_keep_alive_timeout = refl;
  iris_timeout = refl;
  model_timeout = refl;
  grpc_max_recv_msg_size = refl;
  max_prompt_len = refl;
}

module _ (env : Env) (s : Settings) (frac : ℕ → ℕ → ℕ → ℕ) (p : IsProper s) (h : Sets env s) where
  read_lem : read env frac ≡ quiet (configured s)
  unfolding read
  read_lem = simp (
    get_env-set env "HTTP_ADDR" _ h.http_addr p.http_addr,
    get_env-set env "PPROF_ADDR" _ h.pprof_addr p.pprof_addr,
    get_env-set env "AI_SERVICE_ADDR" _ h.ai_service_addr p.ai_service_addr,
    get_env-set env "JAEGER_ENDPOINT" _ h.jaeger_endpoint p.jaeger_endpoint,
    get_env-set env "LOG_LEVEL" _ h.log_level p.log_level,
    get_env_bool-printed env "PPROF_ENABLED" false s.pprof_enabled h.pprof_enabled,
    get_env_duration-seconds env frac "HTTP_READ_TIMEOUT" _ s.http_read_timeout p.http_read_timeout
        h.http_read_timeout,
    get_env_duration-seconds env frac "HTTP_WRITE_TIMEOUT" _ s.http_write_timeout
        p.http_write_timeout h.http_write_timeout,
    get_env_duration-seconds env frac "HTTP_IDLE_TIMEOUT" _ s.http_idle_timeout p.http_idle_timeout
        h.http_idle_timeout,
    get_env_duration-seconds env frac "SHUTDOWN_TIMEOUT" _ s.shutdown_timeout p.shutdown_timeout
        h.shutdown_timeout,
    get_env_duration-seconds env frac "GRPC_KEEP_ALIVE_TIME" _ s.grpc_keep_alive_time
        p.grpc_keep_alive_time h.grpc_keep_alive_time,
    get_env_duration-seconds env frac "GRPC_KEEP_ALIVE_TIMEOUT" _ s.grpc_keep_alive_timeout
        p.grpc_keep_alive_timeout h.grpc_keep_alive_timeout,
    get_env_duration-seconds env frac "IRIS_TIMEOUT" _ s.iris_timeout p.iris_timeout h.iris_timeout,
    get_env_duration-seconds env frac "MODEL_TIMEOUT" _ s.model_timeout p.model_timeout
        h.model_timeout,
    get_env_int-itoa env "GRPC_MAX_RECV_MSG_SIZE" _ s.grpc_max_recv_msg_size
        p.grpc_max_recv_msg_size h.grpc_max_recv_msg_size,
    get_env_int-itoa env "MAX_PROMPT_LEN" _ s.max_prompt_len p.max_prompt_len h.max_prompt_len,
  )

-- Whatever each variable is set to, if it is a text that is not empty, a number that fits, or a
-- duration in whole seconds that fits, and the write timeout is 0 or at least 15 s above the model
-- timeout, Load returns the configuration with these values, and logs nothing.
pub load-environment :
    (s : Settings) (frac : ℕ → ℕ → ℕ → ℕ)
    → IsProper s
    → load (environment s) frac ≡ (configured s, [])
unfolding load
load-environment s frac p =
    rw (read_lem (environment s) s frac p (environment-Sets s), guard_quiet s p)
