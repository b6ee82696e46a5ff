-- ===== src/Config.antt =====
-- service_go/config/config.go: the settings, and how they are read from the environment.
-- The environment is a function, with "" for a variable that is not set, as `os.Getenv` has it.
pub mod Getters
pub mod Timeouts
pub mod Loading
pub mod Words
pub mod Environment
mod Examples
use ai_gateway_monitor.Common.{
  ℕ, ◌*◌, ◌≡◌, Bool, true, false, ◌&&◌, ◌||◌, String, Option, none, some, List, [], ◌∷◌, ◌++◌,
  if◌then◌else◌, str_eq, ℤ, pos, ◌+ℤ◌, ltb_ℤ, wrap64,
}
use ai_gateway_monitor.Go.Text.{lower_is}
use ai_gateway_monitor.Go.Strconv.{atoi}
use ai_gateway_monitor.Go.Duration.{parse_duration}

pub record Config : Type 0 where
  pub http_addr : String
  pub pprof_addr : String
  pub pprof_enabled : Bool
  pub ai_service_addr : String
  pub jaeger_endpoint : String
  pub log_level : String
  pub http_read_timeout : ℤ
  pub http_write_timeout : ℤ
  pub http_idle_timeout : ℤ
  pub shutdown_timeout : ℤ
  pub grpc_keep_alive_time : ℤ
  pub grpc_keep_alive_timeout : ℤ
  pub grpc_max_recv_msg_size : ℤ
  pub iris_timeout : ℤ
  pub model_timeout : ℤ
  pub max_prompt_len : ℤ

-- The `slog.Warn` records of `Load`.
pub data Warning : Type 0 where
  invalid_variable : (key value : String) → Warning
  write_timeout_raised : (configured effective : ℤ) → Warning

-- A value and what was logged on the way to it, first record first.
abbrev pub Logged : Type 0 → Type 0
Logged A = A × List Warning

infixl 5 ◌>>=◌
abbrev pub ◌>>=◌ : {A B : Type 0} → Logged A → (A → Logged B) → Logged B
◌>>=◌ m f = let n = f m.0 in (n.0, m.1 ++ n.1)

abbrev pub quiet : {A : Type 0} → A → Logged A
quiet a = (a, [])

-- `time.Second`
abbrev pub second : ℕ → ℤ
second n = pos (n * 1_000_000_000)

abbrev pub write_timeout_headroom : ℤ
write_timeout_headroom = second 15

abbrev pub Env : Type 0
Env = String → String

-- The `switch` of `getEnvBool`; `none` is its default case.
unfoldable pub parse_bool : String → Option Bool
parse_bool v =
    if lower_is v "1" || lower_is v "true" || lower_is v "yes" || lower_is v "on"
    then some true
    else if lower_is v "0" || lower_is v "false" || lower_is v "no" || lower_is v "off"
    then some false
    else none

-- `cfg.ModelTimeout + writeTimeoutHeadroom`, in the arithmetic of int64.
abbrev pub min_write : Config → ℤ
min_write cfg = wrap64 (cfg.model_timeout +ℤ write_timeout_headroom)

-- The guard at the end of `Load`.
unfoldable pub cover_model_timeout : Config → Logged Config
cover_model_timeout cfg =
    if ltb_ℤ (pos 0) cfg.http_write_timeout && ltb_ℤ cfg.http_write_timeout (min_write cfg)
    then (
      record cfg { http_write_timeout = min_write cfg },
      write_timeout_raised cfg.http_write_timeout (min_write cfg) ∷ [],
    )
    else quiet cfg

module _ (env : Env) where
  unfoldable pub get_env : String → String → String
  get_env key fallback = if str_eq (env key) "" then fallback else env key

  -- A value that does not parse is logged, and the default taken.
  pub checked : {A : Type 0} → String → A → Option A → Logged A
  checked key fallback none = (fallback, invalid_variable key (env key) ∷ [])
  checked key fallback (some a) = quiet a

  unfoldable pub get_env_int : String → ℤ → Logged ℤ
  unfolding checked
  get_env_int key fallback =
      if str_eq (env key) "" then quiet fallback else checked key fallback (atoi (env key))

  unfoldable pub get_env_bool : String → Bool → Logged Bool
  unfolding checked parse_bool
  get_env_bool key fallback =
      if str_eq (env key) "" then quiet fallback else checked key fallback (parse_bool (env key))

  module _ (frac : ℕ → ℕ → ℕ → ℕ) where
    unfoldable pub get_env_duration : String → ℤ → Logged ℤ
    unfolding checked
    get_env_duration key fallback =
        if str_eq (env key) ""
        then quiet fallback
        else checked key fallback (parse_duration frac (env key))

    -- The composite literal of `Load`, its fields in the order in which they are read.
    unfoldable pub read : Logged Config
    read = do
      pprof ← get_env_bool "PPROF_ENABLED" false
      read_timeout ← get_env_duration "HTTP_READ_TIMEOUT" (second 10)
      write_timeout ← get_env_duration "HTTP_WRITE_TIMEOUT" (second 75)
      idle_timeout ← get_env_duration "HTTP_IDLE_TIMEOUT" (second 60)
      shutdown ← get_env_duration "SHUTDOWN_TIMEOUT" (second 75)
      keep_alive ← get_env_duration "GRPC_KEEP_ALIVE_TIME" (second 30)
      keep_alive_wait ← get_env_duration "GRPC_KEEP_ALIVE_TIMEOUT" (second 3)
      max_size ← get_env_int "GRPC_MAX_RECV_MSG_SIZE" (pos (50 * 1024 * 1024))
      iris ← get_env_duration "IRIS_TIMEOUT" (second 3)
      model ← get_env_duration "MODEL_TIMEOUT" (second 60)
      max_prompt ← get_env_int "MAX_PROMPT_LEN" (pos 2000)
      quiet (record {
        http_addr = get_env "HTTP_ADDR" ":8080";
        pprof_addr = get_env "PPROF_ADDR" "localhost:6060";
        pprof_enabled = pprof;
        ai_service_addr = get_env "AI_SERVICE_ADDR" "localhost:50051";
        jaeger_endpoint = get_env "JAEGER_ENDPOINT" "localhost:4317";
        log_level = get_env "LOG_LEVEL" "info";
        http_read_timeout = read_timeout;
        http_write_timeout = write_timeout;
        http_idle_timeout = idle_timeout;
        shutdown_timeout = shutdown;
        grpc_keep_alive_time = keep_alive;
        grpc_keep_alive_timeout = keep_alive_wait;
        grpc_max_recv_msg_size = max_size;
        iris_timeout = iris;
        model_timeout = model;
        max_prompt_len = max_prompt;
      })

    unfoldable pub load : Logged Config
    load = do cfg ← read; cover_model_timeout cfg
