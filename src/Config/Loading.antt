-- ===== src/Config/Loading.antt =====
-- `Load` as a whole.
use Prim.Native.String
use mathlib.Core.List.{append-nil}
use ai_gateway_monitor.Common.{
  ℕ, ◌-◌, ◌+◌, ◌*◌, ◌^◌, ◌<◌, ◌≡◌, refl, String, List, [], ◌∷◌, ◌++◌, arith, pos, ◌≤ℤ◌, ◌<ℤ◌, ◌+ℤ◌,
  IsInt64, ◌⊎◌, false, ap, All, ltb, ◌==◌, if◌then◌else◌, wrap64,
}
use ai_gateway_monitor.Go.Strconv.{atoi, itoa_ℕ}
use ai_gateway_monitor.Go.Duration.{parse_duration}
use ai_gateway_monitor.Config.{
  Config, Env, second, parse_bool, cover_model_timeout, read, load, write_timeout_raised,
}
use ai_gateway_monitor.Config.Getters.{
  IsUnreadable, get_env_int-IsInt64, get_env_duration-IsInt64, get_env_int_fallback,
  get_env_fallback, get_env_bool_fallback, get_env_duration_fallback, get_env_duration-seconds,
}
use ai_gateway_monitor.Config.Timeouts.{
  Covers, LeavesHeadroom, cover-Covers, min_write_overflow, cover-seconds,
}

-- Every number of a configuration is a value of Go's `int` or `time.Duration`.
record HasGoNumbers (cfg : Config) : Type 0 where
  pub http_read : IsInt64 cfg.http_read_timeout
  pub http_write : IsInt64 cfg.http_write_timeout
  pub http_idle : IsInt64 cfg.http_idle_timeout
  pub shutdown : IsInt64 cfg.shutdown_timeout
  pub keep_alive : IsInt64 cfg.grpc_keep_alive_time
  pub keep_alive_wait : IsInt64 cfg.grpc_keep_alive_timeout
  pub max_size : IsInt64 cfg.grpc_max_recv_msg_size
  pub iris : IsInt64 cfg.iris_timeout
  pub model : IsInt64 cfg.model_timeout
  pub max_prompt : IsInt64 cfg.max_prompt_len

abbrev pub default_config : Config
default_config = record {
  http_addr = ":8080";
  pprof_addr = "localhost:6060";
  pprof_enabled = false;
  ai_service_addr = "localhost:50051";
  jaeger_endpoint = "localhost:4317";
  log_level = "info";
  http_read_timeout = second 10;
  http_write_timeout = second 75;
  http_idle_timeout = second 60;
  shutdown_timeout = second 75;
  grpc_keep_alive_time = second 30;
  grpc_keep_alive_timeout = second 3;
  grpc_max_recv_msg_size = pos 52_428_800;
  iris_timeout = second 3;
  model_timeout = second 60;
  max_prompt_len = pos 2000;
}

abbrev pub text_keys : List String
text_keys = "HTTP_ADDR" ∷ "PPROF_ADDR" ∷ "AI_SERVICE_ADDR" ∷ "JAEGER_ENDPOINT" ∷ "LOG_LEVEL" ∷ []

abbrev pub duration_keys : List String
duration_keys =
    "HTTP_READ_TIMEOUT" ∷ "HTTP_WRITE_TIMEOUT" ∷ "HTTP_IDLE_TIMEOUT" ∷ "SHUTDOWN_TIMEOUT"
    ∷ "GRPC_KEEP_ALIVE_TIME" ∷ "GRPC_KEEP_ALIVE_TIMEOUT" ∷ "IRIS_TIMEOUT" ∷ "MODEL_TIMEOUT" ∷ []

pub record HasNothingReadable (env : Env) (frac : ℕ → ℕ → ℕ → ℕ) : Type 0 where
  pub texts : All (λ key. env key ≡ "") text_keys
  pub durations : All (λ key. IsUnreadable (parse_duration frac) (env key)) duration_keys
  pub sizes :
      All (λ key. IsUnreadable atoi (env key)) ("GRPC_MAX_RECV_MSG_SIZE" ∷ "MAX_PROMPT_LEN" ∷ [])
  pub pprof : IsUnreadable parse_bool (env "PPROF_ENABLED")

default_config_kept : (cover_model_timeout default_config).0 ≡ default_config
unfolding cover_model_timeout wrap64 ◌+ℤ◌
default_config_kept = refl

module _ (env : Env) (frac : ℕ → ℕ → ℕ → ℕ) where
  read-HasGoNumbers : HasGoNumbers (read env frac).0
  unfolding read
  read-HasGoNumbers = record {
    http_read = get_env_duration-IsInt64 env frac _ (second 10) (omega arith);
    http_write = get_env_duration-IsInt64 env frac _ (second 75) (omega arith);
    http_idle = get_env_duration-IsInt64 env frac _ (second 60) (omega arith);
    shutdown = get_env_duration-IsInt64 env frac _ (second 75) (omega arith);
    keep_alive = get_env_duration-IsInt64 env frac _ (second 30) (omega arith);
    keep_alive_wait = get_env_duration-IsInt64 env frac _ (second 3) (omega arith);
    max_size = get_env_int-IsInt64 env _ (pos (50 * 1024 * 1024)) (omega arith);
    iris = get_env_duration-IsInt64 env frac _ (second 3) (omega arith);
    model = get_env_duration-IsInt64 env frac _ (second 60) (omega arith);
    max_prompt = get_env_int-IsInt64 env _ (pos 2000) (omega arith);
  }

  -- Where the model timeout leaves 15 s below the largest duration, `Load` only ever changes the
  -- write timeout: one that is not positive is kept; a positive one ends at least 15 s above the
  -- model timeout, is never lowered, and is raised to no more than that.
  pub load-Covers :
      LeavesHeadroom (read env frac).0.model_timeout → Covers (read env frac).0 (load env frac).0
  unfolding load
  load-Covers room = cover-Covers (read env frac).0 read-HasGoNumbers.model room

  -- Where the model timeout leaves no 15 s below the largest duration, the guard's sum wraps to a
  -- negative number, and `Load` keeps whatever write timeout was read.
  pub load_overflow :
      pos (2 ^ 63 - 15_000_000_000) ≤ℤ (read env frac).0.model_timeout
      → (load env frac).0 ≡ (read env frac).0
  unfolding load
  load_overflow large = min_write_overflow (read env frac).0 read-HasGoNumbers.model large

  -- `Load` logs what the getters logged, and one record more, with both values, exactly where it
  -- raises the write timeout.
  load_logs :
      (((load env frac).0 ≡ (read env frac).0) × ((load env frac).1 ≡ (read env frac).1))
      ⊎ (((read env frac).0.http_write_timeout <ℤ (load env frac).0.http_write_timeout)
          × ((load env frac).1
              ≡ (read env frac).1
                ++ write_timeout_raised
                    (read env frac).0.http_write_timeout
                    (load env frac).0.http_write_timeout
                  ∷ []))
  unfolding load cover_model_timeout
  load_logs = ground (arith, append-nil (read env frac).1)

  -- With a model timeout of n seconds and a write timeout of w seconds in the environment, both
  -- printed as Go prints numbers, `Load` returns the model timeout n and the write timeout w, or
  -- n + 15 seconds where w is positive and less than that.
  load-seconds :
      (n w : ℕ)
      → (n + 15) * 1_000_000_000 < 2 ^ 63
      → w * 1_000_000_000 < 2 ^ 63
      → env "MODEL_TIMEOUT" ≡ String.◌++◌ (itoa_ℕ n) "s"
      → env "HTTP_WRITE_TIMEOUT" ≡ String.◌++◌ (itoa_ℕ w) "s"
      → ((load env frac).0.model_timeout ≡ second n)
        × ((load env frac).0.http_write_timeout
            ≡ (if w == 0 then second 0 else if ltb w (n + 15) then second (n + 15) else second w))
  unfolding load read cover_model_timeout
  load-seconds n w fits fits' model write =
      cover-seconds (read env frac).0 n w fits
        (ap (λ r. r.0)
          (get_env_duration-seconds env frac "MODEL_TIMEOUT" (second 60) n (omega arith) model))
        (ap (λ r. r.0)
          (get_env_duration-seconds env frac "HTTP_WRITE_TIMEOUT" (second 75) w fits' write))

  -- Where every variable is unset or cannot be read by its getter, and no text is set, `Load`
  -- returns the documented defaults.
  pub load_falls_back : HasNothingReadable env frac → (load env frac).0 ≡ default_config
  unfolding load read
  load_falls_back h =
      simp
        (
          get_env_fallback env _ _ h.texts.0,
          get_env_fallback env _ _ h.texts.1.0,
          get_env_fallback env _ _ h.texts.1.1.0,
          get_env_fallback env _ _ h.texts.1.1.1.0,
          get_env_fallback env _ _ h.texts.1.1.1.1.0,
          get_env_duration_fallback env frac _ _ h.durations.0,
          get_env_duration_fallback env frac _ _ h.durations.1.0,
          get_env_duration_fallback env frac _ _ h.durations.1.1.0,
          get_env_duration_fallback env frac _ _ h.durations.1.1.1.0,
          get_env_duration_fallback env frac _ _ h.durations.1.1.1.1.0,
          get_env_duration_fallback env frac _ _ h.durations.1.1.1.1.1.0,
          get_env_duration_fallback env frac _ _ h.durations.1.1.1.1.1.1.0,
          get_env_duration_fallback env frac _ _ h.durations.1.1.1.1.1.1.1.0,
          get_env_int_fallback env _ _ h.sizes.0,
          get_env_int_fallback env _ _ h.sizes.1.0,
          get_env_bool_fallback env _ _ h.pprof,
        )
        default_config_kept
