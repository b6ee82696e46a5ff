-- ===== src/Config/Examples.antt =====
-- The configuration loaded from concrete environments.
use ai_gateway_monitor.Config.Environment.{
  Settings, IsProper, environment, configured, load-environment,
}
use ai_gateway_monitor.Common.{
  ◌≡◌, refl, String, [], ◌∷◌, arith, ◌+ℤ◌, wrap64, inl, inr, if◌then◌else◌, str_eq, true, negsuc,
  pos,
}
use ai_gateway_monitor.Go.Duration.{exact_fraction, parse_duration}
use ai_gateway_monitor.Go.Strconv.{atoi}
use ai_gateway_monitor.Config.{
  Env, second, read, load, cover_model_timeout, get_env, get_env_int, get_env_bool,
  get_env_duration, invalid_variable, write_timeout_raised,
}
use ai_gateway_monitor.Config.Timeouts.{Covers}
use ai_gateway_monitor.Config.Loading.{
  HasNothingReadable, default_config, load-Covers, load_overflow, load_falls_back,
}

loading : Unit {0}
unfolding load read cover_model_timeout parse_duration atoi get_env get_env_int get_env_bool
    get_env_duration wrap64 ◌+ℤ◌
loading = tt

-- An environment with one or two variables set.
abbrev env_of : String → String → String → String → Env
env_of k v k' v' key = if str_eq key k then v else if str_eq key k' then v' else ""

abbrev short_write : Env
short_write = env_of "MODEL_TIMEOUT" "60s" "HTTP_WRITE_TIMEOUT" "10s"

abbrev endless_model : Env
endless_model = env_of "MODEL_TIMEOUT" "9223372030s" "HTTP_WRITE_TIMEOUT" "10s"

abbrev garbled : Env
garbled = env_of "MAX_PROMPT_LEN" "many" "IRIS_TIMEOUT" "3"

raised : (load short_write exact_fraction).1 ≡ write_timeout_raised (second 10) (second 75) ∷ []
unfolding loading
raised = refl

garbled_logs :
    (load garbled exact_fraction).1
    ≡ invalid_variable "IRIS_TIMEOUT" "3" ∷ invalid_variable "MAX_PROMPT_LEN" "many" ∷ []
unfolding loading
garbled_logs = refl

load-Covers_example : Covers (read short_write exact_fraction).0 (load short_write exact_fraction).0
unfolding loading
load-Covers_example = load-Covers short_write exact_fraction (omega arith)

load_overflow_example :
    (load endless_model exact_fraction).0 ≡ (read endless_model exact_fraction).0
unfolding loading
load_overflow_example = load_overflow endless_model exact_fraction (omega arith)

garbled_unreadable : HasNothingReadable garbled exact_fraction
unfolding loading
garbled_unreadable = record {
  texts = (refl, (refl, (refl, (refl, (refl, tt)))));
  durations = (
    inl refl,
    (inl refl, (inl refl, (inl refl, (inl refl, (inl refl, (inr refl, (inl refl, tt))))))),
  );
  sizes = (inl refl, (inr refl, tt));
  pprof = inl refl;
}

load_falls_back_example : (load garbled exact_fraction).0 ≡ default_config
load_falls_back_example = load_falls_back garbled exact_fraction garbled_unreadable

abbrev settings : Settings
settings = record {
  http_addr = ":80";
  pprof_addr = ":6060";
  pprof_enabled = true;
  ai_service_addr = "ai:50051";
  jaeger_endpoint = "jaeger:4317";
  log_level = "debug";
  http_read_timeout = 5;
  http_write_timeout = 135;
  http_idle_timeout = 30;
  shutdown_timeout = 20;
  grpc_keep_alive_time = 25;
  grpc_keep_alive_timeout = 2;
  grpc_max_recv_msg_size = pos 1_048_576;
  iris_timeout = 1;
  model_timeout = 120;
  max_prompt_len = negsuc 0;
}

settings-IsProper : IsProper settings
settings-IsProper = record {
  http_addr = λ e. cc;
  pprof_addr = λ e. cc;
  ai_service_addr = λ e. cc;
  jaeger_endpoint = λ e. cc;
  log_level = λ e. cc;
  http_read_timeout = omega arith;
  http_write_timeout = omega arith;
  http_idle_timeout = omega arith;
  shutdown_timeout = omega arith;
  grpc_keep_alive_time = omega arith;
  grpc_keep_alive_timeout = omega arith;
  grpc_max_recv_msg_size = omega arith;
  iris_timeout = omega arith;
  model_timeout = omega arith;
  max_prompt_len = omega arith;
  covers = inr (omega arith);
}

load-environment_example : load (environment settings) exact_fraction ≡ (configured settings, [])
load-environment_example = load-environment settings exact_fraction settings-IsProper
