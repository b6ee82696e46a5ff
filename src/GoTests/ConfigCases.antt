-- ===== src/GoTests/ConfigCases.antt =====
-- service_go/config/config_test.go
use ai_gateway_monitor.Common.{
  ◌≡◌, refl, true, false, String, [], pos, ◌+ℤ◌, wrap64, if◌then◌else◌, str_eq, ◌*◌, List, ◌∷◌,
}
use ai_gateway_monitor.Go.Duration.{exact_fraction, parse_duration}
use ai_gateway_monitor.Go.Strconv.{atoi}
use ai_gateway_monitor.Config.{
  Config, Env, second, read, load, cover_model_timeout, get_env, get_env_int, get_env_bool,
  parse_bool, get_env_duration,
}
use ai_gateway_monitor.Go.Text.{lower_is}

loading : Unit {0}
unfolding load read cover_model_timeout parse_duration atoi get_env get_env_int get_env_bool
    get_env_duration wrap64 ◌+ℤ◌ parse_bool lower_is
loading = tt

abbrev lookup : List (String × String) → Env
lookup [] key = ""
lookup ((name, value) ∷ rest) key = if str_eq key name then value else lookup rest key

abbrev loaded : List (String × String) → Config
loaded variables = (load (lookup variables) exact_fraction).0

load_defaults : loaded [] ≡ record {
  http_addr = ":8080";
  pprof_addr = "localhost:6060";
  pprof_enabled = false;
  ai_service_addr = "localhost:50051";
  jaeger_endpoint = "localhost:4317";
  log_level = "info";
  http_read_timeout = second 10;
  http_write_timeout = second 75;
  http_idle_timeout = second 60;
  shutdown_timeout = second 75;
  grpc_keep_alive_time = second 30;
  grpc_keep_alive_timeout = second 3;
  grpc_max_recv_msg_size = pos (50 * 1024 * 1024);
  iris_timeout = second 3;
  model_timeout = second 60;
  max_prompt_len = pos 2000;
}
unfolding loading
load_defaults = refl

load_env_overrides :
    loaded (
      ("HTTP_ADDR", ":9090")
      ∷ ("PPROF_ENABLED", "true")
      ∷ ("GRPC_KEEP_ALIVE_TIME", "15s")
      ∷ ("GRPC_KEEP_ALIVE_TIMEOUT", "5s")
      ∷ ("GRPC_MAX_RECV_MSG_SIZE", "1048576")
      ∷ ("IRIS_TIMEOUT", "7s")
      ∷ ("MODEL_TIMEOUT", "120s")
      ∷ ("MAX_PROMPT_LEN", "500")
      ∷ ("LOG_LEVEL", "debug")
      ∷ ("HTTP_READ_TIMEOUT", "20s")
      ∷ ("HTTP_WRITE_TIMEOUT", "150s")
      ∷ ("HTTP_IDLE_TIMEOUT", "90s")
      ∷ [])
    ≡ record {
      http_addr = ":9090";
      pprof_addr = "localhost:6060";
      pprof_enabled = true;
      ai_service_addr = "localhost:50051";
      jaeger_endpoint = "localhost:4317";
      log_level = "debug";
      http_read_timeout = second 20;
      http_write_timeout = second 150;
      http_idle_timeout = second 90;
      shutdown_timeout = second 75;
      grpc_keep_alive_time = second 15;
      grpc_keep_alive_timeout = second 5;
      grpc_max_recv_msg_size = pos 1048576;
      iris_timeout = second 7;
      model_timeout = second 120;
      max_prompt_len = pos 500;
    }
unfolding loading
load_env_overrides = refl

write_timeout_raised_to_cover_model_timeout :
    (loaded (("MODEL_TIMEOUT", "60s") ∷ ("HTTP_WRITE_TIMEOUT", "10s") ∷ [])).http_write_timeout
    ≡ second 75
unfolding loading
write_timeout_raised_to_cover_model_timeout = refl

write_timeout_disabled_is_kept :
    (loaded (("MODEL_TIMEOUT", "60s") ∷ ("HTTP_WRITE_TIMEOUT", "0s") ∷ [])).http_write_timeout
    ≡ second 0
unfolding loading
write_timeout_disabled_is_kept = refl

get_env_bool_cases :
    ((get_env_bool (lookup (("TEST_BOOL", "true") ∷ [])) "TEST_BOOL" false).0 ≡ true)
    × ((get_env_bool (lookup (("TEST_BOOL", "1") ∷ [])) "TEST_BOOL" false).0 ≡ true)
    × ((get_env_bool (lookup (("TEST_BOOL", "false") ∷ [])) "TEST_BOOL" true).0 ≡ false)
    × ((get_env_bool (lookup (("TEST_BOOL", "0") ∷ [])) "TEST_BOOL" true).0 ≡ false)
    × ((get_env_bool (lookup (("TEST_BOOL", "invalid") ∷ [])) "TEST_BOOL" true).0 ≡ true)
unfolding loading
get_env_bool_cases = (refl, refl, refl, refl, refl)
