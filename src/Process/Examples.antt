-- ===== src/Process/Examples.antt =====
-- The process in concrete worlds.
use ai_gateway_monitor.Process.Limits.{LongEnough, main-write_timeout}
use ai_gateway_monitor.Common.{◌≡◌, refl, [], ◌∷◌, All, arith, true, false}
use ai_gateway_monitor.Go.Duration.{exact_fraction}
use ai_gateway_monitor.Config.{Env, read, load, get_env_int, get_env_bool, get_env_duration}
use ai_gateway_monitor.Config.Loading.{default_config}
use ai_gateway_monitor.Process.{serve_pprof, World, main, pprof_actions}
use ai_gateway_monitor.Process.Lifecycle.{servers}

abbrev unset : Env
unset _ = ""

abbrev calm : World
calm = record {
  name_taken = false;
  exporter_fails = false;
  dial_fails = false;
  server_fails = false;
  shutdown_fails = true;
}

abbrev no_backend : World
no_backend = record calm { dial_fails = true }

-- The address that is logged for the default setting.
pprof_log :
    pprof_actions (record default_config { pprof_enabled = true })
    ≡ serve_pprof "http://localhostlocalhost:6060/debug/pprof" "localhost:6060" ∷ []
pprof_log = refl

main-write_timeout_example :
    All (LongEnough unset exact_fraction) (servers (main [] (load unset exact_fraction).0 calm).0)
unfolding read get_env_int get_env_bool get_env_duration
main-write_timeout_example = main-write_timeout unset exact_fraction [] calm (omega arith)
