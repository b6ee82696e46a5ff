-- ===== src/Backend/Launch/Examples.antt =====
-- Runs of the script.
use ai_gateway_monitor.Common.{
  ◌≡◌, ◌↔◌, refl, arith, false, if◌then◌else◌, none, [], ◌∷◌, All, ℤ, pos, ◌≤ℤ◌, ◌*◌, ltb_ℤ,
}
use ai_gateway_monitor.Go.Text.{same_codes}
use ai_gateway_monitor.Go.Duration.{parse_duration, exact_fraction}
use ai_gateway_monitor.Config.{Env, load, second}
use ai_gateway_monitor.Proto.Clients.{ok, err}
use ai_gateway_monitor.Process.{info, dial, DialOptions}
use ai_gateway_monitor.Testing.{
  TestException, read_timeout, first_class, class_names, test_ollama, qwen,
}
use ai_gateway_monitor.Backend.IrisPredictor.{IrisPredictor, load_model, new_iris_predictor}
use ai_gateway_monitor.Backend.OllamaPredictor.{ModelPredictor}
use ai_gateway_monitor.Backend.Observability.{resolve_log_level, upper_is, rune_to_upper}
use ai_gateway_monitor.Backend.Server.{ServerOptions, create_server, graceful_shutdown}
use ai_gateway_monitor.Backend.Launch.{
  Environ, Outcomes, main_script, basic_config, new_exporter, set_tracer_provider,
  set_global_textmap, instrument, new_iris, new_model, new_server, handle_signals, start,
  wait_for_termination, uncaught,
}
use ai_gateway_monitor.Backend.Launch.Pings.{
  IsDocumented, IsLongOrUnread, made, idle_connection_survives_iff_long,
}

abbrev nothing_set : Environ
nothing_set _ = none

abbrev all_well : Outcomes TestException
all_well = record {
  exporter_fails = false;
  instrument_fails = false;
  exists = λ _. false;
  pickle_load = λ _. err read_timeout;
  fit = ok first_class;
  target_names = class_names;
  Float = Unit;
  float = λ _. ok tt;
  client = λ _ _. ok test_ollama;
}

abbrev iris_servicer : IrisPredictor TestException
iris_servicer = record { clf = first_class; target_names = class_names }

abbrev model_servicer : ModelPredictor TestException
model_servicer = record { client = test_ollama; model_name = qwen }

runs :
    main_script nothing_set all_well
    ≡ basic_config info
      ∷ new_exporter "localhost:4317"
      ∷ set_tracer_provider "python-ai"
      ∷ set_global_textmap
      ∷ instrument
      ∷ new_iris iris_servicer
      ∷ new_model model_servicer
      ∷ new_server (create_server iris_servicer model_servicer)
      ∷ handle_signals graceful_shutdown
      ∷ start
      ∷ wait_for_termination
      ∷ []
unfolding main_script resolve_log_level upper_is rune_to_upper same_codes new_iris_predictor
    load_model
runs = refl

-- OLLAMA_TIMEOUT_SEC is not a number: the classifier has been trained, and no server is made.
no_number :
    main_script nothing_set (record all_well { float = λ _. err read_timeout })
    ≡ basic_config info
      ∷ new_exporter "localhost:4317"
      ∷ set_tracer_provider "python-ai"
      ∷ set_global_textmap
      ∷ instrument
      ∷ new_iris iris_servicer
      ∷ uncaught
      ∷ []
unfolding main_script resolve_log_level upper_is rune_to_upper same_codes new_iris_predictor
    load_model
no_number = refl

abbrev at_least_ten : ℤ → ℤ
at_least_ten t = if ltb_ℤ t (second 10) then second 10 else t

-- A server that takes pings just at its minimal interval.
abbrev SurvivesAtLeast : ServerOptions → DialOptions → Type 0
SurvivesAtLeast options client =
    (options.keepalive_permit_without_calls ≡ 1)
    × (pos (options.min_ping_interval_without_data_ms * 1_000_000) ≤ℤ at_least_ten client.time)

at_least_ten-IsDocumented : IsDocumented at_least_ten SurvivesAtLeast
at_least_ten-IsDocumented = record {
  kept = λ t h. ground arith;
  raised = λ t h. ground arith;
  goes_on = λ options client permits spaced. (permits, omega (arith, spaced));
  ends = λ options client idle early survives. omega (arith, early, survives.1);
}

abbrev unset : Env
unset _ = ""

idle_connection_survives_iff_long_example :
    All
      (λ s.
        SurvivesAtLeast s.options (dial (load unset exact_fraction).0)
        ↔ IsLongOrUnread unset exact_fraction)
      (made (main_script nothing_set all_well))
unfolding parse_duration
idle_connection_survives_iff_long_example =
    idle_connection_survives_iff_long at_least_ten SurvivesAtLeast at_least_ten-IsDocumented
      nothing_set all_well unset exact_fraction (λ same. cc)
