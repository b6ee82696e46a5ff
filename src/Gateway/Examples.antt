-- ===== src/Gateway/Examples.antt =====
-- The gateway serves a request that it refuses, and shuts down while it does.
use ai_gateway_monitor.Common.{List, refl, none, some, [], ◌∷◌}
use ai_gateway_monitor.Config.Loading.{default_config}
use ai_gateway_monitor.Http.{count_request, respond, observe_http, Event}
use ai_gateway_monitor.ApiError.{write_validation_error}
use ai_gateway_monitor.ApiError.Contract.{error_body}
use ai_gateway_monitor.Model.{step, admitted}
use ai_gateway_monitor.Model.{predict as predict_model}
use ai_gateway_monitor.Testing.{
  test_errors, test_conn, next, loop, loop-Rounds, as_written, connectivity, provider, refused,
  anonymous,
}
use ai_gateway_monitor.Router.{setup, serve, post, model_predict, Route}
use ai_gateway_monitor.Router.Exchanges.{now}
use ai_gateway_monitor.Router.Scrapes.{first, further}
use ai_gateway_monitor.Process.Threads.{
  at_start, waiting, accepting, draining, closed, absent, open_, released, returned, set_up,
  register_, export_, provide, dial_, connect_, listen, notify_, signalled, shut_down, drained,
  cancel_, close, flush, main_step, accept, exited, Threads,
}
use ai_gateway_monitor.Process.Threads as Thread
use ai_gateway_monitor.Process.Threads.Soundness.{calls}
use ai_gateway_monitor.Gateway.{Gateway, started, this, thread, arrive, act, answer, here}
use ai_gateway_monitor.Gateway as Whole
use ai_gateway_monitor.Gateway.Draining.{IsSettled}
use ai_gateway_monitor.Gateway.Graceful.{Runs, graceful_exit}

abbrev to_model : Route
to_model = record { method = post; path = "/predict/model"; handler = model_predict }

abbrev refusal : List Event
refusal =
    count_request "/predict/model" "400"
    ∷ respond 400 (error_body "INVALID_ARGUMENT" "prompt is required" anonymous)
    ∷ observe_http "/predict/model"
    ∷ []

abbrev ended : Threads
ended = record at_start {
  pc = returned;
  done = calls [] default_config 14;
  serving = closed;
  tracer = released;
  conn = released;
  log = "Shutting down gracefully..." ∷ "Server stopped." ∷ [];
  end = some (exited 0);
}

abbrev final : Gateway
final = record {
  threads = ended;
  active = [];
  answered = record { route = to_model; done = refusal; rest = [] } ∷ [];
  log = refusal;
}

abbrev RunsHere : Gateway → Type 0
RunsHere =
    Runs test_errors (test_conn none []) next (loop 5) as_written connectivity provider [] []
      default_config

abbrev at_waiting : Gateway
at_waiting = record started {
  threads = record at_start {
    pc = waiting;
    done = calls [] default_config 8;
    serving = accepting;
    tracer = open_;
    conn = open_;
  };
}

serving-RunsHere : RunsHere at_waiting
serving-RunsHere =
    Whole.next
      (Whole.next
        (Whole.next
          (Whole.next
            (Whole.next
              (Whole.next
                (Whole.next (Whole.next here (thread _ (main_step refl refl set_up) refl))
                  (thread _ (main_step refl refl register_) refl))
                (thread _ (main_step refl refl export_) refl))
              (thread _ (main_step refl refl provide) refl))
            (thread _ (main_step refl refl dial_) refl))
          (thread _ (main_step refl refl connect_) refl))
        (thread _ (main_step refl refl listen) refl))
      (thread _ (main_step refl refl notify_) refl)

-- The request is counted before the signal, and answered while Shutdown waits.
abbrev at_draining : Gateway
at_draining = record started {
  threads = record at_start {
    pc = draining;
    done = calls [] default_config 10;
    serving = closed;
    in_flight = 1;
    tracer = open_;
    conn = open_;
    log = "Shutting down gracefully..." ∷ [];
  };
  active = record { route = to_model; done = refusal; rest = [] } ∷ [];
  log = refusal;
}

draining-RunsHere : RunsHere at_draining
unfolding setup serve predict_model write_validation_error admitted
draining-RunsHere =
    Whole.next
      (Whole.next
        (Whole.next
          (Whole.next
            (Whole.next
              (Whole.next serving-RunsHere (
                arrive to_model refusal
                  (further (further (further (further first))), (refused, refl))
                  (accept refl refl)))
              (act _ refl (now _ _ _ _ refl)))
            (thread _ (main_step refl refl signalled) refl))
          (act _ refl (now _ _ _ _ refl)))
        (thread _ (main_step refl refl shut_down) refl))
      (act _ refl (now _ _ _ _ refl))

final-RunsHere : RunsHere final
final-RunsHere =
    Whole.next
      (Whole.next
        (Whole.next
          (Whole.next
            (Whole.next draining-RunsHere
              (answer _ 0 (this _ _) refl refl (Thread.answer 0 refl refl)))
            (thread _ (main_step refl refl (drained refl)) refl))
          (thread _ (main_step refl refl cancel_) refl))
        (thread _ (main_step refl refl close) refl))
      (thread _ (main_step refl refl flush) refl)

graceful_exit_example : IsSettled "/predict/model" final
graceful_exit_example =
    graceful_exit test_errors (test_conn none []) next (loop 5) as_written connectivity provider []
      [] default_config (λ c. loop-Rounds 5 (step test_errors next c))
      (record { timed = refl; counted_paths = refl }) "/predict/model" final-RunsHere refl refl
