-- ===== src/Process/Threads/Examples.antt =====
-- A process that gets its signal while it serves a request.
use ai_gateway_monitor.Common.{
  ◌+◌, ◌≤◌, ◌≡◌, ◌⊎◌, inl, refl, none, some, [], ◌∷◌, arith, false, true,
}
use ai_gateway_monitor.Config.Loading.{default_config}
use ai_gateway_monitor.Process.{World, main}
use ai_gateway_monitor.Process.Threads.{
  waiting, draining, returned, accepting, closed, Resource, open_, Threads, at_start, set_up,
  register_, export_, provide, dial_, connect_, listen, notify_, signalled, shut_down, drained,
  cancel_, close, flush, Step, main_step, accept, answer, Reaches, here, next, exited, notifying,
  kill, killed,
}
use ai_gateway_monitor.Process.Threads.Shutdown.{
  IsStopped, Runs, done, more, shutdown_ends, in_flight_served,
}
use ai_gateway_monitor.Process.Threads.Soundness.{calls}
use ai_gateway_monitor.Process.Threads.Completeness.{records, main_is_reached}
use ai_gateway_monitor.Process.Threads.Sequential.{without_logs, Realises, ends_as_main}

abbrev waiting_state : Threads
waiting_state = record at_start {
  pc = waiting;
  done = calls [] default_config 8;
  serving = accepting;
  in_flight = 1;
  tracer = open_;
  conn = open_;
}

abbrev draining_state : Threads
draining_state = record waiting_state {
  pc = draining;
  done = calls [] default_config 10;
  serving = closed;
  log = "Shutting down gracefully..." ∷ [];
}

abbrev listening_state : Threads
listening_state = record waiting_state { pc = notifying; done = calls [] default_config 7 }

listening-Reaches : Reaches [] default_config at_start listening_state
listening-Reaches =
    next
      (next
        (next
          (next
            (next
              (next (next (next here (main_step refl refl set_up)) (main_step refl refl register_))
                (main_step refl refl export_))
              (main_step refl refl provide))
            (main_step refl refl dial_))
          (main_step refl refl connect_))
        (main_step refl refl listen))
      (accept refl refl)

waiting-Reaches : Reaches [] default_config at_start waiting_state
waiting-Reaches = next listening-Reaches (main_step refl refl notify_)

draining-Reaches : Reaches [] default_config at_start draining_state
draining-Reaches =
    next (next waiting-Reaches (main_step refl refl signalled)) (main_step refl refl shut_down)

abbrev answered_state : Threads
answered_state = record draining_state { in_flight = 0 }

answering : Runs [] default_config 1 draining_state answered_state
answering = more (answer 0 refl refl) done

shutdown_ends_example :
    (1 ≤ 6 + 1)
    × (IsStopped answered_state ⊎ ((u : Threads) × Step [] default_config answered_state u))
shutdown_ends_example = shutdown_ends [] default_config draining-Reaches (omega arith) answering

in_flight_served_example :
    (draining_state.end ≡ none) × (draining_state.conn ≡ open_) × (draining_state.tracer ≡ open_)
in_flight_served_example =
    in_flight_served [] default_config draining-Reaches (inl refl) refl (omega arith)

abbrev final_state : Threads
final_state = record answered_state {
  pc = returned;
  done = calls [] default_config 14;
  tracer = Resource.released;
  conn = Resource.released;
  log = "Shutting down gracefully..." ∷ "Server stopped." ∷ [];
  end = some (exited 0);
}

final-Reaches : Reaches [] default_config at_start final_state
final-Reaches =
    next
      (next
        (next
          (next (next draining-Reaches (answer 0 refl refl)) (main_step refl refl (drained refl)))
          (main_step refl refl cancel_))
        (main_step refl refl close))
      (main_step refl refl flush)

ends_as_main_example : (w : World) × Realises [] default_config w 0 final_state.done
ends_as_main_example = ends_as_main [] default_config final-Reaches refl

abbrev broken_world : World
broken_world = record {
  name_taken = false;
  exporter_fails = false;
  dial_fails = false;
  server_fails = true;
  shutdown_fails = false;
}

main_is_reached_example :
    (s : Threads) × Reaches [] default_config at_start s
    × (s.end ≡ some (exited (main [] default_config broken_world).1))
    × (s.done ≡ without_logs (main [] default_config broken_world).0)
    × (s.log ≡ records (main [] default_config broken_world).0)
main_is_reached_example = main_is_reached [] default_config broken_world

-- A signal before `signal.Notify` ends the process while a request is in flight.
killed_busy : Reaches [] default_config at_start (record listening_state { end = some killed })
killed_busy = next listening-Reaches (kill refl (omega arith))
