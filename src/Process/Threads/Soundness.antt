-- ===== src/Process/Threads/Soundness.antt =====
-- What holds of the goroutines in every state that the process can reach.
use ai_gateway_monitor.Common.{
  ℕ, zero, suc, ◌<◌, ◌≤◌, ◌≡◌, ◌≢◌, ◌⊎◌, refl, false, Option, none, some, List, [], ◌∷◌, ◌++◌,
  arith,
}
use ai_gateway_monitor.Config.{Config}
use ai_gateway_monitor.Metrics.{register}
use ai_gateway_monitor.Process.{
  Action, set_level, must_register, new_exporter, set_tracer_provider, set_propagator, new_client,
  connect, listen_and_serve, notify, signal, shutdown, cancel, close_conn, shutdown_tracer,
  parse_log_level, pprof_actions, dial, server,
}
use ai_gateway_monitor.Process.Threads.{
  Pc, setting_up, registering, exporting, providing, dialing, connecting, listening, notifying,
  waiting, stopping, draining, cancelling, closing, flushing, returned, place, Serving, unstarted,
  accepting, broken, open_, released, End, exited, killed, Threads, at_start, MainStep, drained,
  Step, main_step, kill, accept, answer, break_, exit_, pprof_fails, Reaches, here, next,
}

abbrev next_place : Pc → Pc
next_place setting_up = registering
next_place registering = exporting
next_place exporting = providing
next_place providing = dialing
next_place dialing = connecting
next_place connecting = listening
next_place listening = notifying
next_place notifying = waiting
next_place waiting = stopping
next_place stopping = draining
next_place draining = cancelling
next_place cancelling = closing
next_place closing = flushing
next_place flushing = returned
next_place returned = returned

abbrev nth_place : ℕ → Pc
nth_place zero = setting_up
nth_place (suc n) = next_place (nth_place n)

-- How a process may have ended, for where `main` stands and what the server does.
abbrev pub EndsAt : Option End → Pc → Serving → Type 0
EndsAt none p v = place p < 14
EndsAt (some killed) p v = place p ≤ place notifying
EndsAt (some (exited zero)) p v = p ≡ returned
EndsAt (some (exited (suc zero))) p v = (p ≡ providing) ⊎ ((p ≡ connecting) ⊎ (v ≡ broken))
EndsAt (some (exited (suc (suc n)))) p v = (n ≡ 0) × (p ≡ exporting)

module _ (def_buckets : List ℕ) (cfg : Config) where
  -- The calls of `main` at a place, and before its n-th place.
  abbrev calls_at : Pc → List Action
  calls_at setting_up = set_level (parse_log_level cfg.log_level) ∷ pprof_actions cfg
  calls_at registering = must_register (register def_buckets) ∷ []
  calls_at exporting = new_exporter cfg.jaeger_endpoint ∷ []
  calls_at providing = set_tracer_provider "go-gateway" ∷ set_propagator ∷ []
  calls_at dialing = new_client (dial cfg) ∷ []
  calls_at connecting = connect ∷ []
  calls_at listening = listen_and_serve (server cfg) ∷ []
  calls_at notifying = notify ∷ []
  calls_at waiting = signal ∷ []
  calls_at stopping = shutdown cfg.shutdown_timeout ∷ []
  calls_at draining = []
  calls_at cancelling = cancel ∷ []
  calls_at closing = close_conn ∷ []
  calls_at flushing = shutdown_tracer ∷ []
  calls_at returned = []

  abbrev pub calls : ℕ → List Action
  calls zero = []
  calls (suc n) = calls n ++ calls_at (nth_place n)

  pub record IsSound (s : Threads) : Type 0 where
    pub made : s.done ≡ calls (place s.pc)
    pub unstarted_early : place s.pc ≤ place listening → s.serving ≡ unstarted
    pub idle : s.serving ≡ unstarted → s.in_flight ≡ 0
    pub shut : place draining ≤ place s.pc → s.serving ≢ accepting
    pub quiet : place draining < place s.pc → s.forced ≡ false → s.in_flight ≡ 0
    pub traced :
        s.end ≡ none → place providing < place s.pc → place s.pc ≤ place flushing → s.tracer ≡ open_
    pub connected :
        s.end ≡ none → place dialing < place s.pc → place s.pc ≤ place closing → s.conn ≡ open_
    pub unreleased : place s.pc ≤ place closing → s.conn ≢ released
    pub ends : EndsAt s.end s.pc s.serving

  start-IsSound : IsSound at_start
  start-IsSound = record {
    made = refl;
    unstarted_early = λ h. refl;
    idle = λ h. refl;
    shut = λ h. absurd (omega (arith, h));
    quiet = λ h k. refl;
    traced = λ e h k. absurd (omega (arith, h));
    connected = λ e h k. absurd (omega (arith, h));
    unreleased = λ h k. cc;
    ends = omega arith;
  }

  MainStep-IsSound :
      {s t : Threads} {p : Pc}
      → IsSound s
      → s.end ≡ none
      → s.pc ≡ p
      → MainStep def_buckets cfg s p t
      → IsSound t
  MainStep-IsSound i live at (drained h) = ground arith
  MainStep-IsSound i live at _ = ground arith

  pub Step-IsSound : {s t : Threads} → IsSound s → Step def_buckets cfg s t → IsSound t
  Step-IsSound i (main_step live at m) = MainStep-IsSound i live at m
  Step-IsSound i (kill live early) = ground arith
  Step-IsSound i (accept live up) = ground arith
  Step-IsSound i (answer n live some_) = ground arith
  Step-IsSound i (break_ live up) = ground arith
  Step-IsSound i (exit_ live broke) = ground arith
  Step-IsSound i (pprof_fails live up) = ground arith

  pub Reaches-IsSound : {s : Threads} → Reaches def_buckets cfg at_start s → IsSound s
  Reaches-IsSound here = start-IsSound
  Reaches-IsSound (next r step) = Step-IsSound (Reaches-IsSound r) step
