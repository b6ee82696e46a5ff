-- ===== src/Process/Threads/Shutdown.antt =====
-- The shutdown of service_go/main.go: from srv.Shutdown on, what the goroutines may still do.
use ai_gateway_monitor.Common.{
  ℕ, suc, ◌+◌, ◌-◌, ◌<◌, ◌≤◌, ◌≡◌, ◌⊎◌, inl, inr, ◌≢◌, refl, false, Option, none, some, List, arith,
}
use ai_gateway_monitor.Config.{Config}
use ai_gateway_monitor.Process.Threads.{
  Pc, setting_up, registering, exporting, providing, dialing, connecting, listening, notifying,
  waiting, stopping, draining, cancelling, closing, flushing, returned, place, broken, Pprof, on,
  open_, End, exited, Threads, at_start, MainStep, set_up, register_, export_, provide, dial_,
  connect_, listen, notify_, signalled, shut_down, drained, timed_out, cancel_, close, flush, Step,
  main_step, kill, accept, answer, break_, exit_, pprof_fails, Reaches,
}
use ai_gateway_monitor.Process.Threads.Soundness.{IsSound, Step-IsSound, Reaches-IsSound}

-- The steps that a process may still make once the listener is closed.
abbrev live : Option End → ℕ
live none = 1
live (some e) = 0

abbrev may_fail : Pprof → ℕ
may_fail on = 1
may_fail p = 0

abbrev pub work : Threads → ℕ
work s = 14 - place s.pc + s.in_flight + may_fail s.pprof + live s.end

work_bound : (s : Threads) → place draining ≤ place s.pc → work s ≤ 6 + s.in_flight
work_bound s late = ground arith

is_live : (s : Threads) → (s.end ≡ none) ⊎ (s.end ≢ none)
is_live s = ground arith

-- How a process ends that has begun to shut down.
abbrev pub IsStopped : Threads → Type 0
IsStopped s = (s.end ≡ some (exited 0)) ⊎ ((s.end ≡ some (exited 1)) × (s.serving ≡ broken))

module _ (def_buckets : List ℕ) (cfg : Config) where
  -- A run of n steps.
  pub data Runs : ℕ → Threads → Threads → Type 0 where
    done : {s : Threads} → Runs 0 s s
    more : {n : ℕ} {s t u : Threads} → Step def_buckets cfg s t → Runs n t u → Runs (suc n) s u

  MainStep-work :
      {s t : Threads} {p : Pc}
      → place draining ≤ place p
      → s.end ≡ none
      → s.pc ≡ p
      → MainStep def_buckets cfg s p t
      → (work t < work s) × (place draining ≤ place t.pc)
  MainStep-work late up at (drained h) = ground arith
  MainStep-work late up at _ = ground arith

  Step-work :
      {s t : Threads}
      → IsSound def_buckets cfg s
      → place draining ≤ place s.pc
      → Step def_buckets cfg s t
      → (work t < work s) × (place draining ≤ place t.pc)
  Step-work i late (main_step up at m) = MainStep-work (rw (← at) late) up at m
  Step-work i late (kill up early) = ground arith
  Step-work i late (accept up h) = ground arith
  Step-work i late (answer n up h) = ground arith
  Step-work i late (break_ up h) = ground arith
  Step-work i late (exit_ up h) = ground arith
  Step-work i late (pprof_fails up h) = ground arith

  main_can_step :
      (s : Threads) (p : Pc) → place p < 14 → (t : Threads) × MainStep def_buckets cfg s p t
  main_can_step s setting_up h = (_, set_up)
  main_can_step s registering h = (_, register_)
  main_can_step s exporting h = (_, export_)
  main_can_step s providing h = (_, provide)
  main_can_step s dialing h = (_, dial_)
  main_can_step s connecting h = (_, connect_)
  main_can_step s listening h = (_, listen)
  main_can_step s notifying h = (_, notify_)
  main_can_step s waiting h = (_, signalled)
  main_can_step s stopping h = (_, shut_down)
  main_can_step s draining h = (_, timed_out)
  main_can_step s cancelling h = (_, cancel_)
  main_can_step s closing h = (_, close)
  main_can_step s flushing h = (_, flush)
  main_can_step s returned h = absurd (omega (arith, h))

  -- `main` is never blocked for good.
  can_step :
      {s : Threads}
      → IsSound def_buckets cfg s
      → s.end ≡ none
      → (t : Threads) × Step def_buckets cfg s t
  can_step {s = s} i up =
      let (t, m) = main_can_step s s.pc (ground arith) in (t, main_step up refl m)

  IsStopped-of-IsSound :
      {s : Threads}
      → IsSound def_buckets cfg s
      → place draining ≤ place s.pc
      → s.end ≢ none
      → IsStopped s
  IsStopped-of-IsSound i late ended = ground arith

  served :
      {s : Threads}
      → IsSound def_buckets cfg s
      → (s.end ≡ none) ⊎ (s.end ≡ some (exited 0))
      → s.forced ≡ false
      → 0 < s.in_flight
      → (s.end ≡ none) × (s.conn ≡ open_) × (s.tracer ≡ open_)
  served i end unforced busy = ground arith

  Runs-work :
      {n : ℕ} {s t : Threads}
      → IsSound def_buckets cfg s
      → place draining ≤ place s.pc
      → Runs n s t
      → IsSound def_buckets cfg t × (place draining ≤ place t.pc) × (n + work t ≤ work s)
  Runs-work i late done = (i, late, omega arith)
  Runs-work i late (more step rest) =
      let (less, late') = Step-work i late step in
      let (i', late'', bound) = Runs-work (Step-IsSound def_buckets cfg i step) late' rest in
      (i', late'', omega (arith, less, bound))

  -- Once srv.Shutdown is called, a run of the process has at most six steps more than there are
  -- requests in flight; where it has come to, the process can make another step, or has ended with
  -- status 0, or with 1 because the server had broken.
  pub shutdown_ends :
      {n : ℕ} {s t : Threads}
      → Reaches def_buckets cfg at_start s
      → place draining ≤ place s.pc
      → Runs n s t
      → (n ≤ 6 + s.in_flight) × (IsStopped t ⊎ ((u : Threads) × Step def_buckets cfg t u))
  shutdown_ends {s = s} {t = t} r late run =
      let (i, late', bound) = Runs-work (Reaches-IsSound def_buckets cfg r) late run in
      (
        omega (arith, bound, work_bound s late),
        elim (is_live t) [
          | inl up ↦ inr (can_step i up)
          | inr ended ↦ inl (IsStopped-of-IsSound i late' ended)
        ],
      )

  -- While the process lives or when it has exited with 0, and unless Shutdown ran out of time, a
  -- request that is still in flight finds the process alive, and the connection and the tracer
  -- open.
  pub in_flight_served :
      {s : Threads}
      → Reaches def_buckets cfg at_start s
      → (s.end ≡ none) ⊎ (s.end ≡ some (exited 0))
      → s.forced ≡ false
      → 0 < s.in_flight
      → (s.end ≡ none) × (s.conn ≡ open_) × (s.tracer ≡ open_)
  in_flight_served r end unforced busy =
      served (Reaches-IsSound def_buckets cfg r) end unforced busy
