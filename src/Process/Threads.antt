-- ===== src/Process/Threads.antt =====
-- service_go/main.go as goroutines that run side by side: `main`, the one of `srv.ListenAndServe`
-- with the requests that it serves, and the one of pprof. A step is one action of one of them, or a
-- signal that ends the process; what net/http documents of Shutdown is in the steps on it.
pub mod Soundness
pub mod Shutdown
pub mod Sequential
pub mod Completeness
mod Examples
use ai_gateway_monitor.Common.{
  ℕ, suc, ◌≤◌, ◌≡◌, Bool, true, false, String, Option, none, some, List, [], ◌∷◌, ◌++◌,
  if◌then◌else◌,
}
use ai_gateway_monitor.Config.{Config}
use ai_gateway_monitor.Metrics.{register}
use ai_gateway_monitor.Process.{
  Action, set_level, serve_pprof, must_register, new_exporter, set_tracer_provider, set_propagator,
  new_client, connect, listen_and_serve, notify, signal, shutdown, cancel, close_conn,
  shutdown_tracer, parse_log_level, pprof_actions, dial, server,
}

-- Where `main` stands: before the call that the name says.
pub data Pc : Type 0 where
  setting_up : Pc  -- the logger and pprof
  registering : Pc
  exporting : Pc
  providing : Pc  -- the exporter is there, or the process ends
  dialing : Pc
  connecting : Pc  -- the client is there, or the process ends
  listening : Pc
  notifying : Pc
  waiting : Pc  -- at `<-quit`
  stopping : Pc
  draining : Pc  -- inside `srv.Shutdown`
  cancelling : Pc  -- at the first deferred call
  closing : Pc
  flushing : Pc
  returned : Pc

abbrev pub place : Pc → ℕ
place setting_up = 0
place registering = 1
place exporting = 2
place providing = 3
place dialing = 4
place connecting = 5
place listening = 6
place notifying = 7
place waiting = 8
place stopping = 9
place draining = 10
place cancelling = 11
place closing = 12
place flushing = 13
place returned = 14

-- The goroutine of the server.
pub data Serving : Type 0 where
  unstarted : Serving
  accepting : Serving
  closed : Serving  -- ListenAndServe has returned http.ErrServerClosed
  broken : Serving  -- it has returned another error

-- The goroutine of pprof, and a resource that `main` opens and closes.
pub data Pprof : Type 0 where
  off : Pprof
  on : Pprof
  failed : Pprof

pub data Resource : Type 0 where
  absent : Resource
  open_ : Resource
  released : Resource

pub data End : Type 0 where
  exited : (status : ℕ) → End
  -- by SIGINT or SIGTERM, before `signal.Notify`
  killed : End

pub record Threads : Type 0 where
  pub pc : Pc
  -- the calls of `main`
  pub done : List Action
  pub serving : Serving
  pub in_flight : ℕ
  pub pprof : Pprof
  pub tracer : Resource
  pub conn : Resource
  -- Shutdown has run out of time
  pub forced : Bool
  -- the records, but for the two that say that a server is running
  pub log : List String
  pub end : Option End

abbrev pub at_start : Threads
at_start = record {
  pc = setting_up;
  done = [];
  serving = unstarted;
  in_flight = 0;
  pprof = off;
  tracer = absent;
  conn = absent;
  forced = false;
  log = [];
  end = none;
}

-- A call of `main`, after which it stands at `pc`.
abbrev pub called : List Action → Pc → Threads → Threads
called calls pc s = record s { pc = pc; done = s.done ++ calls }

abbrev pub logged : String → Threads → Threads
logged text s = record s { log = s.log ++ text ∷ [] }

-- os.Exit, a panic, and the return of `main` end all goroutines.
abbrev pub exit_with : ℕ → Threads → Threads
exit_with status s = record s { end = some (exited status) }

-- The listener is closed by Shutdown; a server that is broken already stays so.
abbrev pub close_listener : Serving → Serving
close_listener accepting = closed
close_listener other = other

module _ (def_buckets : List ℕ) (cfg : Config) where
  -- A step of `main` at its place, and the process after it.
  pub data MainStep (s : Threads) : Pc → Threads → Type 0 where
    set_up :
        MainStep s setting_up
          (record (called
            (set_level (parse_log_level cfg.log_level) ∷ pprof_actions cfg)
            registering
            s) { pprof = if cfg.pprof_enabled then on else off })
    register_ :
        MainStep s registering (called (must_register (register def_buckets) ∷ []) exporting s)
    register_panics :
        MainStep s registering
          (exit_with 2 (called (must_register (register def_buckets) ∷ []) exporting s))
    export_ : MainStep s exporting (called (new_exporter cfg.jaeger_endpoint ∷ []) providing s)
    export_fails : MainStep s exporting (
        exit_with 1 (
          logged "failed to initialize tracer"
            (called (new_exporter cfg.jaeger_endpoint ∷ []) providing s)))
    provide :
        MainStep s providing
          (record (called (set_tracer_provider "go-gateway" ∷ set_propagator ∷ []) dialing s) {
            tracer = open_;
          })
    dial_ :
        MainStep s dialing
          (record (called (new_client (dial cfg) ∷ []) connecting s) { conn = open_ })
    dial_fails : MainStep s dialing (
        exit_with 1 (
          logged "failed to connect to AI service"
            (called (new_client (dial cfg) ∷ []) connecting s)))
    connect_ : MainStep s connecting (called (connect ∷ []) listening s)
    listen :
        MainStep s listening
          (record (called (listen_and_serve (server cfg) ∷ []) notifying s) { serving = accepting })
    notify_ : MainStep s notifying (called (notify ∷ []) waiting s)
    -- a signal comes, or has come since `Notify`
    signalled :
        MainStep s waiting (logged "Shutting down gracefully..." (called (signal ∷ []) stopping s))
    shut_down :
        MainStep s stopping (record (called (shutdown cfg.shutdown_timeout ∷ []) draining s) {
          serving = close_listener s.serving;
        })
    drained :
        s.in_flight ≡ 0
        → MainStep s draining (logged "Server stopped." (record s { pc = cancelling }))
    timed_out : MainStep s draining (
        logged "Server stopped."
          (logged "forced shutdown" (record s { pc = cancelling; forced = true })))
    cancel_ : MainStep s cancelling (called (cancel ∷ []) closing s)
    close : MainStep s closing (record (called (close_conn ∷ []) flushing s) { conn = released })
    flush :
        MainStep s flushing
          (exit_with 0 (record (called (shutdown_tracer ∷ []) returned s) { tracer = released }))

  pub data Step (s : Threads) : Threads → Type 0 where
    main_step : {p : Pc} {t : Threads} → s.end ≡ none → s.pc ≡ p → MainStep s p t → Step s t
    -- a signal while its default action stands
    kill : s.end ≡ none → place s.pc ≤ place notifying → Step s (record s { end = some killed })
    -- a request comes in, or is answered
    accept :
        s.end ≡ none → s.serving ≡ accepting → Step s (record s { in_flight = suc s.in_flight })
    answer : (n : ℕ) → s.end ≡ none → s.in_flight ≡ suc n → Step s (record s { in_flight = n })
    -- ListenAndServe returns an error that is not ErrServerClosed, and the goroutine exits
    break_ : s.end ≡ none → s.serving ≡ accepting → Step s (record s { serving = broken })
    exit_ : s.end ≡ none → s.serving ≡ broken → Step s (exit_with 1 (logged "HTTP server error" s))
    pprof_fails :
        s.end ≡ none → s.pprof ≡ on → Step s (logged "pprof failed" (record s { pprof = failed }))

  pub data Reaches : Threads → Threads → Type 0 where
    here : {s : Threads} → Reaches s s
    next : {s t u : Threads} → Reaches s t → Step t u → Reaches s u
