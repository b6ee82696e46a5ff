-- ===== src/Process/Lifecycle.antt =====
-- The life of the process: the order of its startup, what runs at the end, and the server's limits.
use ai_gateway_monitor.Common.{
  ℕ, ◌≡◌, ◌↔◌, inl, inr, refl, ap, false, List, [], ◌∷◌, ◌==◌, if◌then◌else◌, arith, All,
  Bool-cases, take, suc,
}
use ai_gateway_monitor.Config.{Config}
use ai_gateway_monitor.Metrics.{register}
use ai_gateway_monitor.Process.{
  Action, must_register, new_exporter, set_tracer_provider, set_propagator, new_client, connect,
  listen_and_serve, cancel, close_conn, shutdown_tracer, World, Server, server, dial, main,
  registering, tracing, dialing, serving, stop, Run,
}

-- The deferred calls of a run.
abbrev pub deferred : List Action → List Action
deferred [] = []
deferred (cancel ∷ t) = cancel ∷ deferred t
deferred (close_conn ∷ t) = close_conn ∷ deferred t
deferred (shutdown_tracer ∷ t) = shutdown_tracer ∷ deferred t
deferred (_ ∷ t) = deferred t

-- The calls of a run that set the process up.
abbrev pub startup : List Action → List Action
startup [] = []
startup (must_register is ∷ t) = must_register is ∷ startup t
startup (new_exporter e ∷ t) = new_exporter e ∷ startup t
startup (set_tracer_provider s ∷ t) = set_tracer_provider s ∷ startup t
startup (set_propagator ∷ t) = set_propagator ∷ startup t
startup (new_client o ∷ t) = new_client o ∷ startup t
startup (connect ∷ t) = connect ∷ startup t
startup (listen_and_serve s ∷ t) = listen_and_serve s ∷ startup t
startup (_ ∷ t) = startup t

abbrev pub servers : List Action → List Server
servers [] = []
servers (listen_and_serve s ∷ t) = s ∷ servers t
servers (_ ∷ t) = servers t

-- Nothing of what starts the process went wrong, and a signal came before the server failed.
abbrev GoesWell : World → Type 0
GoesWell w =
    (w.name_taken ≡ false)
    × (w.exporter_fails ≡ false)
    × (w.dial_fails ≡ false)
    × (w.server_fails ≡ false)

-- metrics → tracing → gRPC dial and Connect → HTTP listen
abbrev pub documented_order : List ℕ → Config → List Action
documented_order def_buckets cfg =
    must_register (register def_buckets)
    ∷ new_exporter cfg.jaeger_endpoint
    ∷ set_tracer_provider "go-gateway"
    ∷ set_propagator
    ∷ new_client (dial cfg)
    ∷ connect
    ∷ listen_and_serve (server cfg)
    ∷ []

-- How many of these calls are made: all, or those up to the one that fails.
abbrev dialing_calls : World → ℕ
dialing_calls w = if w.dial_fails then 1 else 3

abbrev tracing_calls : World → ℕ
tracing_calls w = if w.exporter_fails then 1 else suc (suc (suc (dialing_calls w)))

abbrev pub calls_made : World → ℕ
calls_made w = if w.name_taken then 1 else suc (tracing_calls w)

module _ (def_buckets : List ℕ) (cfg : Config) (w : World) where
  -- The process exits with 0 exactly if nothing of its startup fails and a signal comes before the
  -- server fails.
  main_exit : ((main def_buckets cfg w).1 ≡ 0) ↔ GoesWell w
  unfolding main registering tracing dialing serving stop
  main_exit = ground arith

-- What holds of the rest of `main` from some point on, with the startup calls that are left.
pub record IsOrderly (cfg : Config) (left : List Action) (n : ℕ) (r : Run) : Type 0 where
  pub cleans : deferred r.0 ≡ (if r.1 == 0 then cancel ∷ close_conn ∷ shutdown_tracer ∷ [] else [])
  pub ordered : startup r.0 ≡ take n left
  pub serves : All (λ s. s ≡ server cfg) (servers r.0)

module _ (cfg : Config) (w : World) where
  stop-IsOrderly : IsOrderly cfg [] 0 (stop cfg w)
  unfolding stop
  stop-IsOrderly = elim (Bool-cases w.shutdown_fails) [
    | inl late ↦ rw late (record { cleans = refl; ordered = refl; serves = tt })
    | inr in_time ↦ rw in_time (record { cleans = refl; ordered = refl; serves = tt })
  ]

  serving-IsOrderly : IsOrderly cfg (listen_and_serve (server cfg) ∷ []) 1 (serving cfg w)
  unfolding serving
  serving-IsOrderly = elim (Bool-cases w.server_fails) [
    | inl fails ↦ rw fails (record { cleans = refl; ordered = refl; serves = (refl, tt) })
    | inr runs ↦
        let rest = stop-IsOrderly in
        rw runs (record {
          cleans = rest.cleans;
          ordered = ap (λ u. listen_and_serve (server cfg) ∷ u) rest.ordered;
          serves = (refl, rest.serves);
        })
  ]

  dialing-IsOrderly :
      IsOrderly cfg
        (new_client (dial cfg) ∷ connect ∷ listen_and_serve (server cfg) ∷ [])
        (dialing_calls w)
        (dialing cfg w)
  unfolding dialing
  dialing-IsOrderly = elim (Bool-cases w.dial_fails) [
    | inl fails ↦ rw fails (record { cleans = refl; ordered = refl; serves = tt })
    | inr dials ↦
        let rest = serving-IsOrderly in
        rw dials (record {
          cleans = rest.cleans;
          ordered = ap (λ u. new_client (dial cfg) ∷ connect ∷ u) rest.ordered;
          serves = rest.serves;
        })
  ]

  tracing-IsOrderly :
      IsOrderly cfg
        (new_exporter cfg.jaeger_endpoint
          ∷ set_tracer_provider "go-gateway"
          ∷ set_propagator
          ∷ new_client (dial cfg)
          ∷ connect
          ∷ listen_and_serve (server cfg)
          ∷ [])
        (tracing_calls w)
        (tracing cfg w)
  unfolding tracing
  tracing-IsOrderly = elim (Bool-cases w.exporter_fails) [
    | inl fails ↦ rw fails (record { cleans = refl; ordered = refl; serves = tt })
    | inr traces ↦
        let rest = dialing-IsOrderly in
        rw traces (record {
          cleans = rest.cleans;
          ordered =
              ap
                (λ u.
                  new_exporter cfg.jaeger_endpoint
                  ∷ set_tracer_provider "go-gateway"
                  ∷ set_propagator
                  ∷ u)
                rest.ordered;
          serves = rest.serves;
        })
  ]

  registering-IsOrderly :
      (def_buckets : List ℕ)
      → IsOrderly cfg
          (documented_order def_buckets cfg)
          (calls_made w)
          (registering def_buckets cfg w)
  unfolding registering
  registering-IsOrderly def_buckets = elim (Bool-cases w.name_taken) [
    | inl taken ↦ rw taken (record { cleans = refl; ordered = refl; serves = tt })
    | inr free ↦
        let rest = tracing-IsOrderly in
        rw free (record {
          cleans = rest.cleans;
          ordered = ap (λ u. must_register (register def_buckets) ∷ u) rest.ordered;
          serves = rest.serves;
        })
  ]

  pub main-IsOrderly :
      (def_buckets : List ℕ)
      → IsOrderly cfg (documented_order def_buckets cfg) (calls_made w) (main def_buckets cfg w)
  unfolding main server
  main-IsOrderly def_buckets = elim (Bool-cases cfg.pprof_enabled) [
    | inl on ↦
        let rest = registering-IsOrderly def_buckets in
        rw on (record { cleans = rest.cleans; ordered = rest.ordered; serves = rest.serves })
    | inr off ↦
        let rest = registering-IsOrderly def_buckets in
        rw off (record { cleans = rest.cleans; ordered = rest.ordered; serves = rest.serves })
  ]

module _ (def_buckets : List ℕ) (cfg : Config) (w : World) where
  -- The deferred calls run exactly if the process exits with 0: the context is cancelled, then the
  -- connection closed, then the tracer shut down, each once.
  main-deferred :
      deferred (main def_buckets cfg w).0
      ≡ (if (main def_buckets cfg w).1 == 0 then cancel ∷ close_conn ∷ shutdown_tracer ∷ [] else [])
  unfolding main registering tracing dialing serving stop
  main-deferred = (main-IsOrderly cfg w def_buckets).cleans
