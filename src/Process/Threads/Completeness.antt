-- ===== src/Process/Threads/Completeness.antt =====
-- Every world of `main` as one sequence of calls is a run of the goroutines.
use ai_gateway_monitor.Common.{
  ℕ, ◌≡◌, refl, ap, sym, ◌∙◌, Bool, true, false, String, some, List, [], ◌∷◌, arith, str_eq, ltb,
  if◌then◌else◌, Bool-cases, inl, inr,
}
use ai_gateway_monitor.Config.{Config}
use ai_gateway_monitor.Process.{Action, log_info, log_error, World, main}
use ai_gateway_monitor.Process.Threads.{
  Pc, Serving, unstarted, closed, Resource, absent, open_, off, on, dialing, place, exporting,
  notifying, draining, accepting, Threads, at_start, set_up, register_, register_panics, export_,
  export_fails, provide, dial_, dial_fails, connect_, listen, notify_, signalled, shut_down,
  drained, timed_out, cancel_, close, flush, main_step, break_, exit_, Reaches, here, next, exited,
}
use ai_gateway_monitor.Process.Threads.Soundness.{calls, Reaches-IsSound}
use ai_gateway_monitor.Process.Threads.Sequential.{without_logs, reached, main-calls}

-- The texts that are logged, but for the two that say that a server is running.
abbrev pub records : List Action → List String
records [] = []
records (log_info text ∷ rest) =
    let others = records rest in if str_eq text "Go Gateway running" then others else text ∷ others
records (log_error text ∷ rest) = text ∷ records rest
records (_ ∷ rest) = records rest

module _ (def_buckets : List ℕ) (cfg : Config) where
  -- The goroutines run to the end that `main` has in the world, at the place that it comes to, and
  -- log what it logs.
  abbrev Ends : World → Type 0
  Ends w =
      (s : Threads) × Reaches def_buckets cfg at_start s
      × (s.end ≡ some (exited (main def_buckets cfg w).1))
      × (place s.pc ≡ reached w)
      × (s.log ≡ records (main def_buckets cfg w).0)

  -- The state at a place, with the server in a state, if nothing went wrong.
  abbrev state : Pc → Serving → Resource → Threads
  state p serving conn = record at_start {
    pc = p;
    done = calls def_buckets cfg (place p);
    serving = serving;
    pprof = if cfg.pprof_enabled then on else off;
    tracer = if ltb (place p) 4 then absent else open_;
    conn = conn;
  }

  to_exporting : Reaches def_buckets cfg at_start (state exporting unstarted absent)
  to_exporting = next (next here (main_step refl refl set_up)) (main_step refl refl register_)

  to_dialing : Reaches def_buckets cfg at_start (state dialing unstarted absent)
  to_dialing = next (next to_exporting (main_step refl refl export_)) (main_step refl refl provide)

  to_notifying : Reaches def_buckets cfg at_start (state notifying accepting open_)
  to_notifying =
      next (next (next to_dialing (main_step refl refl dial_)) (main_step refl refl connect_))
        (main_step refl refl listen)

  to_draining :
      Reaches def_buckets cfg at_start
        (record (state draining closed open_) { log = "Shutting down gracefully..." ∷ [] })
  to_draining =
      next (next (next to_notifying (main_step refl refl notify_)) (main_step refl refl signalled))
        (main_step refl refl shut_down)

  panicked : (w : World) → w.name_taken ≡ true → Ends w
  unfolding main
  panicked w taken = (
    _,
    next (next here (main_step refl refl set_up)) (main_step refl refl register_panics),
    ground arith,
    ground arith,
    ground arith,
  )

  module _ (w : World) (untaken : w.name_taken ≡ false) where
    unexported : w.exporter_fails ≡ true → Ends w
    unfolding main
    unexported fails = (
      _,
      next to_exporting (main_step refl refl export_fails),
      ground arith,
      ground arith,
      ground arith,
    )

    module _ (exports : w.exporter_fails ≡ false) where
      unconnected : w.dial_fails ≡ true → Ends w
      unfolding main
      unconnected fails = (
        _,
        next to_dialing (main_step refl refl dial_fails),
        ground arith,
        ground arith,
        ground arith,
      )

      module _ (dials : w.dial_fails ≡ false) where
        unserved : w.server_fails ≡ true → Ends w
        unfolding main
        unserved fails = (
          _,
          next (next to_notifying (break_ refl refl)) (exit_ refl refl),
          ground arith,
          ground arith,
          ground arith,
        )

        stopped : (forced : Bool) → w.shutdown_fails ≡ forced → w.server_fails ≡ false → Ends w
        unfolding main
        stopped false in_time serves = (
          _,
          next
              (next
                (next (next to_draining (main_step refl refl (drained refl)))
                  (main_step refl refl cancel_))
                (main_step refl refl close))
              (main_step refl refl flush),
          ground arith,
          ground arith,
          ground arith,
        )
        stopped true late serves = (
          _,
          next
              (next
                (next (next to_draining (main_step refl refl timed_out))
                  (main_step refl refl cancel_))
                (main_step refl refl close))
              (main_step refl refl flush),
          ground arith,
          ground arith,
          ground arith,
        )

  ends : (w : World) → Ends w
  ends w = elim (Bool-cases w.name_taken) [
    | inl taken ↦ panicked w taken
    | inr untaken ↦ elim (Bool-cases w.exporter_fails) [
      | inl fails ↦ unexported w untaken fails
      | inr exports ↦ elim (Bool-cases w.dial_fails) [
        | inl fails ↦ unconnected w untaken exports fails
        | inr dials ↦ elim (Bool-cases w.server_fails) [
          | inl fails ↦ unserved w untaken exports dials fails
          | inr serves ↦ stopped w untaken exports dials w.shutdown_fails refl serves
        ]
      ]
    ]
  ]

  -- In every world, the goroutines have a run that ends with the exit status of `main` as one
  -- sequence of calls, that makes the calls of `main`, in order, and logs its records, but for the
  -- two that say that a server is running.
  pub main_is_reached :
      (w : World)
      → (s : Threads) × Reaches def_buckets cfg at_start s
        × (s.end ≡ some (exited (main def_buckets cfg w).1))
        × (s.done ≡ without_logs (main def_buckets cfg w).0)
        × (s.log ≡ records (main def_buckets cfg w).0)
  main_is_reached w =
      let (s, r, ended, at, logs) = ends w in
      (
        s,
        r,
        ended,
        (Reaches-IsSound def_buckets cfg r).made
            ∙ ap (calls def_buckets cfg) at
            ∙ sym (main-calls def_buckets cfg w),
        logs,
      )
