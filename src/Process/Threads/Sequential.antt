-- ===== src/Process/Threads/Sequential.antt =====
-- The goroutines of service_go/main.go against `main` as one sequence of calls.
use mathlib.Core.List.{append-nil}
use ai_gateway_monitor.Common.{
  ℕ, suc, zero, ◌<◌, ◌≡◌, ◌⊎◌, inl, inr, refl, ap, sym, ◌∙◌, true, false, some, List, [], ◌∷◌, ◌++◌,
  arith, if◌then◌else◌,
}
use mathlib.Core.Path.{subst}
use ai_gateway_monitor.Config.{Config}
use ai_gateway_monitor.Process.{
  Action, log_info, log_error, notify, signal, shutdown, cancel, close_conn, shutdown_tracer, World,
  main,
}
use ai_gateway_monitor.Process.Threads.{
  Pc, place, listening, notifying, waiting, stopping, draining, cancelling, closing, flushing,
  exporting, providing, connecting, returned, broken, Threads, at_start, exited, Reaches,
}
use ai_gateway_monitor.Process.Threads.Soundness.{IsSound, EndsAt, calls, Reaches-IsSound}

abbrev pub without_logs : List Action → List Action
without_logs [] = []
without_logs (log_info text ∷ done) = without_logs done
without_logs (log_error text ∷ done) = without_logs done
without_logs (call ∷ done) = call ∷ without_logs done

abbrev smooth : World
smooth = record {
  name_taken = false;
  exporter_fails = false;
  dial_fails = false;
  server_fails = false;
  shutdown_fails = false;
}

-- How far `main` comes in a world.
abbrev pub reached : World → ℕ
reached w =
    if w.name_taken
    then place exporting
    else if w.exporter_fails
    then place providing
    else if w.dial_fails
    then place connecting
    else if w.server_fails
    then place notifying
    else place returned

module _ (def_buckets : List ℕ) (cfg : Config) where
  -- The calls of `main` in a world are those that were made, up to calls of `main` that it makes
  -- while the goroutine of the server ends the process.
  abbrev pub Realises : World → ℕ → List Action → Type 0
  Realises w status done =
      ((main def_buckets cfg w).1 ≡ status)
      × ((extra : List Action) × (done ≡ without_logs (main def_buckets cfg w).0 ++ extra)
          × ((extra ≡ []) ⊎ (w.server_fails ≡ true)))

  -- The calls of `main` are those before the place where it ends.
  pub main-calls :
      (w : World) → without_logs (main def_buckets cfg w).0 ≡ calls def_buckets cfg (reached w)
  unfolding main
  main-calls w = ground arith

  to_draining : List Action
  to_draining = notify ∷ signal ∷ shutdown cfg.shutdown_timeout ∷ []

  calls_extend :
      (p : Pc)
      → place listening < place p
      → (extra : List Action) × (calls def_buckets cfg (place p) ≡ calls def_buckets cfg 7 ++ extra)
  unfolding to_draining
  calls_extend notifying h = ([], ground arith)
  calls_extend waiting h = (notify ∷ [], ground arith)
  calls_extend stopping h = (notify ∷ signal ∷ [], ground arith)
  calls_extend draining h = (to_draining, ground arith)
  calls_extend cancelling h = (to_draining, ground arith)
  calls_extend closing h = (to_draining ++ cancel ∷ [], ground arith)
  calls_extend flushing h = (to_draining ++ cancel ∷ close_conn ∷ [], ground arith)
  calls_extend returned h =
      (to_draining ++ cancel ∷ close_conn ∷ shutdown_tracer ∷ [], ground arith)
  calls_extend _ h = absurd (omega (arith, h))

  Realises-at :
      {s : Threads} (w : World)
      → IsSound def_buckets cfg s
      → place s.pc ≡ reached w
      → Realises w (main def_buckets cfg w).1 s.done
  Realises-at {s = s} w i at = (
    refl,
    (
      [],
      i.made ∙ ap (calls def_buckets cfg) at ∙ sym (main-calls w) ∙ sym (append-nil _),
      inl refl,
    ),
  )

  broken_calls :
      {s : Threads}
      → IsSound def_buckets cfg s
      → s.serving ≡ broken
      → Realises (record smooth { server_fails = true }) 1 s.done
  unfolding main
  broken_calls {s = s} i broke =
      let w = record smooth { server_fails = true } in
      let (extra, more) = calls_extend s.pc (ground arith) in
      (refl, (extra, i.made ∙ more ∙ ap (λ xs. xs ++ extra) (sym (main-calls w)), inr refl))

  Realises-of-EndsAt :
      {s : Threads} (n : ℕ)
      → IsSound def_buckets cfg s
      → EndsAt (some (exited n)) s.pc s.serving
      → (w : World) × Realises w n s.done
  unfolding main
  Realises-of-EndsAt zero i at = (smooth, Realises-at smooth i (ap place at))
  Realises-of-EndsAt (suc zero) i (inl at) =
      let w = record smooth { exporter_fails = true } in (w, Realises-at w i (ap place at))
  Realises-of-EndsAt (suc zero) i (inr (inl at)) =
      let w = record smooth { dial_fails = true } in (w, Realises-at w i (ap place at))
  Realises-of-EndsAt (suc zero) i (inr (inr broke)) =
      (record smooth { server_fails = true }, broken_calls i broke)
  Realises-of-EndsAt (suc (suc n)) i (two, at) =
      let w = record smooth { name_taken = true } in (w, rw two (Realises-at w i (ap place at)))

  -- If the goroutines end with an exit status, `main` as one sequence of calls has that status in
  -- some world, and the calls that were made, without the log records, are those of `main` there,
  -- or, where the server fails, start with those.
  pub ends_as_main :
      {s : Threads} {n : ℕ}
      → Reaches def_buckets cfg at_start s
      → s.end ≡ some (exited n)
      → (w : World) × Realises w n s.done
  ends_as_main {s = s} {n} r e =
      let i = Reaches-IsSound def_buckets cfg r in
      Realises-of-EndsAt n i (subst (λ x. EndsAt x s.pc s.serving) e i.ends)
