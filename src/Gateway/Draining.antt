-- ===== src/Gateway/Draining.antt =====
-- A graceful exit, from the signal to the metrics.
use ai_gateway_monitor.Common.{
  ℕ, suc, ◌+◌, ◌≡◌, refl, ap, sym, ◌∙◌, some, false, String, List, [], ◌∷◌, All, length, arith, inr,
  inl, ◌⊎◌, ◌<◌,
}
use ai_gateway_monitor.Config.{Config}
use ai_gateway_monitor.Http.{Event}
use ai_gateway_monitor.Http.Totals.{
  requests_total, duration_count, requests_total-append, duration_count-append,
}
use ai_gateway_monitor.Router.{Route}
use ai_gateway_monitor.Router.Exchanges.{
  Exchange, Acts, now, later, sum_done, sum_done-Acts, IsMeasured, Acts-IsMeasured, arrivals,
  outstanding, totals_bounds, totals_outstanding,
}
use ai_gateway_monitor.Process.Threads.{Threads, at_start, Step, Reaches, exited}
use ai_gateway_monitor.Process.Threads as Thread
use ai_gateway_monitor.Process.Threads.Shutdown.{in_flight_served}
use ai_gateway_monitor.Gateway.{
  Gateway, started, Leaves, this, other, GatewayStep, thread, arrive, act, answer, GatewayReaches,
  here, next,
}

zero_or_pos : (n : ℕ) → (n ≡ 0) ⊎ (0 < n)
zero_or_pos n = ground arith

length-zero : (xs : List Exchange) → length xs ≡ 0 → xs ≡ []
length-zero [] h = refl
length-zero (x ∷ xs) h = absurd (omega (arith, h))

length-Acts : {xs ys : List Exchange} {e : Event} → Acts xs e ys → length ys ≡ length xs
length-Acts (now x others e rest h) = refl
length-Acts (later x a) = omega (arith, length-Acts a)

length-Leaves :
    {xs ys : List Exchange} {x : Exchange} → Leaves xs x ys → length xs ≡ suc (length ys)
length-Leaves (this x xs) = refl
length-Leaves (other y l) = omega (arith, length-Leaves l)

sum_done-Leaves :
    (f : List Event → ℕ) {xs ys : List Exchange} {x : Exchange}
    → Leaves xs x ys
    → sum_done f xs ≡ f x.done + sum_done f ys
sum_done-Leaves f (this x xs) = refl
sum_done-Leaves f (other y l) = omega (arith, sum_done-Leaves f l)

All-Leaves :
    (P : Exchange → Type 0) {xs ys : List Exchange} {x : Exchange}
    → Leaves xs x ys
    → All P xs
    → P x × All P ys
All-Leaves P (this x xs) h = h
All-Leaves P (other y l) h = let (px, rest) = All-Leaves P l h.1 in (px, (h.0, rest))

-- All requests have been served, and what they did for a path is accounted for.
abbrev pub IsSettled : String → Gateway → Type 0
IsSettled path s =
    (s.active ≡ [])
    × All (λ x. x.rest ≡ []) s.answered
    × (requests_total path s.log ≡ arrivals path s.answered)
    × (duration_count path s.log ≡ arrivals path s.answered)

module _ (def_buckets : List ℕ) (cfg : Config) (Serves : Route → List Event → Type 0)
    (path : String)
    (measured : (route : Route) (t : List Event)
      → Serves route t
      → IsMeasured path (record { route = route; done = []; rest = t })) where
  record IsAccounted (s : Gateway) : Type 0 where
    reached : Reaches def_buckets cfg at_start s.threads
    flying : s.threads.in_flight ≡ length s.active
    active_measured : All (IsMeasured path) s.active
    answered_measured : All (IsMeasured path) s.answered
    finished : All (λ x. x.rest ≡ []) s.answered
    requests :
        requests_total path s.log
        ≡ sum_done (requests_total path) s.active + sum_done (requests_total path) s.answered
    durations :
        duration_count path s.log
        ≡ sum_done (duration_count path) s.active + sum_done (duration_count path) s.answered

  step-IsAccounted :
      {s t : Gateway} → IsAccounted s → GatewayStep def_buckets cfg Serves s t → IsAccounted t
  step-IsAccounted i (thread t step same) = record {
    reached = Thread.next i.reached step;
    flying = same ∙ i.flying;
    active_measured = i.active_measured;
    answered_measured = i.answered_measured;
    finished = i.finished;
    requests = i.requests;
    durations = i.durations;
  }
  step-IsAccounted i (arrive route trace serves step) = record {
    reached = Thread.next i.reached step;
    flying = omega (arith, i.flying);
    active_measured = (measured route trace serves, i.active_measured);
    answered_measured = i.answered_measured;
    finished = i.finished;
    requests = omega (arith, i.requests);
    durations = omega (arith, i.durations);
  }
  step-IsAccounted {s = s} i (act e up a) = record {
    reached = i.reached;
    flying = omega (arith, i.flying, length-Acts a);
    active_measured = Acts-IsMeasured path a i.active_measured;
    answered_measured = i.answered_measured;
    finished = i.finished;
    requests = omega (
      arith,
      i.requests,
      requests_total-append path s.log (e ∷ []),
      sum_done-Acts (requests_total path) (λ t e. requests_total-append path t (e ∷ [])) a,
    );
    durations = omega (
      arith,
      i.durations,
      duration_count-append path s.log (e ∷ []),
      sum_done-Acts (duration_count path) (λ t e. duration_count-append path t (e ∷ [])) a,
    );
  }
  step-IsAccounted i (answer x n leaves done some_ step) =
      let (x_measured, rest_measured) = All-Leaves (IsMeasured path) leaves i.active_measured in
      record {
        reached = Thread.next i.reached step;
        flying = omega (arith, i.flying, some_, length-Leaves leaves);
        active_measured = rest_measured;
        answered_measured = (x_measured, i.answered_measured);
        finished = (done, i.finished);
        requests = omega (arith, i.requests, sum_done-Leaves (requests_total path) leaves);
        durations = omega (arith, i.durations, sum_done-Leaves (duration_count path) leaves);
      }

  reached-IsAccounted :
      {s : Gateway} → GatewayReaches def_buckets cfg Serves started s → IsAccounted s
  reached-IsAccounted here = record {
    reached = Thread.here;
    flying = refl;
    active_measured = tt;
    answered_measured = tt;
    finished = tt;
    requests = refl;
    durations = refl;
  }
  reached-IsAccounted (next r step) = step-IsAccounted (reached-IsAccounted r) step

  no_outstanding : (xs : List Exchange) → All (λ x. x.rest ≡ []) xs → outstanding path xs ≡ 0
  no_outstanding [] h = refl
  no_outstanding (x ∷ xs) (done, rest) =
      omega (arith, ap (duration_count path) done, no_outstanding xs rest)

  idle_after_exit :
      {s : Threads}
      → Reaches def_buckets cfg at_start s
      → s.end ≡ some (exited 0)
      → s.forced ≡ false
      → s.in_flight ≡ 0
  idle_after_exit {s = s} r ended unforced = elim (zero_or_pos s.in_flight) [
    | inl none_left ↦ none_left
    | inr busy ↦ cc ((in_flight_served def_buckets cfg r (inr ended) unforced busy).0)
  ]

  settled : {s : Gateway} → IsAccounted s → s.threads.in_flight ≡ 0 → IsSettled path s
  settled {s = s} i idle =
      let none_active = length-zero s.active (sym i.flying ∙ idle) in
      let bounds = totals_bounds path s.answered i.answered_measured in
      let all_observed = totals_outstanding path s.answered i.answered_measured in
      let requests =
        i.requests
        ∙ ap (λ xs. sum_done (requests_total path) xs + sum_done (requests_total path) s.answered)
            none_active in
      let durations =
        i.durations
        ∙ ap (λ xs. sum_done (duration_count path) xs + sum_done (duration_count path) s.answered)
            none_active in
      (
        none_active,
        i.finished,
        omega (arith, requests, bounds, all_observed, no_outstanding s.answered i.finished),
        omega (arith, durations, all_observed, no_outstanding s.answered i.finished),
      )

  pub exit-IsSettled :
      {s : Gateway}
      → GatewayReaches def_buckets cfg Serves started s
      → s.threads.end ≡ some (exited 0)
      → s.threads.forced ≡ false
      → IsSettled path s
  exit-IsSettled r ended unforced =
      let i = reached-IsAccounted r in settled i (idle_after_exit i.reached ended unforced)
