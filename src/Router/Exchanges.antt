-- ===== src/Router/Exchanges.antt =====
-- Requests that are served side by side, event by event, as net/http serves each in a goroutine.
use mathlib.Core.Path.{subst}
use ai_gateway_monitor.Common.{
  ℕ, ◌+◌, ◌≤◌, ◌≡◌, refl, ap, String, List, [], ◌∷◌, ◌++◌, All, arith, inl, inr, ◌⊎◌,
}
use ai_gateway_monitor.Http.{Event, observe_http}
use ai_gateway_monitor.Http.Totals.{
  occurrences, requests_total, duration_count, requests_total-append, duration_count-append,
  TimesLast,
}
use ai_gateway_monitor.Router.{Route}
use ai_gateway_monitor.Router.Accounting.{labels}

-- A request to a route: what was done for it, and what is still to be done.
pub record Exchange : Type 0 where
  pub route : Route
  pub done : List Event
  pub rest : List Event

-- One of the requests does its next event.
pub data Acts : List Exchange → Event → List Exchange → Type 0 where
  now :
      (x : Exchange) (others : List Exchange) (e : Event) (rest : List Event)
      → x.rest ≡ e ∷ rest
      → Acts (x ∷ others) e (record x { done = x.done ++ e ∷ []; rest = rest } ∷ others)
  later :
      (x : Exchange) {xs ys : List Exchange} {e : Event} → Acts xs e ys → Acts (x ∷ xs) e (x ∷ ys)

-- `Serves route t`: a request to the route does the events t. Requests arrive at any time.
pub data Interleaves (Serves : Route → List Event → Type 0)
    : List Exchange → List Event → Type 0 where
  idle : Interleaves Serves [] []
  arrive :
      {xs : List Exchange} {log : List Event} (route : Route) (t : List Event)
      → Serves route t
      → Interleaves Serves xs log
      → Interleaves Serves (record { route = route; done = []; rest = t } ∷ xs) log
  act :
      {xs ys : List Exchange} {log : List Event} {e : Event}
      → Interleaves Serves xs log
      → Acts xs e ys
      → Interleaves Serves ys (log ++ e ∷ [])

-- The requests that came to routes with this path that are measured.
abbrev pub arrivals : String → List Exchange → ℕ
arrivals path [] = 0
arrivals path (x ∷ xs) = occurrences path (labels x.route.method x.route.path) + arrivals path xs

-- The durations that are still to be observed for them.
abbrev pub outstanding : String → List Exchange → ℕ
outstanding path [] = 0
outstanding path (x ∷ xs) = duration_count path x.rest + outstanding path xs

-- What is measured of a request, for one path.
pub record IsMeasured (path : String) (x : Exchange) : Type 0 where
  pub requests :
      requests_total path x.done + requests_total path x.rest
      ≡ occurrences path (labels x.route.method x.route.path)
  pub durations :
      duration_count path x.done + duration_count path x.rest
      ≡ occurrences path (labels x.route.method x.route.path)
  pub timed_last : TimesLast x.rest
  pub ordered : duration_count path x.done ≤ requests_total path x.done

-- A number of each request's events so far, summed.
abbrev pub sum_done : (List Event → ℕ) → List Exchange → ℕ
sum_done f [] = 0
sum_done f (x ∷ xs) = f x.done + sum_done f xs

pub sum_done-Acts :
    (f : List Event → ℕ)
    → ((t : List Event) (e : Event) → f (t ++ e ∷ []) ≡ f t + f (e ∷ []))
    → {xs ys : List Exchange} {e : Event} → Acts xs e ys
    → sum_done f ys ≡ sum_done f xs + f (e ∷ [])
sum_done-Acts f add (now x others e rest h) = omega (arith, add x.done e)
sum_done-Acts f add (later x a) = omega (arith, sum_done-Acts f add a)

module _ (path : String) where
  TimesLast-tail :
      (e : Event) (rest : List Event)
      → TimesLast (e ∷ rest)
      → TimesLast rest
        × ((requests_total path rest + duration_count path rest ≡ 0)
            ⊎ (duration_count path (e ∷ []) ≡ 0))
  TimesLast-tail (observe_http p) rest h = (rw h tt, inl (rw h refl))
  TimesLast-tail _ rest h = (h, inr refl)

  step-IsMeasured :
      (x : Exchange) (e : Event) (rest : List Event)
      → x.rest ≡ e ∷ rest
      → IsMeasured path x
      → IsMeasured path (record x { done = x.done ++ e ∷ []; rest = rest })
  step-IsMeasured x e rest h m =
      let (times_last, last) = TimesLast-tail e rest (subst TimesLast h m.timed_last) in
      let rest_requests = requests_total-append path (e ∷ []) rest in
      let rest_durations = duration_count-append path (e ∷ []) rest in
      let done_requests = requests_total-append path x.done (e ∷ []) in
      let done_durations = duration_count-append path x.done (e ∷ []) in
      let split_requests = ap (requests_total path) h in
      let split_durations = ap (duration_count path) h in
      record {
        requests = omega arith;
        durations = omega arith;
        timed_last = times_last;
        ordered = omega arith;
      }

  pub Acts-IsMeasured :
      {xs ys : List Exchange} {e : Event}
      → Acts xs e ys
      → All (IsMeasured path) xs
      → All (IsMeasured path) ys
  Acts-IsMeasured (now x others e rest h) (m, ms) = (step-IsMeasured x e rest h m, ms)
  Acts-IsMeasured (later x a) (m, ms) = (m, Acts-IsMeasured a ms)

  pub totals_bounds :
      (xs : List Exchange)
      → All (IsMeasured path) xs
      → (sum_done (duration_count path) xs ≤ sum_done (requests_total path) xs)
        × (sum_done (requests_total path) xs ≤ arrivals path xs)
  totals_bounds [] m = (omega arith, omega arith)
  totals_bounds (x ∷ xs) (m, ms) =
      let ih = totals_bounds xs ms in (omega (arith, m, ih), omega (arith, m, ih))

  pub totals_outstanding :
      (xs : List Exchange)
      → All (IsMeasured path) xs
      → sum_done (duration_count path) xs + outstanding path xs ≡ arrivals path xs
  totals_outstanding [] m = refl
  totals_outstanding (x ∷ xs) (m, ms) = omega (arith, m, totals_outstanding xs ms)

  module _ (Serves : Route → List Event → Type 0)
      (measured : (route : Route) (t : List Event)
        → Serves route t
        → IsMeasured path (record { route = route; done = []; rest = t })) where
    Interleaves-IsMeasured :
        {xs : List Exchange} {log : List Event}
        → Interleaves Serves xs log
        → All (IsMeasured path) xs
    Interleaves-IsMeasured idle = tt
    Interleaves-IsMeasured (arrive route t s i) = (measured route t s, Interleaves-IsMeasured i)
    Interleaves-IsMeasured (act i a) = Acts-IsMeasured a (Interleaves-IsMeasured i)

    log_sum :
        (f : List Event → ℕ)
        → f [] ≡ 0
        → ((t : List Event) (e : Event) → f (t ++ e ∷ []) ≡ f t + f (e ∷ []))
        → {xs : List Exchange} {log : List Event} → Interleaves Serves xs log
        → f log ≡ sum_done f xs
    log_sum f empty add idle = empty
    log_sum f empty add (arrive route t s i) = omega (arith, empty, log_sum f empty add i)
    log_sum f empty add (act {log = log} {e = e} i a) =
        omega (arith, add log e, log_sum f empty add i, sum_done-Acts f add a)

    pub Interleaves-totals :
        {xs : List Exchange} {log : List Event}
        → Interleaves Serves xs log
        → (duration_count path log ≤ requests_total path log)
          × (requests_total path log ≤ arrivals path xs)
          × (duration_count path log + outstanding path xs ≡ arrivals path xs)
    Interleaves-totals {xs = xs} i =
        let m = Interleaves-IsMeasured i in
        let r =
          log_sum (requests_total path) refl (λ t e. requests_total-append path t (e ∷ [])) i in
        let d =
          log_sum (duration_count path) refl (λ t e. duration_count-append path t (e ∷ [])) i in
        let bounds = totals_bounds xs m in
        (
          omega (arith, r, d, bounds),
          omega (arith, r, d, bounds),
          omega (arith, d, totals_outstanding xs m),
        )
