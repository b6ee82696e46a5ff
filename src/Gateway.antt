-- ===== src/Gateway.antt =====
-- service_go as a whole: the goroutines of main.go, with the requests that its server has in flight
-- running the handlers that router.go registers.
pub mod Draining
pub mod Graceful
mod Examples
use ai_gateway_monitor.Common.{ℕ, suc, ◌≡◌, Option, none, List, [], ◌∷◌, ◌++◌}
use ai_gateway_monitor.Config.{Config}
use ai_gateway_monitor.Http.{Event}
use ai_gateway_monitor.Router.{Route}
use ai_gateway_monitor.Router.Exchanges.{Exchange, Acts}
use ai_gateway_monitor.Process.Threads.{Threads, at_start, Step}

-- The goroutines, the requests in flight, those whose handlers have returned, and what all of them
-- did.
pub record Gateway : Type 0 where
  pub threads : Threads
  pub active : List Exchange
  pub answered : List Exchange
  pub log : List Event

abbrev pub started : Gateway
started = record { threads = at_start; active = []; answered = []; log = [] }

-- One of the requests in flight is taken out.
pub data Leaves : List Exchange → Exchange → List Exchange → Type 0 where
  this : (x : Exchange) (xs : List Exchange) → Leaves (x ∷ xs) x xs
  other :
      (y : Exchange) {x : Exchange} {xs ys : List Exchange}
      → Leaves xs x ys
      → Leaves (y ∷ xs) x (y ∷ ys)

module _ (def_buckets : List ℕ) (cfg : Config) (Serves : Route → List Event → Type 0) where
  pub data GatewayStep (s : Gateway) : Gateway → Type 0 where
    -- a step of the goroutines by which no request comes or goes
    thread :
        (t : Threads)
        → Step def_buckets cfg s.threads t
        → t.in_flight ≡ s.threads.in_flight
        → GatewayStep s (record s { threads = t })
    -- a request comes in for a route
    arrive :
        (route : Route) (trace : List Event)
        → Serves route trace
        → Step def_buckets cfg s.threads (record s.threads { in_flight = suc s.threads.in_flight })
        → GatewayStep s (record s {
          threads = record s.threads { in_flight = suc s.threads.in_flight };
          active = record { route = route; done = []; rest = trace } ∷ s.active;
        })
    -- a handler does its next event
    act :
        {ys : List Exchange} (e : Event)
        → s.threads.end ≡ none
        → Acts s.active e ys
        → GatewayStep s (record s { active = ys; log = s.log ++ e ∷ [] })
    -- a handler has returned
    answer :
        {ys : List Exchange} (x : Exchange) (n : ℕ)
        → Leaves s.active x ys
        → x.rest ≡ []
        → s.threads.in_flight ≡ suc n
        → Step def_buckets cfg s.threads (record s.threads { in_flight = n })
        → GatewayStep s (record s {
          threads = record s.threads { in_flight = n };
          active = ys;
          answered = x ∷ s.answered;
        })

  pub data GatewayReaches (s : Gateway) : Gateway → Type 0 where
    here : GatewayReaches s s
    next : {t u : Gateway} → GatewayReaches s t → GatewayStep t u → GatewayReaches s u
