-- ===== src/Gateway/Graceful.antt =====
-- The graceful exit of the gateway with the handlers of its routes.
use ai_gateway_monitor.Common.{ℕ, ◌≡◌, Bool, String, some, false, List, []}
use ai_gateway_monitor.Config.{Config}
use ai_gateway_monitor.Proto.{Float32}
use ai_gateway_monitor.Proto.Clients.{ClientConn}
use ai_gateway_monitor.Http.{Event, Context}
use ai_gateway_monitor.ApiError.{GrpcErrors}
use ai_gateway_monitor.Health.{Connectivity, ConnStateProvider}
use ai_gateway_monitor.Model.{step, StepFunction, Received}
use ai_gateway_monitor.Model.Rounds.{Rounds}
use ai_gateway_monitor.Router.Accounting.{Accounts}
use ai_gateway_monitor.Router.Scrapes.{Serves, Serves-IsMeasured}
use ai_gateway_monitor.Process.Threads.{exited}
use ai_gateway_monitor.Gateway.{Gateway, started, GatewayReaches}
use ai_gateway_monitor.Gateway.Draining.{IsSettled, exit-IsSettled}

module _ (g : GrpcErrors) {S : Type 0} (conn : ClientConn g.Err S) (recv : S → Received g.Err × S)
    (gin_stream : StepFunction S → S → List Event × Bool)
    (order : List (String × Float32) → List (String × Float32)) (k : Connectivity) {C : Type 0}
    (provider : ConnStateProvider C) (exposition : List Event) (def_buckets : List ℕ)
    (cfg : Config) where
  -- Requests to the routes are served by their handlers, with the configuration of the process.
  abbrev pub Runs : Gateway → Type 0
  Runs =
      GatewayReaches def_buckets cfg (Serves g conn recv gin_stream order k provider exposition cfg)
        started

  -- If gin's loop keeps its documented contract and the exposition of the metrics leaves the
  -- gateway's own alone: when the process has exited with 0, and Shutdown did not run out of time,
  -- no request is left in flight, the handler of every request that came has run to its end, and
  -- for every path the counted requests and the observed durations are as many as the requests
  -- that came for predictions under the path.
  pub graceful_exit :
      ((c : Context) (s : S)
        → Rounds
            (step g recv c)
            s
            (gin_stream (step g recv c) s).0
            (gin_stream (step g recv c) s).1)
      → Accounts [] exposition
      → (path : String) {s : Gateway} → Runs s
      → s.threads.end ≡ some (exited 0)
      → s.threads.forced ≡ false
      → IsSettled path s
  graceful_exit documented alone path r ended unforced =
      exit-IsSettled def_buckets cfg (Serves g conn recv gin_stream order k provider exposition cfg)
        path
        (Serves-IsMeasured g conn recv gin_stream order k provider exposition cfg documented alone
          path)
        r ended unforced
