-- ===== src/Router/Scrapes.antt =====
-- What a scrape of the two HTTP metrics can find while the routes serve requests side by side.
use ai_gateway_monitor.Common.{◌+◌, ◌≤◌, ◌≡◌, ap, Bool, String, List, [], ◌∷◌, All, arith}
use ai_gateway_monitor.Config.{Config}
use ai_gateway_monitor.Proto.{Float32}
use ai_gateway_monitor.Proto.Clients.{ClientConn}
use ai_gateway_monitor.Http.{Event, Context}
use ai_gateway_monitor.Http.Counting.{http_timings}
use ai_gateway_monitor.Http.Totals.{
  occurrences, requests_total, duration_count, TimesLast, untimed-TimesLast, deferred-TimesLast,
}
use ai_gateway_monitor.ApiError.{GrpcErrors}
use ai_gateway_monitor.Health.{Connectivity, ConnStateProvider, check, readyz}
use ai_gateway_monitor.Health.Contract.{readyz_unmeasured}
use ai_gateway_monitor.Iris.{body_bound}
use ai_gateway_monitor.Iris.{predict as predict_iris}
use ai_gateway_monitor.Model.{
  admitted, forward, start, step, StepFunction, Received, predict_stream,
}
use ai_gateway_monitor.Model.{predict as predict_model}
use ai_gateway_monitor.Model.Rounds.{Rounds}
use ai_gateway_monitor.Router.{Route, setup, Incoming, serve}
use ai_gateway_monitor.Router.Accounting.{Accounts, labels, setup-Accounts}
use ai_gateway_monitor.Router.Exchanges.{
  Exchange, Interleaves, arrivals, outstanding, IsMeasured, Interleaves-totals,
}

-- A route of the table.
pub data Among (x : Route) : List Route → Type 0 where
  first : {xs : List Route} → Among x (x ∷ xs)
  further : {y : Route} {xs : List Route} → Among x xs → Among x (y ∷ xs)

pub All-Among : (P : Route → Type 0) {x : Route} {xs : List Route} → All P xs → Among x xs → P x
All-Among P h first = h.0
All-Among P h (further a) = All-Among P h.1 a

module _ (g : GrpcErrors) {S : Type 0} (conn : ClientConn g.Err S) (recv : S → Received g.Err × S)
    (gin_stream : StepFunction S → S → List Event × Bool)
    (order : List (String × Float32) → List (String × Float32)) (k : Connectivity) {C : Type 0}
    (provider : ConnStateProvider C) (exposition : List Event) (cfg : Config) where
  -- A request, whatever the pool holds, to a route of the table does the events of the route's handler.
  abbrev pub Serves : Route → List Event → Type 0
  Serves route t =
      Among route setup
      × ((r : Incoming C) × (t
            ≡ serve g conn recv gin_stream order k provider exposition cfg route.handler r))

  predict_iris-TimesLast :
      (r : Incoming C)
      → http_timings (predict_iris g conn cfg order r.context r.iris_body r.picked r.pool).0
        ≡ "/predict/iris" ∷ []
      → TimesLast (predict_iris g conn cfg order r.context r.iris_body r.picked r.pool).0
  unfolding predict_iris
  predict_iris-TimesLast r timed =
      deferred-TimesLast (body_bound g conn cfg order r.context r.iris_body r.picked r.pool).0 _
        timed

  predict_model-TimesLast :
      (r : Incoming C)
      → http_timings (predict_model g conn cfg r.context r.prompt_body) ≡ "/predict/model" ∷ []
      → TimesLast (predict_model g conn cfg r.context r.prompt_body)
  unfolding predict_model
  predict_model-TimesLast r timed =
      deferred-TimesLast (forward g conn cfg r.context (admitted cfg r.prompt_body)) _ timed

  predict_stream-TimesLast :
      (r : Incoming C)
      → http_timings (predict_stream g conn recv gin_stream cfg r.context r.prompt_body)
        ≡ "/predict/model/stream" ∷ []
      → TimesLast (predict_stream g conn recv gin_stream cfg r.context r.prompt_body)
  unfolding predict_stream
  predict_stream-TimesLast r timed =
      deferred-TimesLast (start g conn recv gin_stream cfg r.context (admitted cfg r.prompt_body)) _
        timed

  setup-TimesLast :
      (r : Incoming C)
      → All
          (λ route.
            Accounts
              (labels route.method route.path)
              (serve g conn recv gin_stream order k provider exposition cfg route.handler r))
          setup
      → All
          (λ route.
            TimesLast
              (serve g conn recv gin_stream order k provider exposition cfg route.handler r))
          setup
  unfolding setup serve check
  setup-TimesLast r (exposed, (checked, (readied, (iris, (unary, (streamed, _)))))) = (
    untimed-TimesLast exposition exposed.timed,
    (
      tt,
      (
        untimed-TimesLast (readyz k provider r.channel).0
            (readyz_unmeasured k provider r.channel).0,
        (
          predict_iris-TimesLast r iris.timed,
          (predict_model-TimesLast r unary.timed, (predict_stream-TimesLast r streamed.timed, tt)),
        ),
      ),
    ),
  )

  module _
      (documented : (c : Context) (s : S)
        → Rounds
            (step g recv c)
            s
            (gin_stream (step g recv c) s).0
            (gin_stream (step g recv c) s).1)
      (alone : Accounts [] exposition) where
    pub Serves-IsMeasured :
        (path : String) (route : Route) (t : List Event)
        → Serves route t
        → IsMeasured path (record { route = route; done = []; rest = t })
    Serves-IsMeasured path route t (among, (r, same)) =
        let all =
          setup-Accounts g conn recv gin_stream order k provider exposition cfg documented alone
            r in
        let accounts =
          All-Among
            (λ x.
              Accounts (labels x.method x.path)
                (serve g conn recv gin_stream order k provider exposition cfg x.handler r))
            all among in
        let last =
          All-Among
            (λ x.
              TimesLast (serve g conn recv gin_stream order k provider exposition cfg x.handler r))
            (setup-TimesLast r all) among in
        rw same (record {
          requests = omega (arith, ap (occurrences path) accounts.counted_paths);
          durations = omega (arith, ap (occurrences path) accounts.timed);
          timed_last = last;
          ordered = omega arith;
        })

    -- If gin's loop keeps its documented contract and the exposition of the metrics leaves the
    -- gateway's own alone, then however requests interleave, event by event: for
    -- every path, the durations that are observed are at most the requests that are counted, these
    -- are at most the requests that came for predictions under the path, and that number is the
    -- durations that are observed with those that are still to be observed.
    pub scrape_bounds :
        (path : String) {xs : List Exchange} {log : List Event}
        → Interleaves Serves xs log
        → (duration_count path log ≤ requests_total path log)
          × (requests_total path log ≤ arrivals path xs)
          × (duration_count path log + outstanding path xs ≡ arrivals path xs)
    scrape_bounds path i = Interleaves-totals path Serves (Serves-IsMeasured path) i
