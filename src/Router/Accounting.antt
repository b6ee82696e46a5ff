-- ===== src/Router/Accounting.antt =====
-- What the metrics of the gateway say of a request, for every route.
use ai_gateway_monitor.Common.{ℕ, Bool, ◌≡◌, refl, ap, String, Option, List, [], ◌∷◌, map, All}
use ai_gateway_monitor.Config.{Config}
use ai_gateway_monitor.Proto.{Float32}
use ai_gateway_monitor.Proto.Clients.{Result, ok, err, ClientConn, model_predict_stream}
use ai_gateway_monitor.Http.{Event, Context, Json}
use ai_gateway_monitor.Http.Counting.{AnswersWith, http_timings, counted}
use ai_gateway_monitor.ApiError.{GrpcErrors}
use ai_gateway_monitor.Health.{Connectivity, ConnStateProvider, check, readyz}
use ai_gateway_monitor.Health.Contract.{readyz_unmeasured}
use ai_gateway_monitor.Iris.Trace.{predict_iris-pooled_answer}
use ai_gateway_monitor.Model.{admitted, request, step, StepFunction, Received}
use ai_gateway_monitor.Model.Unary.{predict_model-AnswersWith}
use ai_gateway_monitor.Model.Rounds.{Rounds}
use ai_gateway_monitor.Model.Streaming.{OpenedAs, StreamedAs, predict_stream-StreamedAs}
use ai_gateway_monitor.Router.{Method, get, post, setup, Incoming, serve}

-- The paths under which a request to a route is counted and timed: its own, if it is a prediction.
abbrev pub labels : Method → String → List String
labels get path = []
labels post path = path ∷ []

-- The requests are timed once and counted once, each under these paths.
pub record Accounts (paths : List String) (t : List Event) : Type 0 where
  pub timed : http_timings t ≡ paths
  pub counted_paths : map (λ entry. entry.0) (counted t) ≡ paths

AnswersWith-Accounts :
    (path : String) (answer : ℕ × Json) {t : List Event}
    → AnswersWith path answer t
    → Accounts (path ∷ []) t
AnswersWith-Accounts path answer h = record {
  timed = h.2;
  counted_paths = ap (map (λ entry. entry.0)) h.1;
}

module _ (g : GrpcErrors) {S : Type 0} (conn : ClientConn g.Err S) (recv : S → Received g.Err × S)
    (gin_stream : StepFunction S → S → List Event × Bool)
    (order : List (String × Float32) → List (String × Float32)) (k : Connectivity) {C : Type 0}
    (provider : ConnStateProvider C) (exposition : List Event) (cfg : Config) where
  OpenedAs-Accounts :
      (c : Context) (prompt : String) (r : Result g.Err S) (t : List Event)
      → OpenedAs g conn recv gin_stream cfg c prompt r t
      → Accounts ("/predict/model/stream" ∷ []) t
  OpenedAs-Accounts c prompt (err e) t h = AnswersWith-Accounts _ _ h.0
  OpenedAs-Accounts c prompt (ok s) t (_, _, _, streams) = record {
    timed = streams.timed_once;
    counted_paths = ap (map (λ entry. entry.0)) streams.counted_once;
  }

  StreamedAs-Accounts :
      (c : Context) (d : Result String String) (t : List Event)
      → StreamedAs g conn recv gin_stream cfg c d t
      → Accounts ("/predict/model/stream" ∷ []) t
  StreamedAs-Accounts c (err message) t h = AnswersWith-Accounts _ _ h.0
  StreamedAs-Accounts c (ok prompt) t h =
      OpenedAs-Accounts c prompt (model_predict_stream conn cfg.model_timeout (request prompt)) t h

  readyz-Accounts : (channel : Option C) → Accounts [] (readyz k provider channel).0
  readyz-Accounts channel =
      let (timed, counted_) = readyz_unmeasured k provider channel in
      record { timed = timed; counted_paths = ap (map (λ entry. entry.0)) counted_ }

  -- If gin's loop does what it documents, and the exposition of the metrics leaves the gateway's own
  -- alone, then a request to any route of the table, whatever the pool holds, is timed once and
  -- counted once, both under the path that the route is registered with, if it is a prediction;
  -- a probe or a scrape is neither timed nor counted.
  pub setup-Accounts :
      ((c : Context) (s : S)
        → Rounds
            (step g recv c)
            s
            (gin_stream (step g recv c) s).0
            (gin_stream (step g recv c) s).1)
      → Accounts [] exposition
      → (r : Incoming C)
      → All
          (λ route.
            Accounts
              (labels route.method route.path)
              (serve g conn recv gin_stream order k provider exposition cfg route.handler r))
          setup
  unfolding setup serve check
  setup-Accounts documented alone r = (
    alone,
    (
      record { timed = refl; counted_paths = refl },
      (
        readyz-Accounts r.channel,
        (
          AnswersWith-Accounts _ _
              (predict_iris-pooled_answer g conn cfg order r.context r.iris_body r.picked r.pool),
          (
            AnswersWith-Accounts _ _ (predict_model-AnswersWith g conn cfg r.context r.prompt_body),
            (
              StreamedAs-Accounts r.context (admitted cfg r.prompt_body) _ (
                  predict_stream-StreamedAs g conn recv gin_stream cfg r.context
                    (documented r.context) r.prompt_body),
              tt,
            ),
          ),
        ),
      ),
    ),
  )
