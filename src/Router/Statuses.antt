-- ===== src/Router/Statuses.antt =====
-- The HTTP statuses that the routes answer with and count: the label values of http_requests_total.
use ai_gateway_monitor.Common.{ℕ, Bool, ◌≡◌, refl, pos, String, List, [], ◌∷◌, All, arith}
use ai_gateway_monitor.Go.Strconv.{itoa}
use ai_gateway_monitor.Config.{Config}
use ai_gateway_monitor.Proto.{Float32, IrisPredictResponse, ModelPredictResponse}
use ai_gateway_monitor.Proto.Clients.{Result, ok, err, ClientConn, model_predict_stream}
use ai_gateway_monitor.Http.{Event, Context, Json}
use ai_gateway_monitor.Http.Counting.{AnswersWith, responses, counted}
use ai_gateway_monitor.ApiError.{GrpcErrors, api_error_from_grpc}
use ai_gateway_monitor.Health.{Connectivity, ConnStateProvider, check}
use ai_gateway_monitor.Health.Contract.{readyz_unmeasured}
use ai_gateway_monitor.Iris.{Features, RequestPool, fill, pool_get}
use ai_gateway_monitor.Proto.Clients.{iris_predict as call_iris_predict}
use ai_gateway_monitor.Iris.{predict as predict_iris}
use ai_gateway_monitor.Model.{predict as predict_model}
use ai_gateway_monitor.Iris.Decision.{decision}
use ai_gateway_monitor.Iris.Trace.{predict_iris-pooled_answer}
use ai_gateway_monitor.Iris.Trace.{pooled_answer as iris_answer, outcome as iris_outcome}
use ai_gateway_monitor.Model.{admitted, request, step, StepFunction, Received}
use ai_gateway_monitor.Model.Unary.{predict_model-AnswersWith}
use ai_gateway_monitor.Model.Unary.{
  expected_answer as model_answer, outcome as model_outcome, backend as model_backend,
}
use ai_gateway_monitor.Model.Rounds.{Rounds}
use ai_gateway_monitor.Model.Streaming.{OpenedAs, StreamedAs, predict_stream-StreamedAs}
use ai_gateway_monitor.Router.{Method, get, post, setup, Incoming, serve}

-- The statuses of predictions.
pub data IsStatus : ℕ → Type 0 where
  ok_ : IsStatus 200
  bad_request : IsStatus 400
  internal : IsStatus 500
  unavailable : IsStatus 503
  timed_out : IsStatus 504

-- A request is counted once, under the path and one of the statuses; a JSON answer has that status.
abbrev pub CountedAs : String → List Event → Type 0
CountedAs path t =
    (status : ℕ) × IsStatus status
    × (counted t ≡ (path, itoa (pos status)) ∷ [])
    × All (λ answer. answer.0 ≡ status) (responses t)

-- What is counted of a request to a route.
abbrev pub Counts : Method → String → List Event → Type 0
Counts get path t = counted t ≡ []
Counts post path t = CountedAs path t

api_error-IsStatus : (g : GrpcErrors) (e : g.Err) → IsStatus (api_error_from_grpc g e).1
unfolding api_error_from_grpc
api_error-IsStatus g e = grind (arith, bad_request, internal, unavailable, timed_out)

AnswersWith-CountedAs :
    (path : String) (answer : ℕ × Json) (t : List Event)
    → IsStatus answer.0
    → AnswersWith path answer t
    → CountedAs path t
AnswersWith-CountedAs path answer t known h = (answer.0, known, h.1, rw h.0 (refl, tt))

module _ (g : GrpcErrors) {S : Type 0} (conn : ClientConn g.Err S) (recv : S → Received g.Err × S)
    (gin_stream : StepFunction S → S → List Event × Bool)
    (order : List (String × Float32) → List (String × Float32)) (k : Connectivity) {C : Type 0}
    (provider : ConnStateProvider C) (exposition : List Event) (cfg : Config) where
  iris_outcome-IsStatus :
      (c : Context) (r : Result g.Err IrisPredictResponse)
      → IsStatus (iris_outcome g conn cfg order c r).0
  iris_outcome-IsStatus c (err e) = api_error-IsStatus g e
  iris_outcome-IsStatus c (ok resp) = ok_

  iris_answer-IsStatus :
      (c : Context) (d : Result String Features) (i : ℕ) (pool : RequestPool)
      → IsStatus (iris_answer g conn cfg order c d i pool).0
  iris_answer-IsStatus c (err message) i pool = bad_request
  iris_answer-IsStatus c (ok f) i pool =
      iris_outcome-IsStatus c
        (call_iris_predict conn cfg.iris_timeout (fill f (pool_get i pool).0)).0

  model_outcome-IsStatus :
      (c : Context) (r : Result g.Err ModelPredictResponse)
      → IsStatus (model_outcome g conn cfg c r).0
  model_outcome-IsStatus c (err e) = api_error-IsStatus g e
  model_outcome-IsStatus c (ok resp) = ok_

  model_answer-IsStatus :
      (c : Context) (d : Result String String) → IsStatus (model_answer g conn cfg c d).0
  model_answer-IsStatus c (err message) = bad_request
  model_answer-IsStatus c (ok prompt) = model_outcome-IsStatus c (model_backend g conn cfg c prompt)

  OpenedAs-CountedAs :
      (c : Context) (prompt : String) (r : Result g.Err S) (t : List Event)
      → OpenedAs g conn recv gin_stream cfg c prompt r t
      → CountedAs "/predict/model/stream" t
  unfolding itoa
  OpenedAs-CountedAs c prompt (err e) t h = AnswersWith-CountedAs _ _ t (api_error-IsStatus g e) h.0
  OpenedAs-CountedAs c prompt (ok s) t (_, _, _, streams) =
      (200, ok_, streams.counted_once, rw streams.no_json tt)

  StreamedAs-CountedAs :
      (c : Context) (d : Result String String) (t : List Event)
      → StreamedAs g conn recv gin_stream cfg c d t
      → CountedAs "/predict/model/stream" t
  StreamedAs-CountedAs c (err message) t h = AnswersWith-CountedAs _ _ t bad_request h.0
  StreamedAs-CountedAs c (ok prompt) t h =
      OpenedAs-CountedAs c prompt (model_predict_stream conn cfg.model_timeout (request prompt)) t h

  -- If gin's loop keeps its documented contract and the exposition of the metrics counts nothing,
  -- then a request to any route for predictions, whatever the pool holds, is counted once, under
  -- the path of the route and one of the statuses 200, 400, 500, 503 and 504, and a JSON answer has
  -- the status that is counted; nothing is counted for a probe or a scrape.
  pub setup-Counts :
      ((c : Context) (s : S)
        → Rounds
            (step g recv c)
            s
            (gin_stream (step g recv c) s).0
            (gin_stream (step g recv c) s).1)
      → counted exposition ≡ []
      → (r : Incoming C)
      → All
          (λ route.
            Counts route.method route.path
              (serve g conn recv gin_stream order k provider exposition cfg route.handler r))
          setup
  unfolding setup serve check
  setup-Counts documented alone r = (
    alone,
    (
      refl,
      (
        (readyz_unmeasured k provider r.channel).1,
        (
          AnswersWith-CountedAs _ _
              (predict_iris g conn cfg order r.context r.iris_body r.picked r.pool).0
              (iris_answer-IsStatus r.context (decision order r.iris_body) r.picked r.pool)
              (predict_iris-pooled_answer g conn cfg order r.context r.iris_body r.picked r.pool),
          (
            AnswersWith-CountedAs _ _ (predict_model g conn cfg r.context r.prompt_body)
                (model_answer-IsStatus r.context (admitted cfg r.prompt_body))
                (predict_model-AnswersWith g conn cfg r.context r.prompt_body),
            (
              StreamedAs-CountedAs r.context (admitted cfg r.prompt_body) _ (
                  predict_stream-StreamedAs g conn recv gin_stream cfg r.context
                    (documented r.context) r.prompt_body),
              tt,
            ),
          ),
        ),
      ),
    ),
  )
