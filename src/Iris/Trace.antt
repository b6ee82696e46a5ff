-- ===== src/Iris/Trace.antt =====
-- Every request to /predict/iris is answered, counted and timed.
use mathlib.Core.Path.{subst}
use ai_gateway_monitor.Common.{◌≡◌, ℕ, ℤ, refl, String, List, [], ◌∷◌, ◌++◌}
use ai_gateway_monitor.Go.Strconv.{itoa}
use ai_gateway_monitor.Config.{Config}
use ai_gateway_monitor.Proto.{Float32, IrisPredictResponse}
use ai_gateway_monitor.Proto.Clients.{Result, ok, err, ClientConn, iris_predict, iris_predict_name}
use ai_gateway_monitor.Http.{
  Request, iris, call, observe_grpc, observe_http, Context, Json, str, int, obj, member, end,
}
use ai_gateway_monitor.Http.Counting.{AnswersWith}
use ai_gateway_monitor.ApiError.{
  GrpcErrors, api_error_from_grpc, write_grpc_error, write_validation_error,
}
use ai_gateway_monitor.ApiError.Contract.{error_body}
use ai_gateway_monitor.Iris.{
  IrisBody, Features, RequestPool, path, answer, grpc_status, forward, predict, fill, pool_get,
}
use ai_gateway_monitor.Iris.Reuse.{IsClean, pool_get-IsClean, fresh_request}
use ai_gateway_monitor.Iris.Decision.{act, decision, predict-act}

module _ (g : GrpcErrors) {S : Type 0} (cc : ClientConn g.Err S) (cfg : Config)
    (order : List (String × Float32) → List (String × Float32)) (c : Context) where
  -- The answer to a decision, given what the backend returned for the forwarded request.
  abbrev pub outcome : Result g.Err IrisPredictResponse → ℕ × Json
  outcome (err e) = (
    (api_error_from_grpc g e).1,
    error_body (api_error_from_grpc g e).0.code (api_error_from_grpc g e).0.message c,
  )
  outcome (ok resp) = (
    200,
    obj (
        member "result" (str resp.class_name) (
          member "id" (int resp.class_id)
            (member "source" (str "Go Gateway -> Python AI (Iris)") end))),
  )

  written-AnswersWith :
      (name method : String) (timeout : ℤ) (req : Request) (status : String)
      (r : Result g.Err IrisPredictResponse)
      → AnswersWith path (outcome r) (
          (call name timeout req ∷ observe_grpc method status ∷ answer g cc cfg order c r)
          ++ observe_http path ∷ [])
  unfolding answer write_grpc_error itoa
  written-AnswersWith name method timeout req status (ok resp) = (refl, refl, refl)
  written-AnswersWith name method timeout req status (err e) = (refl, refl, refl)

  -- The backend's result for a new request message with these features.
  abbrev pub backend : Features → Result g.Err IrisPredictResponse
  backend f = (iris_predict cc cfg.iris_timeout (fresh_request f)).0

  -- What the client gets for a decision.
  abbrev pub expected_answer : Result String Features → ℕ × Json
  expected_answer (err message) = (400, error_body "INVALID_ARGUMENT" message c)
  expected_answer (ok f) = outcome (backend f)

  -- What the client gets for a decision, whatever the borrowed message held.
  abbrev pub pooled_answer : Result String Features → ℕ → RequestPool → ℕ × Json
  pooled_answer (err message) i pool = (400, error_body "INVALID_ARGUMENT" message c)
  pooled_answer (ok f) i pool =
      outcome (iris_predict cc cfg.iris_timeout (fill f (pool_get i pool).0)).0

  act-pooled_answer :
      (d : Result String Features) (i : ℕ) (pool : RequestPool)
      → AnswersWith path
          (pooled_answer d i pool)
          ((act g cc cfg order c d i pool).0 ++ observe_http path ∷ [])
  unfolding write_validation_error forward itoa
  act-pooled_answer (err message) i pool = (refl, refl, refl)
  act-pooled_answer (ok f) i pool =
      let req = fill f (pool_get i pool).0 in
      let result = (iris_predict cc cfg.iris_timeout req).0 in
      written-AnswersWith iris_predict_name "IrisPredict" cfg.iris_timeout (iris req)
        (grpc_status result) result

  -- Every request is answered by one JSON response, counted once under the route and the status
  -- of that response, and timed once, whatever the pool holds.
  pub predict_iris-pooled_answer :
      (bound : Result String IrisBody) (i : ℕ) (pool : RequestPool)
      → AnswersWith path
          (pooled_answer (decision order bound) i pool)
          (predict g cc cfg order c bound i pool).0
  predict_iris-pooled_answer bound i pool =
      rw (predict-act g cc cfg order c bound i pool)
        (act-pooled_answer (decision order bound) i pool)

  pooled_answer_clean :
      (d : Result String Features) (i : ℕ) (pool : RequestPool)
      → IsClean pool
      → pooled_answer d i pool ≡ expected_answer d
  pooled_answer_clean (err message) i pool h = refl
  pooled_answer_clean (ok f) i pool h = rw ((pool_get-IsClean i pool h).0) refl

  -- Every request is answered by one JSON response, counted once under the route and the status
  -- of that response, and timed once. If the pool is clean, the response is 400 with the message
  -- of the first validation error for a body that is not accepted; for one that is, it depends on
  -- the body's features and the backend's result for them alone: 200 with the class, or the entry
  -- of the error contract for the backend's error.
  pub predict_iris-AnswersWith :
      (bound : Result String IrisBody) (i : ℕ) (pool : RequestPool)
      → IsClean pool
      → AnswersWith path
          (expected_answer (decision order bound))
          (predict g cc cfg order c bound i pool).0
  predict_iris-AnswersWith bound i pool h =
      subst (λ a. AnswersWith path a (predict g cc cfg order c bound i pool).0)
        (pooled_answer_clean (decision order bound) i pool h)
        (predict_iris-pooled_answer bound i pool)
