-- ===== src/Iris/Reuse.antt =====
-- The pool of request messages: nothing of one request is left for the next.
use ai_gateway_monitor.Common.{ℕ, ◌++◌, ℤ, zero, suc, ◌≡◌, refl, String, List, [], ◌∷◌, All, pos}
use ai_gateway_monitor.Config.{Config}
use ai_gateway_monitor.Proto.{
  Float32, IrisPredictResponse, empty_iris_request, reset, IrisPredictRequest,
}
use ai_gateway_monitor.Proto.Clients.{Result, ok, err, ClientConn, iris_predict_name, iris_predict}
use ai_gateway_monitor.Http.{Context, Request, iris, call, observe_grpc, observe_http}
use ai_gateway_monitor.Http.Counting.{calls}
use ai_gateway_monitor.ApiError.{GrpcErrors, write_grpc_error, write_validation_error}
use ai_gateway_monitor.Iris.{
  IrisBody, Features, RequestPool, pool_get, pool_put, forward, predict, answer, path, grpc_status,
}
use ai_gateway_monitor.Iris.Decision.{act, decision, predict-act}

-- Every pooled message is as good as a new one.
abbrev pub IsClean : RequestPool → Type 0
IsClean = All (λ req. req ≡ empty_iris_request)

pub pool_get-IsClean :
    (i : ℕ) (pool : RequestPool)
    → IsClean pool
    → ((pool_get i pool).0 ≡ empty_iris_request) × IsClean (pool_get i pool).1
unfolding pool_get
pool_get-IsClean i [] h = (refl, tt)
pool_get-IsClean zero (x ∷ xs) h = h
pool_get-IsClean (suc i) (x ∷ xs) h =
    let (clean, rest) = pool_get-IsClean i xs h.1 in (clean, (h.0, rest))

-- Whatever the garbage collector takes out.
pub IsClean-without :
    (before : RequestPool) (req : IrisPredictRequest) (after : RequestPool)
    → IsClean (before ++ req ∷ after)
    → IsClean (before ++ after)
IsClean-without [] req after h = h.1
IsClean-without (x ∷ before) req after h = (h.0, IsClean-without before req after h.1)

-- A message that holds these features and nothing else.
abbrev pub fresh_request : Features → IrisPredictRequest
fresh_request f = record {
  sepal_length = f.sepal_length;
  sepal_width = f.sepal_width;
  petal_length = f.petal_length;
  petal_width = f.petal_width;
  unknown_fields = [];
  size_cache = pos 0;
}

-- The calls of a decision: one with the features in an otherwise empty message, or none.
abbrev pub expected_calls : Config → Result String Features → List (String × ℤ × Request)
expected_calls cfg (err message) = []
expected_calls cfg (ok f) = (iris_predict_name, cfg.iris_timeout, iris (fresh_request f)) ∷ []

module _ (g : GrpcErrors) {S : Type 0} (cc : ClientConn g.Err S) (cfg : Config)
    (order : List (String × Float32) → List (String × Float32)) (c : Context) where
  forward-IsClean :
      (f : Features) (i : ℕ) (pool : RequestPool)
      → IsClean pool
      → IsClean (forward g cc cfg order c f i pool).1
  unfolding forward pool_put reset
  forward-IsClean f i pool h = (refl, (pool_get-IsClean i pool h).1)

  act-IsClean :
      (d : Result String Features) (i : ℕ) (pool : RequestPool)
      → IsClean pool
      → IsClean (act g cc cfg order c d i pool).1
  act-IsClean (err message) i pool h = h
  act-IsClean (ok f) i pool h = forward-IsClean f i pool h

  -- A request leaves the pool clean, whatever its body, and whatever the RPC did to the message it
  -- was given.
  pub predict_iris-IsClean :
      (bound : Result String IrisBody) (i : ℕ) (pool : RequestPool)
      → IsClean pool
      → IsClean (predict g cc cfg order c bound i pool).1
  predict_iris-IsClean bound i pool h =
      rw (predict-act g cc cfg order c bound i pool) (act-IsClean (decision order bound) i pool h)

  written-calls :
      (m n : String) (t : ℤ) (req : Request) (status : String)
      (r : Result g.Err IrisPredictResponse)
      → calls (
          (call m t req ∷ observe_grpc n status ∷ answer g cc cfg order c r)
          ++ observe_http path ∷ [])
        ≡ (m, t, req) ∷ []
  unfolding answer write_grpc_error
  written-calls m n t req status (ok resp) = refl
  written-calls m n t req status (err e) = refl

  act-calls :
      (d : Result String Features) (i : ℕ) (pool : RequestPool)
      → IsClean pool
      → calls ((act g cc cfg order c d i pool).0 ++ observe_http path ∷ []) ≡ expected_calls cfg d
  unfolding write_validation_error forward
  act-calls (err message) i pool h = refl
  act-calls (ok f) i pool h = rw ((pool_get-IsClean i pool h).0) (
      written-calls iris_predict_name "IrisPredict" cfg.iris_timeout (iris (fresh_request f))
        (grpc_status (iris_predict cc cfg.iris_timeout (fresh_request f)).0)
        (iris_predict cc cfg.iris_timeout (fresh_request f)).0)

  -- With a clean pool the backend is called exactly once for an accepted body, with the Iris
  -- timeout and a message that holds the body's features and nothing of an earlier request; for
  -- any other body it is not called.
  pub predict_iris-calls :
      (bound : Result String IrisBody) (i : ℕ) (pool : RequestPool)
      → IsClean pool
      → calls (predict g cc cfg order c bound i pool).0 ≡ expected_calls cfg (decision order bound)
  predict_iris-calls bound i pool h =
      rw (predict-act g cc cfg order c bound i pool) (act-calls (decision order bound) i pool h)
