-- ===== src/Iris/Sequence.antt =====
-- Requests one after another on one handler, against a new handler for each.
use ai_gateway_monitor.Common.{ℕ, ◌≡◌, refl, ap, ◌∙◌, String, List, [], ◌∷◌, ◌++◌}
use ai_gateway_monitor.Config.{Config}
use ai_gateway_monitor.Proto.{Float32, IrisPredictRequest}
use ai_gateway_monitor.Proto.Clients.{Result, ok, err, ClientConn}
use ai_gateway_monitor.Http.{Event, Context, observe_http}
use ai_gateway_monitor.ApiError.{GrpcErrors}
use ai_gateway_monitor.Iris.{IrisBody, Features, RequestPool, path, forward, predict, pool_get}
use ai_gateway_monitor.Iris.Decision.{act, decision, predict-act}
use ai_gateway_monitor.Iris.Reuse.{IsClean, IsClean-without, pool_get-IsClean, predict_iris-IsClean}

module _ (g : GrpcErrors) {S : Type 0} (cc : ClientConn g.Err S) (cfg : Config)
    (order : List (String × Float32) → List (String × Float32)) where
  -- The handler's pool before the requests, the requests, what they do, and the pool after them.
  -- The garbage collector may take a message out of the pool at any time in between.
  pub data Serves
      : RequestPool
        → List (Context × Result String IrisBody)
        → List Event
        → RequestPool
        → Type 0 where
    finished : {pool : RequestPool} → Serves pool [] [] pool
    request :
        (c : Context) (bound : Result String IrisBody) (i : ℕ) (pool : RequestPool)
        {rest : List (Context × Result String IrisBody)} {t : List Event} {last : RequestPool}
        → Serves (predict g cc cfg order c bound i pool).1 rest t last
        → Serves pool ((c, bound) ∷ rest) ((predict g cc cfg order c bound i pool).0 ++ t) last
    collect :
        (before : RequestPool) (req : IrisPredictRequest) (after : RequestPool)
        {requests : List (Context × Result String IrisBody)} {t : List Event} {last : RequestPool}
        → Serves (before ++ after) requests t last
        → Serves (before ++ req ∷ after) requests t last

  -- What the requests do if each has a handler of its own, with nothing pooled.
  abbrev pub on_new_handlers : List (Context × Result String IrisBody) → List Event
  on_new_handlers [] = []
  on_new_handlers ((c, bound) ∷ rest) =
      (predict g cc cfg order c bound 0 []).0 ++ on_new_handlers rest

  act_unpooled :
      (c : Context) (d : Result String Features) (i : ℕ) (pool : RequestPool)
      → IsClean pool
      → (act g cc cfg order c d i pool).0 ≡ (act g cc cfg order c d 0 []).0
  unfolding forward pool_get
  act_unpooled c (err message) i pool h = refl
  act_unpooled c (ok f) i pool h = rw ((pool_get-IsClean i pool h).0) refl

  pub predict_unpooled :
      (c : Context) (bound : Result String IrisBody) (i : ℕ) (pool : RequestPool)
      → IsClean pool
      → (predict g cc cfg order c bound i pool).0 ≡ (predict g cc cfg order c bound 0 []).0
  predict_unpooled c bound i pool h =
      rw (predict-act g cc cfg order c bound i pool, predict-act g cc cfg order c bound 0 [])
        (ap (λ t. t ++ observe_http path ∷ []) (act_unpooled c (decision order bound) i pool h))

  Serves-clean :
      {pool last : RequestPool} {requests : List (Context × Result String IrisBody)}
      {t : List Event}
      → IsClean pool
      → Serves pool requests t last
      → t ≡ on_new_handlers requests
  Serves-clean h finished = refl
  Serves-clean h (request c bound i pool {rest} run) =
      ap (λ t. (predict g cc cfg order c bound i pool).0 ++ t)
        (Serves-clean (predict_iris-IsClean g cc cfg order c bound i pool h) run)
      ∙ ap (λ t. t ++ on_new_handlers rest) (predict_unpooled c bound i pool h)
  Serves-clean h (collect before req after run) =
      Serves-clean (IsClean-without before req after h) run

  -- Whatever requests a new handler serves, one after another, whichever messages of its pool they
  -- get, and whatever the garbage collector takes out in between: they do, event by event, what
  -- they do if each has a new handler. The pool cannot be observed.
  pool_unobservable :
      {requests : List (Context × Result String IrisBody)} {t : List Event} {last : RequestPool}
      → Serves [] requests t last
      → t ≡ on_new_handlers requests
  pool_unobservable run = Serves-clean tt run
