-- ===== src/Iris/Decision.antt =====
-- The validation of `Predict` as one decision, and the handler as a function of it.
use ai_gateway_monitor.Common.{
  ℕ, arith, ◌≡◌, refl, ◌⊎◌, inl, inr, String, none, some, List, [], ◌∷◌, ◌++◌, Option-cases,
}
use ai_gateway_monitor.Config.{Config}
use ai_gateway_monitor.Proto.{Float32}
use ai_gateway_monitor.Proto.Clients.{Result, ok, err, ClientConn}
use ai_gateway_monitor.Http.{Event, observe_http, Context}
use ai_gateway_monitor.ApiError.{GrpcErrors, write_validation_error}
use ai_gateway_monitor.Iris.{
  IrisBody, Features, features, entries, first_invalid, RequestPool, missing_features, path,
  forward, validated, body_bound, predict,
}

module _ (order : List (String × Float32) → List (String × Float32)) where
  abbrev pub checked : Features → Result String Features
  checked f = elim (first_invalid (order (entries f))) [ some message ↦ err message | none ↦ ok f ]

  -- The features that are forwarded, or the message of the validation error.
  abbrev pub decision : Result String IrisBody → Result String Features
  decision (err message) = err message
  decision (ok body) = elim (features body) [ none ↦ err missing_features | some f ↦ checked f ]

pub Result-cases :
    {E A : Type 0} (r : Result E A) → ((e : E) × (r ≡ err e)) ⊎ ((a : A) × (r ≡ ok a))
Result-cases (err e) = inl (e, refl)
Result-cases (ok a) = inr (a, refl)

module _ (g : GrpcErrors) {S : Type 0} (cc : ClientConn g.Err S) (cfg : Config)
    (order : List (String × Float32) → List (String × Float32)) (c : Context) where
  -- What the handler does after a decision.
  abbrev pub act : Result String Features → ℕ → RequestPool → List Event × RequestPool
  act (err message) i pool = (write_validation_error c path message, pool)
  act (ok f) i pool = forward g cc cfg order c f i pool

  validated-act :
      (f : Features) (i : ℕ) (pool : RequestPool)
      → validated g cc cfg order c f i pool ≡ act (checked order f) i pool
  unfolding validated
  validated-act f i pool = ground arith

  body_bound-act :
      (bound : Result String IrisBody) (i : ℕ) (pool : RequestPool)
      → body_bound g cc cfg order c bound i pool ≡ act (decision order bound) i pool
  unfolding body_bound
  body_bound-act (err message) i pool = refl
  body_bound-act (ok body) i pool = elim (Option-cases (features body)) [
    | inl missing ↦ ground arith
    | inr (f, present) ↦ ground (arith, validated-act f i pool)
  ]

  pub predict-act :
      (bound : Result String IrisBody) (i : ℕ) (pool : RequestPool)
      → predict g cc cfg order c bound i pool ≡ (
        (act (decision order bound) i pool).0 ++ observe_http path ∷ [],
        (act (decision order bound) i pool).1,
      )
  unfolding predict
  predict-act bound i pool = rw (body_bound-act bound i pool)
