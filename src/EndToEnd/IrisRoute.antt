-- ===== src/EndToEnd/IrisRoute.antt =====
-- POST /predict/iris, through to the classifier and back.
use mathlib.Core.Path.{subst}
use mathlib.Core.List.{Perm}
use ai_gateway_monitor.Common.{
  ℕ, ℤ, ◌^◌, ◌≤◌, ◌≡◌, inl, inr, ap, refl, String, Option, none, some, List, [], ◌∷◌, arith, length,
  Option-cases,
}
use ai_gateway_monitor.Config.{Config}
use ai_gateway_monitor.Proto.{Float32, IrisPredictResponse, empty_iris_response}
use ai_gateway_monitor.Proto.Clients.{Result, ok, err, ClientConn, iris_predict, iris_predict_name}
use ai_gateway_monitor.Http.{Context, Json, str, int, obj, member, end}
use ai_gateway_monitor.Http.Counting.{AnswersWith}
use ai_gateway_monitor.ApiError.{GrpcErrors}
use ai_gateway_monitor.ApiError.Contract.{error_body}
use ai_gateway_monitor.Iris.{
  IrisBody, Features, features, entries, first_invalid, RequestPool, path, predict,
}
use ai_gateway_monitor.Iris.Reuse.{IsClean, fresh_request}
use ai_gateway_monitor.Iris.Decision.{checked, decision}
use ai_gateway_monitor.Iris.Order.{Entry, first_invalid_order}
use ai_gateway_monitor.Iris.Trace.{outcome, backend, expected_answer, predict_iris-AnswersWith}
use ai_gateway_monitor.Backend.{StatusCode, Exceptions, new_context, set_status}
use ai_gateway_monitor.Backend.IrisPredictor.{name_at, serve_iris_predict}
use ai_gateway_monitor.Backend.IrisPredictor.Validation.{refusal-none}
use ai_gateway_monitor.Backend.IrisPredictor.Answers.{
  Ends, failed, nameless, named, replied, serve_iris_predict-replied,
}
use ai_gateway_monitor.EndToEnd.{HasStandardCodes, Carries, api_error-HasStatus}

-- The row that the classifier gets for the features of a body.
abbrev pub row : Features → List Float32
row f = f.sepal_length ∷ f.sepal_width ∷ f.petal_length ∷ f.petal_width ∷ []

checked-valid :
    (order : List Entry → List Entry) (f f' : Features)
    → checked order f' ≡ ok f
    → first_invalid (order (entries f)) ≡ none
checked-valid order f f' accepted = elim (Option-cases (first_invalid (order (entries f')))) [
  | inl valid ↦ ground (arith, valid)
  | inr (message, invalid) ↦ ground (arith, invalid)
]

decision-valid :
    (order : List Entry → List Entry) (bound : Result String IrisBody) (f : Features)
    → decision order bound ≡ ok f
    → first_invalid (order (entries f)) ≡ none
decision-valid order (err message) f accepted = absurd cc
decision-valid order (ok body) f accepted = elim (Option-cases (features body)) [
  | inl missing ↦ ground (arith, missing)
  | inr (f', present) ↦ checked-valid order f f' (ground (arith, present))
]

module _ (x : Exceptions) (classifier : List Float32 → Result x.Exception ℤ)
    (target_names : List String) (c : Context) where
  -- What the client is told of accepted features, given what the classifier makes of them.
  pub data Told (f : Features) : ℕ → Json → Type 0 where
    classified :
        (i : ℤ) (name : String)
        → classifier (row f) ≡ ok i
        → name_at target_names i ≡ some name
        → Told f 200 (
            obj (
              member "result"
                (str name)
                (member "id" (int i) (member "source" (str "Go Gateway -> Python AI (Iris)") end))))
    unnamed :
        (i : ℤ)
        → classifier (row f) ≡ ok i
        → name_at target_names i ≡ none
        → Told f 500 (error_body "INTERNAL_ERROR" "Iris prediction failed" c)
    raised :
        (e : x.Exception)
        → classifier (row f) ≡ err e
        → Told f 500 (error_body "INTERNAL_ERROR" "Iris prediction failed" c)

  module _ (g : GrpcErrors) (standard : HasStandardCodes g) {S : Type 0} (cc : ClientConn g.Err S)
      (cfg : Config) (order : List Entry → List Entry) where
    -- What the connection answers to the call for these features.
    abbrev pub invoked : Features → Option g.Err × IrisPredictResponse
    invoked f =
        let (failure, _, reply) =
          cc.invoke_iris cfg.iris_timeout iris_predict_name (fresh_request f) empty_iris_response in
        (failure, reply)

    outcome-Told :
        (f : Features) {found : Option (ℤ × String)}
        → Ends x classifier target_names (row f) found
        → Carries g x (replied x classifier target_names found new_context) (invoked f)
        → (status : ℕ) × (body : Json) × Told f status body
          × (outcome g cc cfg order c (backend g cc cfg order c f) ≡ (status, body))
    unfolding iris_predict set_status
    outcome-Told f (named i name given there) r =
        (200, _, classified i name given there, rw (ap (λ u. u.0) r, ap (λ u. u.1) r) refl)
    outcome-Told f (nameless i given none_there) (e, r, status) = (
      500,
      _,
      unnamed i given none_there,
      rw (r, api_error-HasStatus g standard StatusCode.internal status) refl,
    )
    outcome-Told f (failed e given) (e', r, status) = (
      500,
      _,
      raised e given,
      rw (r, api_error-HasStatus g standard StatusCode.internal status) refl,
    )

    -- For a body that the gateway accepts, whatever the order in which it walks its map, a clean
    -- pool, at most 2^31 class names, codes with gRPC's numbers, and a call that gRPC carries as
    -- documented: the client gets 200 with the class that the classifier finds for the four
    -- features, in the order of the dictionary, and 500 if the classifier fails or gives an index
    -- without a name. The backend refuses none of these features, and raises nothing.
    pub predict_iris_told :
        length target_names ≤ 2 ^ 31
        → ((es : List Entry) → Perm (order es) es)
        → (bound : Result String IrisBody) (f : Features) (i : ℕ) (pool : RequestPool)
        → IsClean pool
        → decision order bound ≡ ok f
        → Carries g x
            (serve_iris_predict x classifier target_names (fresh_request f) new_context)
            (invoked f)
        → (status : ℕ) × (body : Json) × Told f status body
          × AnswersWith path (status, body) (predict g cc cfg order c bound i pool).0
    predict_iris_told few permutes bound f i pool clean accepted carries =
        let valid =
          (first_invalid_order order permutes (entries f)).0
            (decision-valid order bound f accepted) in
        let (found, ends, served) =
          serve_iris_predict-replied x classifier target_names few (fresh_request f)
            ((refusal-none (entries f)).1 valid) new_context in
        let (status, body, told, answered) =
          outcome-Told f ends (subst (λ r. Carries g x r (invoked f)) served carries) in
        let whole = predict_iris-AnswersWith g cc cfg order c bound i pool clean in
        (
          status,
          body,
          told,
          subst (λ o. AnswersWith path o (predict g cc cfg order c bound i pool).0) answered
              (subst
                (λ d.
                  AnswersWith path (expected_answer g cc cfg order c d)
                    (predict g cc cfg order c bound i pool).0)
                accepted whole),
        )
