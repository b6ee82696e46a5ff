-- ===== src/Backend/IrisPredictor/Answers.antt =====
-- What `IrisPredict` returns for a request that it does not refuse. It never raises: a class that has
-- a name has an index that fits its field.
use ai_gateway_monitor.Common.{
  ℕ, zero, suc, ◌^◌, ◌<◌, ◌≤◌, ◌≡◌, refl, true, String, Option, none, some, List, [], ◌∷◌, arith,
  get_elem?, length, fits, ℤ, pos, negsuc, inl, inr, Option-cases,
}
use ai_gateway_monitor.Proto.Clients.{Result, ok, err}
use ai_gateway_monitor.Iris.Decision.{Result-cases}
use ai_gateway_monitor.Proto.{Float32, IrisPredictRequest, IrisPredictResponse, empty_iris_response}
use ai_gateway_monitor.Backend.{StatusCode, ServicerContext, set_status, Exceptions}
use ai_gateway_monitor.Backend.IrisPredictor.{
  features, values, refusal, name_at, classify, response, answer, serve_iris_predict,
}

get_elem?-bound :
    {A : Type 0} (xs : List A) (i : ℕ) (a : A) → get_elem? xs i ≡ some a → i < length xs
get_elem?-bound [] i a h = absurd cc
get_elem?-bound (x ∷ xs) zero a h = omega arith
get_elem?-bound (x ∷ xs) (suc i) a h = omega (arith, get_elem?-bound xs i a h)

pub name_at-fits :
    (names : List String) (i : ℤ) (name : String)
    → length names ≤ 2 ^ 31
    → name_at names i ≡ some name
    → fits 32 i ≡ true
unfolding name_at
name_at-fits names (pos i) name h found = ground (arith, get_elem?-bound names i name)
name_at-fits names (negsuc i) name h found = ground arith

module _ (x : Exceptions) (predict : List Float32 → Result x.Exception ℤ)
    (target_names : List String) where
  -- How the `try` block can end, for a row of features.
  pub data Ends (row : List Float32) : Option (ℤ × String) → Type 0 where
    failed : (e : x.Exception) → predict row ≡ err e → Ends row none
    nameless : (i : ℤ) → predict row ≡ ok i → name_at target_names i ≡ none → Ends row none
    named :
        (i : ℤ) (name : String)
        → predict row ≡ ok i
        → name_at target_names i ≡ some name
        → Ends row (some (i, name))

  classify-Ends : (row : List Float32) → Ends row (classify x predict target_names row)
  unfolding classify
  classify-Ends row = elim (Result-cases (predict row)) [
    | inl (e, raised) ↦ rw (raised, classify) (failed e raised)
    | inr (i, given) ↦ elim (Option-cases (name_at target_names i)) [
      | inl none_there ↦ rw (given, none_there, classify) (nameless i given none_there)
      | inr (name, there) ↦ rw (given, there, classify) (named i name given there)
    ]
  ]

  -- The reply to a row, and the context after it.
  abbrev pub replied :
      Option (ℤ × String)
      → ServicerContext
      → Result x.Exception IrisPredictResponse × ServicerContext
  replied none context =
      (ok empty_iris_response, set_status StatusCode.internal "Iris prediction failed" context)
  replied (some (i, name)) context = (ok (record { class_id = i; class_name = name }), context)

  answer-replied :
      length target_names ≤ 2 ^ 31
      → (row : List Float32) {found : Option (ℤ × String)} → Ends row found
      → (context : ServicerContext)
      → answer x predict target_names found context ≡ replied found context
  unfolding answer response
  answer-replied h row (failed e raised) context = refl
  answer-replied h row (nameless i given none_there) context = refl
  answer-replied h row (named i name given there) context =
      rw (name_at-fits target_names i name h there) refl

  pub serve_iris_predict-replied :
      length target_names ≤ 2 ^ 31
      → (request : IrisPredictRequest) → refusal (features request) ≡ none
      → (context : ServicerContext)
      → (found : Option (ℤ × String)) × Ends (values (features request)) found
        × (serve_iris_predict x predict target_names request context ≡ replied found context)
  unfolding serve_iris_predict
  serve_iris_predict-replied h request admitted context =
      let row = values (features request) in
      let ends = classify-Ends row in
      (
        classify x predict target_names row,
        ends,
        rw (admitted, serve_iris_predict) (answer-replied h row ends context),
      )
