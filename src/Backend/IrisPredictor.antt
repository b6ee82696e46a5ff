-- ===== src/Backend/IrisPredictor.antt =====
-- service_python/models/iris_predictor.py: the servicer `IrisPredictor`.
-- The classifier is an argument, as its answer to one row of features, a class index; so are the
-- names of the classes in scikit-learn's data set. `sepal_length` and so on are float32 in the
-- message; Python reads them as float64, which holds them exactly.
pub mod Validation
pub mod Answers
use Prim.Native.String
use ai_gateway_monitor.Common.{
  zero, suc, ◌-◌, ◌*◌, ◌^◌, ◌||◌, ◌&&◌, not, Bool, String, Option, none, some, List, [], ◌∷◌, ◌==◌,
  ltb, length, str_eq, get_elem?, fits, if◌then◌else◌, ℤ, pos, negsuc, ℕ,
}
use ai_gateway_monitor.Go.Strconv.{itoa_ℕ}
use ai_gateway_monitor.Proto.{Float32, IrisPredictRequest, IrisPredictResponse, empty_iris_response}
use ai_gateway_monitor.Proto.Clients.{Result, ok, err}
use ai_gateway_monitor.Iris.{magnitude}
use ai_gateway_monitor.Backend.{StatusCode, ServicerContext, set_status, Exceptions}

abbrev pub max_feature_cm : ℕ
max_feature_cm = 50

-- `math.isfinite(value)`, and the two comparisons for a finite value, in units of 2^-149.
abbrev is_finite : Float32 → Bool
is_finite v = not (v.exponent == 255)

abbrev is_below_zero : Float32 → Bool
is_below_zero v = v.negative && ltb 0 (magnitude v)

abbrev is_above_limit : Float32 → Bool
is_above_limit v = not v.negative && ltb (max_feature_cm * 2 ^ 149) (magnitude v)

unfoldable pub is_refused : Float32 → Bool
is_refused v = not (is_finite v) || is_below_zero v || is_above_limit v

-- The dictionary `features`, which Python walks in the order it is written in.
abbrev pub features : IrisPredictRequest → List (String × Float32)
features request =
    ("sepal_length", request.sepal_length)
    ∷ ("sepal_width", request.sepal_width)
    ∷ ("petal_length", request.petal_length)
    ∷ ("petal_width", request.petal_width)
    ∷ []

-- The loop: the details of the status that it ends the RPC with, if it does. `%g` prints a whole
-- number of few digits as `itoa_ℕ` does.
unfoldable pub refusal : List (String × Float32) → Option String
refusal [] = none
refusal ((name, value) ∷ rest) =
    let later = refusal rest in
    if is_refused value
    then some (
        String.◌++◌ name
          (String.◌++◌ " must be a finite number between 0 and " (itoa_ℕ max_feature_cm)))
    else later

abbrev pub values : List (String × Float32) → List Float32
values [] = []
values ((_, value) ∷ rest) = value ∷ values rest

-- `target_names[i]`: a negative index counts from the end, and others raise an IndexError.
unfoldable pub name_at : List String → ℤ → Option String
name_at names (pos i) = get_elem? names i
name_at names (negsuc i) =
    if ltb i (length names) then get_elem? names (length names - suc i) else none

module _ (x : Exceptions) (predict : List Float32 → Result x.Exception ℤ)
    (target_names : List String) where
  -- The `try` block: the index and its name, unless something raises.
  unfoldable pub classify : List Float32 → Option (ℤ × String)
  classify row = elim (predict row) [
    | err e ↦ none
    | ok i ↦ elim (name_at target_names i) [ none ↦ none | some name ↦ some (i, name) ]
  ]

  -- The last `return`, outside the `try`: protobuf refuses an index that is no int32.
  unfoldable pub response : ℤ × String → Result x.Exception IrisPredictResponse
  response (i, name) =
      if fits 32 i then ok (record { class_id = i; class_name = name }) else err (x.out_of_range i)

  answer :
      Option (ℤ × String)
      → ServicerContext
      → Result x.Exception IrisPredictResponse × ServicerContext
  answer none context =
      (ok empty_iris_response, set_status StatusCode.internal "Iris prediction failed" context)
  answer (some found) context = (response found, context)

  -- `IrisPredict`, with what it raises or returns, and what it has told the context.
  unfoldable pub serve_iris_predict :
      IrisPredictRequest
      → ServicerContext
      → Result x.Exception IrisPredictResponse × ServicerContext
  unfolding answer
  serve_iris_predict request context = elim (refusal (features request)) [
    | some details ↦
        (ok empty_iris_response, set_status StatusCode.invalid_argument details context)
    | none ↦ answer (classify (values (features request))) context
  ]

-- The servicer: the classifier and the names of its classes.
pub record IrisPredictor (E : Type 0) : Type 0 where
  pub clf : List Float32 → Result E ℤ
  pub target_names : List String

module _ {E : Type 0} (exists : String → Bool)
    (pickle_load : String → Result E (List Float32 → Result E ℤ))
    (fit : Result E (List Float32 → Result E ℤ)) where
  -- `_load_model`: the artifact, or, without a path or a file under it, a forest trained in memory.
  unfoldable pub load_model : Option String → Result E (List Float32 → Result E ℤ)
  load_model none = fit
  load_model (some path) = if not (str_eq path "") && exists path then pickle_load path else fit

  -- `__init__`
  unfoldable pub new_iris_predictor : List String → Option String → Result E (IrisPredictor E)
  new_iris_predictor names model_path = elim (load_model model_path) [
    | err e ↦ err e
    | ok clf ↦ ok (record { clf = clf; target_names = names })
  ]
