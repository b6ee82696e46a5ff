-- ===== src/Iris.antt =====
-- service_go/handlers/iris.go: POST /predict/iris.
-- Gin's JSON binding, the order in which Go walks a map, and the item that sync.Pool hands out are
-- arguments; the connection to the backend is the parameter `cc`.
pub mod Validation
pub mod Decision
pub mod Reuse
pub mod Trace
pub mod Rpc
pub mod Order
pub mod Sequence
pub mod Sharing
mod Examples
use Prim.Native.String
use ai_gateway_monitor.Common.{
  ℕ, zero, suc, ◌+◌, ◌-◌, ◌*◌, ◌^◌, ◌≡◌, Bool, true, false, ◌&&◌, ◌||◌, not, String, Option, none,
  some, List, [], ◌∷◌, ◌++◌, ltb, ◌==◌, if◌then◌else◌, ℤ, pos,
}
use ai_gateway_monitor.Go.Strconv.{itoa_ℕ}
use ai_gateway_monitor.Config.{Config}
use ai_gateway_monitor.Proto.{
  Float32, IrisPredictRequest, empty_iris_request, reset, IrisPredictResponse,
}
use ai_gateway_monitor.Proto.Clients.{Result, ok, err, ClientConn, iris_predict, iris_predict_name}
use ai_gateway_monitor.Http.{
  Event, respond, count_request, observe_http, observe_grpc, call, log_error, iris, Context, str,
  int, obj, member, end, status_ok,
}
use ai_gateway_monitor.ApiError.{GrpcErrors, write_grpc_error, write_validation_error}

abbrev pub max_iris_feature_cm : ℕ
max_iris_feature_cm = 50

-- `math.IsNaN`, `math.IsInf(f, 0)`
abbrev pub is_nan : Float32 → Bool
is_nan v = v.exponent == 255 && not (v.fraction == 0)

abbrev pub is_inf : Float32 → Bool
is_inf v = v.exponent == 255 && v.fraction == 0

-- The absolute value of a finite float32, in units of 2^-149; float64 holds it exactly.
unfoldable pub magnitude : Float32 → ℕ
magnitude v = if v.exponent == 0 then v.fraction else (2 ^ 23 + v.fraction) * 2 ^ (v.exponent - 1)

abbrev pub is_negative : Float32 → Bool
is_negative v = v.negative && ltb 0 (magnitude v)

abbrev pub exceeds_limit : Float32 → Bool
exceeds_limit v = not v.negative && ltb (max_iris_feature_cm * 2 ^ 149) (magnitude v)

-- `none` is the nil error.
unfoldable pub validate_iris_feature : String → Float32 → Option String
unfolding magnitude
validate_iris_feature name v =
    if is_nan v || is_inf v
    then some (String.◌++◌ name " must be a finite number")
    else if is_negative v || exceeds_limit v
    then some
        (String.◌++◌ name (String.◌++◌ " must be between 0 and " (itoa_ℕ max_iris_feature_cm)))
    else none

-- The body struct; `none` is a nil pointer, a key that the JSON did not have.
pub record IrisBody : Type 0 where
  pub sepal_length : Option Float32
  pub sepal_width : Option Float32
  pub petal_length : Option Float32
  pub petal_width : Option Float32

pub record Features : Type 0 where
  pub sepal_length : Float32
  pub sepal_width : Float32
  pub petal_length : Float32
  pub petal_width : Float32

abbrev all_of : Option Float32 → Option Float32 → Option Float32 → Option Float32 → Option Features
all_of (some a) (some b) (some c) (some d) =
    some (record { sepal_length = a; sepal_width = b; petal_length = c; petal_width = d })
all_of _ _ _ _ = none

-- The nil checks.
abbrev pub features : IrisBody → Option Features
features b = all_of b.sepal_length b.sepal_width b.petal_length b.petal_width

-- The map that the validation loop walks.
abbrev pub entries : Features → List (String × Float32)
entries f =
    ("sepal_length", f.sepal_length)
    ∷ ("sepal_width", f.sepal_width)
    ∷ ("petal_length", f.petal_length)
    ∷ ("petal_width", f.petal_width)
    ∷ []

-- The loop: the first error that it meets.
unfoldable pub first_invalid : List (String × Float32) → Option String
first_invalid [] = none
first_invalid ((name, v) ∷ rest) =
    let later = first_invalid rest in
    elim (validate_iris_feature name v) [ some message ↦ some message | none ↦ later ]

-- sync.Pool: `Get` takes out any item, or calls `New`; here the i-th, or `New` past the last.
abbrev pub RequestPool : Type 0
RequestPool = List IrisPredictRequest

unfoldable pub pool_get : ℕ → RequestPool → IrisPredictRequest × RequestPool
pool_get i [] = (empty_iris_request, [])
pool_get zero (x ∷ xs) = (x, xs)
pool_get (suc i) (x ∷ xs) = let (y, ys) = pool_get i xs in (y, x ∷ ys)

unfoldable pub pool_put : IrisPredictRequest → RequestPool → RequestPool
pool_put x xs = x ∷ xs

abbrev pub path : String
path = "/predict/iris"

abbrev pub missing_features : String
missing_features =
    "all iris features are required: sepal_length, sepal_width, petal_length, petal_width"

-- The four assignments to the borrowed request.
abbrev pub fill : Features → IrisPredictRequest → IrisPredictRequest
fill f req = record req {
  sepal_length = f.sepal_length;
  sepal_width = f.sepal_width;
  petal_length = f.petal_length;
  petal_width = f.petal_width;
}

abbrev pub grpc_status : {E A : Type 0} → Result E A → String
grpc_status (ok _) = "ok"
grpc_status (err _) = "error"

module _ (g : GrpcErrors) {S : Type 0} (cc : ClientConn g.Err S) (cfg : Config)
    (order : List (String × Float32) → List (String × Float32)) (c : Context) where
  -- What is written once the RPC has returned.
  answer : Result g.Err IrisPredictResponse → List Event
  answer (err e) = log_error "iris service call failed" ∷ write_grpc_error g c path e
  answer (ok resp) =
      count_request path "200"
      ∷ respond status_ok (
          obj (
            member "result" (str resp.class_name) (
              member "id" (int resp.class_id)
                (member "source" (str "Go Gateway -> Python AI (Iris)") end))))
      ∷ []

  -- From the borrowed request to the answer; the request is reset and put back at the end.
  pub forward : Features → ℕ → RequestPool → List Event × RequestPool
  unfolding answer
  forward f i pool =
      let (borrowed, rest) = pool_get i pool in
      let req = fill f borrowed in
      let (result, sent) = iris_predict cc cfg.iris_timeout req in
      (
        call iris_predict_name cfg.iris_timeout (iris req)
            ∷ observe_grpc "IrisPredict" (grpc_status result)
            ∷ answer result,
        pool_put (reset sent) rest,
      )

  pub validated : Features → ℕ → RequestPool → List Event × RequestPool
  unfolding forward
  validated f i pool =
      let rest = forward f i pool in
      elim (first_invalid (order (entries f))) [
        | some message ↦ (write_validation_error c path message, pool)
        | none ↦ rest
      ]

  pub body_bound : Result String IrisBody → ℕ → RequestPool → List Event × RequestPool
  unfolding validated
  body_bound (err message) i pool = (write_validation_error c path message, pool)
  body_bound (ok body) i pool = elim (features body) [
    | none ↦ (write_validation_error c path missing_features, pool)
    | some f ↦ validated f i pool
  ]

  -- `Predict`, given the result of the JSON binding, the pool's choice and the pool.
  unfoldable pub predict : Result String IrisBody → ℕ → RequestPool → List Event × RequestPool
  unfolding body_bound
  predict bound i pool =
      let (events, pool') = body_bound bound i pool in (events ++ observe_http path ∷ [], pool')
