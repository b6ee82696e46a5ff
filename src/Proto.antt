-- ===== src/Proto.antt =====
-- service_go/gen/iris/v1 and service_go/gen/model/v1: the generated messages and their Reset.
-- A float32 is its IEEE 754 fields; the runtime's bookkeeping is a cached size and unknown fields.
pub mod Clients
use ai_gateway_monitor.Common.{ℕ, String, List, [], ℤ, pos, Bool, false}

-- IEEE 754 binary32: sign bit, 8 bits of exponent, 23 bits of fraction.
pub record Float32 : Type 0 where
  pub negative : Bool
  pub exponent : ℕ
  pub fraction : ℕ

abbrev pub zero_f32 : Float32
zero_f32 = record { negative = false; exponent = 0; fraction = 0 }

pub record IrisPredictRequest : Type 0 where
  pub sepal_length : Float32
  pub sepal_width : Float32
  pub petal_length : Float32
  pub petal_width : Float32
  pub unknown_fields : List ℕ
  pub size_cache : ℤ

-- `IrisPredictRequest{}`, the value that `new` gives and `Reset` writes.
abbrev pub empty_iris_request : IrisPredictRequest
empty_iris_request = record {
  sepal_length = zero_f32;
  sepal_width = zero_f32;
  petal_length = zero_f32;
  petal_width = zero_f32;
  unknown_fields = [];
  size_cache = pos 0;
}

-- `(*IrisPredictRequest).Reset`
unfoldable pub reset : IrisPredictRequest → IrisPredictRequest
reset x = empty_iris_request

pub record IrisPredictResponse : Type 0 where
  pub class_id : ℤ
  pub class_name : String

abbrev pub empty_iris_response : IrisPredictResponse
empty_iris_response = record { class_id = pos 0; class_name = "" }

pub record ModelPredictRequest : Type 0 where
  pub prompt : String

pub record ModelPredictResponse : Type 0 where
  pub response : String
  pub model_name : String
  pub prompt_eval_count : ℤ
  pub eval_count : ℤ
  pub eval_duration : ℤ

abbrev pub empty_model_response : ModelPredictResponse
empty_model_response = record {
  response = "";
  model_name = "";
  prompt_eval_count = pos 0;
  eval_count = pos 0;
  eval_duration = pos 0;
}

abbrev empty_model_request : ModelPredictRequest
empty_model_request = record { prompt = "" }

-- `Reset` of the other messages. What they do not show of the runtime is left out, and `Reset`
-- empties it too.
unfoldable pub reset_iris_response : IrisPredictResponse → IrisPredictResponse
reset_iris_response x = empty_iris_response

unfoldable pub reset_model_request : ModelPredictRequest → ModelPredictRequest
reset_model_request x = empty_model_request

unfoldable pub reset_model_response : ModelPredictResponse → ModelPredictResponse
reset_model_response x = empty_model_response
