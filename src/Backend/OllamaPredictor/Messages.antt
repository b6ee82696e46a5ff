-- ===== src/Backend/OllamaPredictor/Messages.antt =====
-- The messages that the backend makes of Ollama's replies.
use ai_gateway_monitor.Common.{◌≡◌, ◌⊎◌, inl, inr, refl, true, String, ℤ, fits, Bool-cases}
use ai_gateway_monitor.Proto.{ModelPredictResponse}
use ai_gateway_monitor.Proto.Clients.{ok, err}
use ai_gateway_monitor.Backend.{Exceptions}
use ai_gateway_monitor.Backend.OllamaPredictor.{GenerateResponse, or_zero, or_empty, message}

-- The counts are within int32, and the duration within int64.
pub record Fits (r : GenerateResponse) : Type 0 where
  pub prompt_tokens : fits 32 (or_zero r.prompt_eval_count) ≡ true
  pub output_tokens : fits 32 (or_zero r.eval_count) ≡ true
  pub duration : fits 64 (or_zero r.eval_duration) ≡ true

-- Field by field, with 0 or the empty text for what is missing.
abbrev pub as_message : String → GenerateResponse → ModelPredictResponse
as_message model_name r = record {
  response = or_empty r.response;
  model_name = model_name;
  prompt_eval_count = or_zero r.prompt_eval_count;
  eval_count = or_zero r.eval_count;
  eval_duration = or_zero r.eval_duration;
}

module _ (x : Exceptions) (model_name : String) where
  pub message-Fits :
      (r : GenerateResponse) → Fits r → message x model_name r ≡ ok (as_message model_name r)
  unfolding message
  message-Fits r h = rw (h.prompt_tokens, h.output_tokens, h.duration) refl

  -- A reply has a message, or protobuf refuses one of its numbers.
  pub message-cases :
      (r : GenerateResponse)
      → Fits r ⊎ ((n : ℤ) × (message x model_name r ≡ err (x.out_of_range n)))
  unfolding message
  message-cases r = elim (Bool-cases (fits 32 (or_zero r.prompt_eval_count))) [
    | inr large ↦ inr (or_zero r.prompt_eval_count, rw large refl)
    | inl prompt ↦ elim (Bool-cases (fits 32 (or_zero r.eval_count))) [
      | inr large ↦ inr (or_zero r.eval_count, rw (prompt, large) refl)
      | inl output ↦ elim (Bool-cases (fits 64 (or_zero r.eval_duration))) [
        | inr large ↦ inr (or_zero r.eval_duration, rw (prompt, output, large) refl)
        | inl duration ↦
            inl (record { prompt_tokens = prompt; output_tokens = output; duration = duration })
      ]
    ]
  ]
