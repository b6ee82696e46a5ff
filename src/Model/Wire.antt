-- ===== src/Model/Wire.antt =====
-- The bodies that clients of the model endpoints can rely on, written out field by field.
use ai_gateway_monitor.Proto.{ModelPredictResponse}
use ai_gateway_monitor.Http.{Json, str, int, seconds, obj, member, end}

abbrev pub metrics_body : ModelPredictResponse → Json
metrics_body resp = obj (
    member "prompt_tokens" (int resp.prompt_eval_count) (
      member "output_tokens" (int resp.eval_count)
        (member "duration_sec" (seconds resp.eval_duration) end)))

-- The body of POST /predict/model.
abbrev pub reply_body : ModelPredictResponse → Json
reply_body resp = obj (
    member "reply" (str resp.response) (
      member "model" (str resp.model_name) (
        member "metrics" (metrics_body resp)
          (member "source" (str "Go Gateway -> Ollama (Qwen)") end))))

-- The data of a "message" event.
abbrev pub chunk_body : ModelPredictResponse → Json
chunk_body resp = obj (
    member "reply" (str resp.response)
      (member "model" (str resp.model_name) (member "metrics" (metrics_body resp) end)))
