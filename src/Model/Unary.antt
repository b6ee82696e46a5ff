-- ===== src/Model/Unary.antt =====
-- POST /predict/model: which prompts are forwarded, and what is answered, counted and measured.
use ai_gateway_monitor.Model.Wire.{reply_body}
use Prim.Native.String
use ai_gateway_monitor.Common.{
  ℕ, ℤ, pos, ◌≡◌, ◌↔◌, refl, String, List, [], ◌∷◌, ◌++◌, ◌≤ℤ◌, arith, Bool-cases, inl, inr, ltb_ℤ,
  if◌then◌else◌,
}
use ai_gateway_monitor.Go.Strconv.{itoa}
use ai_gateway_monitor.Config.{Config}
use ai_gateway_monitor.Proto.{ModelPredictResponse}
use ai_gateway_monitor.Proto.Clients.{
  Result, ok, err, ClientConn, model_predict, model_predict_name,
}
use ai_gateway_monitor.Http.{Event, Request, call, observe_grpc, observe_http, model, Context, Json}
use ai_gateway_monitor.Http.Counting.{AnswersWith, calls, tokens}
use ai_gateway_monitor.ApiError.{
  GrpcErrors, api_error_from_grpc, write_grpc_error, write_validation_error,
}
use ai_gateway_monitor.ApiError.Contract.{error_body}
use ai_gateway_monitor.Model.{
  unary_path, admitted, request, record_usage, grpc_status, answer, forward, predict,
}

-- A prompt is forwarded, unchanged, exactly if gin's binding accepted it and it has at most
-- MaxPromptLen characters.
admitted_iff :
    (cfg : Config) (bound : Result String String) (prompt : String)
    → (admitted cfg bound ≡ ok prompt)
      ↔ ((bound ≡ ok prompt) × (pos (String.count prompt) ≤ℤ cfg.max_prompt_len))
unfolding admitted
admitted_iff cfg (err message) prompt = ground arith
admitted_iff cfg (ok p) prompt = ground arith

module _ (g : GrpcErrors) {S : Type 0} (cc : ClientConn g.Err S) (cfg : Config) (c : Context) where
  abbrev pub outcome : Result g.Err ModelPredictResponse → ℕ × Json
  outcome (err e) = (
    (api_error_from_grpc g e).1,
    error_body (api_error_from_grpc g e).0.code (api_error_from_grpc g e).0.message c,
  )
  outcome (ok resp) = (200, reply_body resp)

  abbrev pub backend : String → Result g.Err ModelPredictResponse
  backend prompt = model_predict cc cfg.model_timeout (request prompt)

  -- What the client gets for an admitted prompt or a validation message.
  abbrev pub expected_answer : Result String String → ℕ × Json
  expected_answer (err message) = (400, error_body "INVALID_ARGUMENT" message c)
  expected_answer (ok prompt) = outcome (backend prompt)

  abbrev pub expected_calls : Result String String → List (String × ℤ × Request)
  expected_calls (err message) = []
  expected_calls (ok prompt) = (model_predict_name, cfg.model_timeout, model (request prompt)) ∷ []

  -- The tokens of a successful response that reports any.
  abbrev reported : Result g.Err ModelPredictResponse → List (String × ℤ)
  reported (err e) = []
  reported (ok resp) =
      if ltb_ℤ (pos 0) resp.eval_count then (resp.model_name, resp.eval_count) ∷ [] else []

  abbrev expected_tokens : Result String String → List (String × ℤ)
  expected_tokens (err message) = []
  expected_tokens (ok prompt) = reported (backend prompt)

  written_lem :
      (prompt : String) (r : Result g.Err ModelPredictResponse)
      → let t =
          (call model_predict_name cfg.model_timeout (model (request prompt))
            ∷ observe_grpc "ModelPredict" (grpc_status r)
            ∷ answer g cc cfg c r)
          ++ observe_http unary_path ∷ [] in
        AnswersWith unary_path (outcome r) t
        × (calls t ≡ (model_predict_name, cfg.model_timeout, model (request prompt)) ∷ [])
        × (tokens t ≡ reported r)
  unfolding answer write_grpc_error itoa record_usage
  written_lem prompt (err e) = ((refl, refl, refl), refl, refl)
  written_lem prompt (ok resp) = elim (Bool-cases (ltb_ℤ (pos 0) resp.eval_count)) [
    | inl some_tokens ↦ rw some_tokens ((refl, refl, refl), refl, refl)
    | inr no_tokens ↦ rw no_tokens ((refl, refl, refl), refl, refl)
  ]

  forward_lem :
      (d : Result String String)
      → let t = forward g cc cfg c d ++ observe_http unary_path ∷ [] in
        AnswersWith unary_path (expected_answer d) t
        × (calls t ≡ expected_calls d)
        × (tokens t ≡ expected_tokens d)
  unfolding forward write_validation_error itoa
  forward_lem (err message) = ((refl, refl, refl), refl, refl)
  forward_lem (ok prompt) = written_lem prompt (backend prompt)

  pub predict_model-AnswersWith :
      (bound : Result String String)
      → AnswersWith unary_path (expected_answer (admitted cfg bound)) (predict g cc cfg c bound)
  unfolding predict
  predict_model-AnswersWith bound = (forward_lem (admitted cfg bound)).0

  pub predict_model-calls :
      (bound : Result String String)
      → calls (predict g cc cfg c bound) ≡ expected_calls (admitted cfg bound)
  unfolding predict
  predict_model-calls bound = (forward_lem (admitted cfg bound)).1

  predict_model-tokens :
      (bound : Result String String)
      → tokens (predict g cc cfg c bound) ≡ expected_tokens (admitted cfg bound)
  unfolding predict
  predict_model-tokens bound = (forward_lem (admitted cfg bound)).2

  -- The answer, the calls on the backend and the tokens of a request, by what was admitted.
  pub record IsServed (d : Result String String) (t : List Event) : Type 0 where
    pub answered : AnswersWith unary_path (expected_answer d) t
    pub called : calls t ≡ expected_calls d
    pub metered : tokens t ≡ expected_tokens d

  -- Every request is answered by one JSON response, counted once under the route and that
  -- response's status, and timed once: 400 for a prompt that is not admitted, and otherwise 200
  -- with the backend's reply or the entry of the error contract for its error. An admitted prompt
  -- is sent to the backend once, unchanged and with the model timeout; nothing is sent for any
  -- other body. Tokens are added to the counter once, for the model and in the number that a
  -- successful response reports, and only if that number is positive.
  pub predict_model-IsServed :
      (bound : Result String String) → IsServed (admitted cfg bound) (predict g cc cfg c bound)
  predict_model-IsServed bound = record {
    answered = predict_model-AnswersWith bound;
    called = predict_model-calls bound;
    metered = predict_model-tokens bound;
  }
