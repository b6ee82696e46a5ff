-- ===== src/EndToEnd/ModelRoute.antt =====
-- POST /predict/model, through to Ollama and back.
use mathlib.Core.Path.{subst}
use Prim.Native.String
use ai_gateway_monitor.Common.{
  ℤ, ℕ, ◌≡◌, inl, inr, ap, refl, true, false, String, Option, none, some, Bool-cases,
}
use ai_gateway_monitor.Config.{Config}
use ai_gateway_monitor.Proto.{ModelPredictResponse, empty_model_response}
use ai_gateway_monitor.Proto.Clients.{
  Result, ok, err, ClientConn, model_predict, model_predict_name,
}
use ai_gateway_monitor.Http.{Context, Json}
use ai_gateway_monitor.Http.Counting.{AnswersWith}
use ai_gateway_monitor.ApiError.{GrpcErrors}
use ai_gateway_monitor.ApiError.Contract.{error_body}
use ai_gateway_monitor.Model.{unary_path, admitted, request, predict}
use ai_gateway_monitor.Model.Wire.{reply_body}
use ai_gateway_monitor.Model.Unary.{outcome, backend, expected_answer, predict_model-AnswersWith}
use ai_gateway_monitor.Backend.{StatusCode, Exceptions, new_context, set_status}
use ai_gateway_monitor.Backend.OllamaPredictor.{
  Ollama, GenerateResponse, is_blank, message, generated, serve_model_predict,
}
use ai_gateway_monitor.Backend.OllamaPredictor.Failures.{Means, set_ollama_error-Means}
use ai_gateway_monitor.Backend.OllamaPredictor.Messages.{
  Fits, as_message, message-cases, message-Fits,
}
use ai_gateway_monitor.EndToEnd.{
  HasStandardCodes, Carries, Fails, gateway_entry, api_error-HasStatus,
}

module _ (x : Exceptions) (ollama : Ollama x.Exception) (model_name : String) (c : Context) where
  -- What the client is told of a prompt, given what Ollama makes of it: Ollama gets the prompt as it
  -- is, with the limit of 512 tokens.
  pub data Told (prompt : String) : ℕ → Json → Type 0 where
    blank :
        is_blank prompt ≡ true
        → Told prompt 400 (error_body "INVALID_ARGUMENT" "prompt must not be empty" c)
    failed :
        (e : x.Exception) (code : StatusCode) (details : String)
        → is_blank prompt ≡ false
        → ollama.generate model_name prompt 512 ≡ err e
        → Means x e code details
        → Told prompt (gateway_entry code).1 (error_body (gateway_entry code).0 details c)
    refused :
        (r : GenerateResponse) (n : ℤ)
        → is_blank prompt ≡ false
        → ollama.generate model_name prompt 512 ≡ ok r
        → message x model_name r ≡ err (x.out_of_range n)
        → Told prompt 500 (
            error_body "INTERNAL_ERROR"
              (String.◌++◌ "Exception calling application: " (x.text (x.out_of_range n)))
              c)
    answered :
        (r : GenerateResponse)
        → is_blank prompt ≡ false
        → ollama.generate model_name prompt 512 ≡ ok r
        → Fits r
        → Told prompt 200 (reply_body (as_message model_name r))

  module _ (g : GrpcErrors) (standard : HasStandardCodes g) {S : Type 0} (cc : ClientConn g.Err S)
      (cfg : Config) where
    -- What the connection answers to the call for this prompt.
    abbrev pub invoked : String → Option g.Err × ModelPredictResponse
    invoked prompt =
        cc.invoke_model cfg.model_timeout model_predict_name (request prompt) empty_model_response

    Answered : String → Type 0
    Answered prompt =
        (status : ℕ) × (body : Json) × Told prompt status body
        × (outcome g cc cfg c (backend g cc cfg c prompt) ≡ (status, body))

    backend_fails :
        (prompt : String) (e : g.Err)
        → (invoked prompt).0 ≡ some e
        → backend g cc cfg c prompt ≡ err e
    unfolding model_predict
    backend_fails prompt e r = rw (r, model_predict) refl

    outcome-Fails :
        (prompt : String) (code : StatusCode) (details : String)
        → Fails g code details (invoked prompt).0
        → outcome g cc cfg c (backend g cc cfg c prompt)
          ≡ ((gateway_entry code).1, error_body (gateway_entry code).0 details c)
    outcome-Fails prompt code details (e, r, status) =
        rw (backend_fails prompt e r, api_error-HasStatus g standard code status) refl

    backend_replies :
        (prompt : String) (resp : ModelPredictResponse)
        → invoked prompt ≡ (none, resp)
        → backend g cc cfg c prompt ≡ ok resp
    unfolding model_predict
    backend_replies prompt resp r = rw (ap (λ u. u.0) r, ap (λ u. u.1) r, model_predict) refl

    outcome_replies :
        (prompt : String) (resp : ModelPredictResponse)
        → invoked prompt ≡ (none, resp)
        → outcome g cc cfg c (backend g cc cfg c prompt) ≡ (200, reply_body resp)
    outcome_replies prompt resp r = ap (outcome g cc cfg c) (backend_replies prompt resp r)

    generated-Answered :
        (prompt : String)
        → is_blank prompt ≡ false
        → (r : Result x.Exception GenerateResponse) → ollama.generate model_name prompt 512 ≡ r
        → Carries g x (generated x ollama model_name r new_context) (invoked prompt)
        → Answered prompt
    unfolding generated Answered set_status
    generated-Answered prompt text (err e) given carries =
        let (code, details, means, same) = set_ollama_error-Means x e new_context in
        (
          (gateway_entry code).1,
          error_body (gateway_entry code).0 details c,
          failed e code details text given means,
          outcome-Fails prompt code details
              (subst (λ k. Carries g x (ok empty_model_response, k) (invoked prompt)) same carries),
        )
    generated-Answered prompt text (ok r) given carries = elim (message-cases x model_name r) [
      | inl fit ↦ (
        200,
        reply_body (as_message model_name r),
        answered r text given fit,
        outcome_replies prompt (as_message model_name r) (
            subst (λ m. Carries g x (m, new_context) (invoked prompt))
              (message-Fits x model_name r fit) carries),
      )
      | inr (n, large) ↦ (
        500,
        _,
        refused r n text given large,
        outcome-Fails prompt StatusCode.unknown _
            (subst (λ m. Carries g x (m, new_context) (invoked prompt)) large carries),
      )
    ]

    Answered-AnswersWith :
        (bound : Result String String) (prompt : String)
        → admitted cfg bound ≡ ok prompt
        → Answered prompt
        → (status : ℕ) × (body : Json) × Told prompt status body
          × AnswersWith unary_path (status, body) (predict g cc cfg c bound)
    unfolding Answered
    Answered-AnswersWith bound prompt admit (status, body, told, same) = (
      status,
      body,
      told,
      subst (λ o. AnswersWith unary_path o (predict g cc cfg c bound)) same
          (subst
            (λ d. AnswersWith unary_path (expected_answer g cc cfg c d) (predict g cc cfg c bound))
            admit (predict_model-AnswersWith g cc cfg c bound)),
    )

    -- For an admitted prompt, codes with gRPC's numbers, and a call that gRPC carries as documented,
    -- the client is told what became of the prompt at Ollama: 400 for one of white space only, 504
    -- if Ollama timed out, 503 if it could not be reached or answered with an error, 500 for any
    -- other exception, also the uncaught one for a number that does not fit the message, and
    -- otherwise 200 with Ollama's text and numbers, 0 for those that it left out.
    pub predict_model_told :
        (bound : Result String String) (prompt : String)
        → admitted cfg bound ≡ ok prompt
        → Carries g x
            (serve_model_predict x ollama model_name (request prompt) new_context)
            (invoked prompt)
        → (status : ℕ) × (body : Json) × Told prompt status body
          × AnswersWith unary_path (status, body) (predict g cc cfg c bound)
    unfolding serve_model_predict set_status Answered
    predict_model_told bound prompt admit carries =
        Answered-AnswersWith bound prompt admit (elim (Bool-cases (is_blank prompt)) [
          | inl empty ↦ (
            400,
            error_body "INVALID_ARGUMENT" "prompt must not be empty" c,
            blank empty,
            outcome-Fails prompt StatusCode.invalid_argument "prompt must not be empty"
                (rw (empty, serve_model_predict) at carries),
          )
          | inr text ↦
              generated-Answered prompt text (ollama.generate model_name prompt 512) refl
                (rw (text, serve_model_predict) at carries)
        ])
