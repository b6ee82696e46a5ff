-- ===== src/Backend/OllamaPredictor.antt =====
-- service_python/models/ollama_predictor.py: the servicer `ModelPredictor`.
-- Ollama's client is an argument; a stream is what its iterator gives, up to its end.
pub mod Failures
pub mod Messages
pub mod Yields
use Prim.Native.String
use Prim.Native.Char.{code}
use ai_gateway_monitor.Common.{
  ℕ, suc, ◌&&◌, ◌||◌, not, Bool, true, false, String, Option, none, some, List, [], ◌∷◌, ◌==◌, leb,
  fits, if◌then◌else◌, ℤ, pos,
}
use ai_gateway_monitor.Proto.{ModelPredictRequest, ModelPredictResponse, empty_model_response}
use ai_gateway_monitor.Proto.Clients.{Result, ok, err}
use ai_gateway_monitor.Backend.{StatusCode, ServicerContext, set_status, Exceptions}

-- `GenerateResponse` of the ollama package; `none` is None.
pub record GenerateResponse : Type 0 where
  pub response : Option String
  pub prompt_eval_count : Option ℤ
  pub eval_count : Option ℤ
  pub eval_duration : Option ℤ

-- What the iterator of a stream gives: it is exhausted, it raises, or it gives a chunk.
pub data Chunks (E : Type 0) : Type 0 where
  exhausted : Chunks E
  raised : E → Chunks E
  chunk : GenerateResponse → Chunks E → Chunks E

-- `ollama.Client.generate`, without and with `stream=True`.
pub record Ollama (E : Type 0) : Type 0 where
  pub generate : (model prompt : String) → (num_predict : ℕ) → Result E GenerateResponse
  pub generate_stream : (model prompt : String) → (num_predict : ℕ) → Result E (Chunks E)

-- The characters that Python's `str.strip` takes off.
abbrev is_space : ℕ → Bool
is_space c =
    (leb 9 c && leb c 13)
    || (leb 28 c && leb c 32)
    || c == 0x85
    || c == 0xA0
    || c == 0x1680
    || (leb 0x2000 c && leb c 0x200A)
    || c == 0x2028
    || c == 0x2029
    || c == 0x202F
    || c == 0x205F
    || c == 0x3000

-- `not prompt.strip()`
unfoldable pub is_blank : String → Bool
is_blank String.[] = true
is_blank (String.◌∷◌ c s) = is_space (code c) && is_blank s

-- `value or 0`, `value or ""`
abbrev pub or_zero : Option ℤ → ℤ
or_zero none = pos 0
or_zero (some n) = n

abbrev pub or_empty : Option String → String
or_empty none = ""
or_empty (some s) = s

abbrev pub num_predict : ℕ
num_predict = 512

module _ (x : Exceptions) where
  -- `_set_ollama_error`
  unfoldable pub set_ollama_error : x.Exception → ServicerContext → ServicerContext
  set_ollama_error e =
      if x.is_timeout e
      then set_status StatusCode.deadline_exceeded "Model backend timed out"
      else if x.is_transport_error e || x.is_response_error e
      then set_status StatusCode.unavailable (String.◌++◌ "Model backend unavailable: " (x.text e))
      else set_status StatusCode.internal "Internal model error"

  -- The constructor of the reply: protobuf raises for the first number that its field does not
  -- hold, and leaves a text field that is given None empty.
  unfoldable pub message : String → GenerateResponse → Result x.Exception ModelPredictResponse
  message model_name r =
      if not (fits 32 (or_zero r.prompt_eval_count))
      then err (x.out_of_range (or_zero r.prompt_eval_count))
      else if not (fits 32 (or_zero r.eval_count))
      then err (x.out_of_range (or_zero r.eval_count))
      else if not (fits 64 (or_zero r.eval_duration))
      then err (x.out_of_range (or_zero r.eval_duration))
      else ok (record {
        response = or_empty r.response;
        model_name = model_name;
        prompt_eval_count = or_zero r.prompt_eval_count;
        eval_count = or_zero r.eval_count;
        eval_duration = or_zero r.eval_duration;
      })

  module _ (model_name : String) (is_active : ℕ → Bool) where
    -- The loop, from its n-th chunk: what it yields, and the context at its end. The n-th call of
    -- `context.is_active` answers `is_active n`. What the body raises is caught.
    unfoldable pub pass_on :
        ℕ → Chunks x.Exception → ServicerContext → List ModelPredictResponse × ServicerContext
    pass_on n exhausted context = ([], context)
    pass_on n (raised e) context = ([], set_ollama_error e context)
    pass_on n (chunk r rest) context =
        let (yielded, context') = pass_on (suc n) rest context in
        if not (is_active n) then ([], context) else elim (message model_name r) [
          | err e ↦ ([], set_ollama_error e context)
          | ok resp ↦ (resp ∷ yielded, context')
        ]

  module _ (ollama : Ollama x.Exception) (model_name : String) where
    unfoldable pub generated :
        Result x.Exception GenerateResponse
        → ServicerContext
        → Result x.Exception ModelPredictResponse × ServicerContext
    generated (err e) context = (ok empty_model_response, set_ollama_error e context)
    generated (ok r) context = (message model_name r, context)

    -- `ModelPredict`, with what it raises or returns, and what it has told the context. The reply
    -- is built outside the `try`.
    unfoldable pub serve_model_predict :
        ModelPredictRequest
        → ServicerContext
        → Result x.Exception ModelPredictResponse × ServicerContext
    unfolding generated
    serve_model_predict request context =
        if is_blank request.prompt
        then (
          ok empty_model_response,
          set_status StatusCode.invalid_argument "prompt must not be empty" context,
        )
        else generated (ollama.generate model_name request.prompt num_predict) context

    module _ (is_active : ℕ → Bool) where
      unfoldable pub begun :
          Result x.Exception (Chunks x.Exception)
          → ServicerContext
          → List ModelPredictResponse × ServicerContext
      begun (err e) context = ([], set_ollama_error e context)
      begun (ok stream) context = pass_on model_name is_active 0 stream context

      -- `ModelPredictStream`, with what it yields, and what it has told the context.
      unfoldable pub serve_model_predict_stream :
          ModelPredictRequest → ServicerContext → List ModelPredictResponse × ServicerContext
      unfolding begun
      serve_model_predict_stream request context =
          if is_blank request.prompt
          then ([], set_status StatusCode.invalid_argument "prompt must not be empty" context)
          else begun (ollama.generate_stream model_name request.prompt num_predict) context

-- The servicer, and `__init__`: `client` builds Ollama's client for a host and a timeout.
pub record ModelPredictor (E : Type 0) : Type 0 where
  pub client : Ollama E
  pub model_name : String

abbrev pub new_model_predictor :
    {E T : Type 0}
    → (client : (host : String) → (timeout_sec : T) → Result E (Ollama E))
    → (ollama_host model_name : String) → (timeout_sec : T) → Result E (ModelPredictor E)
new_model_predictor client ollama_host model_name timeout_sec =
    elim (client ollama_host timeout_sec) [
      | err e ↦ err e
      | ok c ↦ ok (record { client = c; model_name = model_name })
    ]
