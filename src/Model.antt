-- ===== src/Model.antt =====
-- service_go/handlers/model.go: POST /predict/model and POST /predict/model/stream.
-- Gin's JSON binding, the connection to the backend, `Recv` on a stream and gin's loop over the
-- step of a streamed response are arguments.
pub mod Unary
pub mod Wire
pub mod Rounds
pub mod Transcript
pub mod Streaming
pub mod Delivery
pub mod Rpc
pub mod Termination
mod Examples
use Prim.Native.String
use ai_gateway_monitor.Common.{
  ℕ, ◌≡◌, Bool, true, false, String, Option, none, some, List, [], ◌∷◌, ◌++◌, if◌then◌else◌, ℤ, pos,
  ltb_ℤ,
}
use ai_gateway_monitor.Go.Strconv.{itoa}
use ai_gateway_monitor.Config.{Config}
use ai_gateway_monitor.Proto.{ModelPredictRequest, ModelPredictResponse}
use ai_gateway_monitor.Proto.Clients.{
  Result, ok, err, ClientConn, model_predict, model_predict_name, model_predict_stream,
  model_predict_stream_name,
}
use ai_gateway_monitor.Http.{
  Event, respond, set_header, sse, count_request, observe_http, observe_grpc, add_tokens,
  observe_generation, call, log_error, model, Context, request_id, Json, Members, str, int, flag,
  seconds, obj, member, end, status_ok,
}
use ai_gateway_monitor.ApiError.{
  GrpcErrors, code_stream_error, write_grpc_error, write_validation_error,
}

-- The handler: the client of the backend, here its connection, and the settings.
pub record ModelHandler (E S : Type 0) : Type 0 where
  pub client : ClientConn E S
  pub cfg : Config

-- `NewModelHandler`
abbrev pub new_model_handler : {E S : Type 0} → ClientConn E S → Config → ModelHandler E S
new_model_handler client cfg = record { client = client; cfg = cfg }

abbrev pub unary_path : String
unary_path = "/predict/model"

abbrev pub stream_path : String
stream_path = "/predict/model/stream"

abbrev pub too_long_message : Config → String
too_long_message cfg =
    String.◌++◌ "prompt exceeds maximum length of "
      (String.◌++◌ (itoa cfg.max_prompt_len) " characters")

-- `utf8.RuneCountInString(prompt) > cfg.MaxPromptLen`. A prompt comes from JSON, which Go decodes
-- to valid UTF-8, so its runes are the characters of a text.
abbrev pub is_too_long : Config → String → Bool
is_too_long cfg prompt = ltb_ℤ cfg.max_prompt_len (pos (String.count prompt))

-- The guards that both handlers begin with: a prompt to forward, or a validation message.
unfoldable pub admitted : Config → Result String String → Result String String
admitted cfg (err message) = err message
admitted cfg (ok prompt) = if is_too_long cfg prompt then err (too_long_message cfg) else ok prompt

abbrev pub request : String → ModelPredictRequest
request prompt = record { prompt = prompt }

-- The metrics of one response or chunk, recorded only if it reports generated tokens.
unfoldable pub record_usage : ModelPredictResponse → List Event
record_usage resp =
    if ltb_ℤ (pos 0) resp.eval_count
    then add_tokens resp.model_name resp.eval_count
      ∷ observe_generation resp.model_name resp.eval_duration
      ∷ []
    else []

-- The JSON of a response, with what follows the metrics.
abbrev pub response_json : ModelPredictResponse → Members → Json
response_json resp more = obj (
    member "reply" (str resp.response) (
      member "model" (str resp.model_name) (
        member "metrics"
          (obj (
            member "prompt_tokens" (int resp.prompt_eval_count) (
              member "output_tokens" (int resp.eval_count)
                (member "duration_sec" (seconds resp.eval_duration) end))))
          more)))

abbrev pub grpc_status : {E A : Type 0} → Result E A → String
grpc_status (ok _) = "ok"
grpc_status (err _) = "error"

module _ (g : GrpcErrors) {S : Type 0} (cc : ClientConn g.Err S) (cfg : Config) (c : Context) where
  answer : Result g.Err ModelPredictResponse → List Event
  answer (err e) = log_error "model service call failed" ∷ write_grpc_error g c unary_path e
  answer (ok resp) =
      record_usage resp
      ++ count_request unary_path "200"
        ∷ respond status_ok
            (response_json resp (member "source" (str "Go Gateway -> Ollama (Qwen)") end))
        ∷ []

  pub forward : Result String String → List Event
  unfolding answer
  forward (err message) = write_validation_error c unary_path message
  forward (ok prompt) =
      let result = model_predict cc cfg.model_timeout (request prompt) in
      call model_predict_name cfg.model_timeout (model (request prompt))
      ∷ observe_grpc "ModelPredict" (grpc_status result)
      ∷ answer result

  -- `Predict`, given the result of the JSON binding.
  unfoldable pub predict : Result String String → List Event
  unfolding forward admitted
  predict bound = forward (admitted cfg bound) ++ observe_http unary_path ∷ []

-- What `stream.Recv` returns; io.EOF is `eof`.
pub data Received (E : Type 0) : Type 0 where
  chunk : ModelPredictResponse → Received E
  eof : Received E
  failed : E → Received E

-- The function that is handed to `c.Stream`: what it does, and whether to keep the stream open.
abbrev pub StepFunction : Type 0 → Type 0
StepFunction S = S → List Event × Bool × S

module _ (g : GrpcErrors) {S : Type 0} (recv : S → Received g.Err × S) (c : Context) where
  -- The cases of one round, by what was received.
  unfoldable pub handle : Received g.Err → S → List Event × Bool × S
  unfolding record_usage
  handle eof s = (sse "done" (obj (member "done" (flag true) end)) ∷ [], false, s)
  handle (failed e) s = (
    log_error "stream recv error"
        ∷ sse "error" (
            obj (
              member "code" (str code_stream_error)
                (member "message" (str (g.text e)) (member "request_id" (str (request_id c)) end))))
        ∷ [],
    false,
    s,
  )
  handle (chunk resp) s =
      (record_usage resp ++ sse "message" (response_json resp end) ∷ [], true, s)

  unfoldable pub step : StepFunction S
  step s = let (received, s') = recv s in handle received s'

module _ (g : GrpcErrors) {S : Type 0} (cc : ClientConn g.Err S) (recv : S → Received g.Err × S)
    (gin_stream : StepFunction S → S → List Event × Bool) (cfg : Config) (c : Context) where
  -- The headers, the count, and the streamed body.
  pub deliver : S → List Event
  deliver stream =
      set_header "Content-Type" "text/event-stream"
      ∷ set_header "Cache-Control" "no-cache"
      ∷ set_header "Connection" "keep-alive"
      ∷ set_header "X-Accel-Buffering" "no"
      ∷ count_request stream_path "200"
      ∷ (gin_stream (step g recv c) stream).0

  pub opened : Result g.Err S → List Event
  unfolding deliver
  opened (err e) = log_error "model stream initiation failed" ∷ write_grpc_error g c stream_path e
  opened (ok stream) = deliver stream

  pub start : Result String String → List Event
  unfolding opened
  start (err message) = write_validation_error c stream_path message
  start (ok prompt) =
      let result = model_predict_stream cc cfg.model_timeout (request prompt) in
      call model_predict_stream_name cfg.model_timeout (model (request prompt))
      ∷ observe_grpc "ModelPredictStream" (grpc_status result)
      ∷ opened result

  -- `PredictStream`, given the result of the JSON binding.
  unfoldable pub predict_stream : Result String String → List Event
  unfolding start admitted
  predict_stream bound = start (admitted cfg bound) ++ observe_http stream_path ∷ []
