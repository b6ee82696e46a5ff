-- ===== src/Model/Rpc.antt =====
-- The model endpoints: the RPCs and their metric.
use ai_gateway_monitor.Common.{
  Bool, refl, ap, String, List, [], ◌∷◌, ◌++◌, Bool-cases, inl, inr, ltb_ℤ, pos,
}
use ai_gateway_monitor.Config.{Config}
use ai_gateway_monitor.Proto.{ModelPredictResponse}
use ai_gateway_monitor.Proto.Clients.{
  Result, ok, err, ClientConn, model_predict, model_predict_name, model_predict_stream,
  model_predict_stream_name,
}
use ai_gateway_monitor.Http.{Event, Context, call, observe_grpc, observe_http, model}
use ai_gateway_monitor.Http.Rpcs.{Reports, not_called, succeeded, failed}
use ai_gateway_monitor.ApiError.{
  GrpcErrors, api_error_from_grpc, write_grpc_error, write_validation_error,
}
use ai_gateway_monitor.ApiError.Contract.{api_error-ne-200}
use ai_gateway_monitor.Model.{
  unary_path, stream_path, admitted, request, record_usage, grpc_status, answer, forward, predict,
  StepFunction, Received, step, opened, start, predict_stream,
}
use ai_gateway_monitor.Model.Rounds.{Rounds}
use ai_gateway_monitor.Model.Transcript.{Rounds-Explained}
use ai_gateway_monitor.Model.Streaming.{transcript-Transcribes}

module _ (g : GrpcErrors) {S : Type 0} (cc : ClientConn g.Err S) (cfg : Config) (c : Context) where
  answered-Reports :
      (prompt : String) (r : Result g.Err ModelPredictResponse)
      → Reports model_predict_name "ModelPredict" unary_path (
          (call model_predict_name cfg.model_timeout (model (request prompt))
            ∷ observe_grpc "ModelPredict" (grpc_status r)
            ∷ answer g cc cfg c r)
          ++ observe_http unary_path ∷ [])
  unfolding answer write_grpc_error record_usage
  answered-Reports prompt (err e) =
      failed cfg.model_timeout (model (request prompt)) (api_error_from_grpc g e).1 refl refl refl
        (api_error-ne-200 g e)
  answered-Reports prompt (ok resp) = elim (Bool-cases (ltb_ℤ (pos 0) resp.eval_count)) [
    | inl some_tokens ↦
        rw some_tokens (succeeded cfg.model_timeout (model (request prompt)) refl refl refl)
    | inr no_tokens ↦
        rw no_tokens (succeeded cfg.model_timeout (model (request prompt)) refl refl refl)
  ]

  forward-Reports :
      (d : Result String String)
      → Reports model_predict_name "ModelPredict" unary_path
          (forward g cc cfg c d ++ observe_http unary_path ∷ [])
  unfolding forward write_validation_error
  forward-Reports (err message) = not_called refl refl
  forward-Reports (ok prompt) =
      answered-Reports prompt (model_predict cc cfg.model_timeout (request prompt))

  pub predict_model-Reports :
      (bound : Result String String)
      → Reports model_predict_name "ModelPredict" unary_path (predict g cc cfg c bound)
  unfolding predict
  predict_model-Reports bound = forward-Reports (admitted cfg bound)

module _ (g : GrpcErrors) {S : Type 0} (cc : ClientConn g.Err S) (recv : S → Received g.Err × S)
    (gin_stream : StepFunction S → S → List Event × Bool) (cfg : Config) (c : Context)
    (documented : (s : S)
      → Rounds
          (step g recv c)
          s
          (gin_stream (step g recv c) s).0
          (gin_stream (step g recv c) s).1) where
  opened-Reports :
      (prompt : String) (r : Result g.Err S)
      → Reports model_predict_stream_name "ModelPredictStream" stream_path (
          (call model_predict_stream_name cfg.model_timeout (model (request prompt))
            ∷ observe_grpc "ModelPredictStream" (grpc_status r)
            ∷ opened g cc recv gin_stream cfg c r)
          ++ observe_http stream_path ∷ [])
  unfolding opened write_grpc_error
  opened-Reports prompt (err e) =
      failed cfg.model_timeout (model (request prompt)) (api_error_from_grpc g e).1 refl refl refl
        (api_error-ne-200 g e)
  opened-Reports prompt (ok stream) =
      let (chunks, ending, delivered, same, left) = Rounds-Explained g c recv (documented stream) in
      let parts = transcript-Transcribes g c chunks ending in
      rw same (
        succeeded cfg.model_timeout (model (request prompt))
          (ap (λ u. (model_predict_stream_name, cfg.model_timeout, model (request prompt)) ∷ u)
            parts.no_calls)
          (ap (λ u. ("ModelPredictStream", "ok") ∷ u) parts.no_rpcs)
          (ap (λ u. (stream_path, "200") ∷ u) parts.no_count))

  start-Reports :
      (d : Result String String)
      → Reports model_predict_stream_name "ModelPredictStream" stream_path
          (start g cc recv gin_stream cfg c d ++ observe_http stream_path ∷ [])
  unfolding start write_validation_error
  start-Reports (err message) = not_called refl refl
  start-Reports (ok prompt) =
      opened-Reports prompt (model_predict_stream cc cfg.model_timeout (request prompt))

  pub predict_stream-Reports :
      (bound : Result String String)
      → Reports model_predict_stream_name "ModelPredictStream" stream_path
          (predict_stream g cc recv gin_stream cfg c bound)
  unfolding predict_stream
  predict_stream-Reports bound = start-Reports (admitted cfg bound)
