-- ===== src/Model/Streaming.antt =====
-- POST /predict/model/stream: the whole handler.
use ai_gateway_monitor.Model.Wire.{chunk_body}
use ai_gateway_monitor.Common.{
  ℤ, pos, ◌≡◌, inl, inr, ap, refl, true, String, List, [], ◌∷◌, ◌++◌, map, Bool-cases, ltb_ℤ,
  if◌then◌else◌, Bool,
}
use ai_gateway_monitor.Go.Strconv.{itoa}
use ai_gateway_monitor.Config.{Config}
use ai_gateway_monitor.Proto.{ModelPredictResponse}
use ai_gateway_monitor.Proto.Clients.{
  Result, ok, err, ClientConn, model_predict_stream, model_predict_stream_name,
}
use ai_gateway_monitor.Http.{
  Event, Request, call, observe_grpc, observe_http, model, Context, Json, str, flag, obj, member,
  end, request_id,
}
use ai_gateway_monitor.Http.Counting.{
  AnswersWith, responses, counted, http_timings, grpc_timings, calls, tokens, sse_events,
}
use ai_gateway_monitor.ApiError.{
  GrpcErrors, api_error_from_grpc, write_grpc_error, write_validation_error,
}
use ai_gateway_monitor.ApiError.Contract.{error_body}
use ai_gateway_monitor.Model.{
  stream_path, admitted, request, record_usage, StepFunction, Received, step, opened, start,
  predict_stream,
}
use ai_gateway_monitor.Model.Rounds.{
  Rounds, Ending, disconnected, finished, broken, is_gone, Delivers,
}
use ai_gateway_monitor.Model.Transcript.{transcript, Rounds-Explained}

-- The server-sent events and the tokens of a transcript, and that it holds nothing else.
abbrev pub message_of : ModelPredictResponse → String × Json
message_of resp = ("message", chunk_body resp)

abbrev pub usage_of : ModelPredictResponse → List (String × ℤ)
usage_of resp =
    if ltb_ℤ (pos 0) resp.eval_count then (resp.model_name, resp.eval_count) ∷ [] else []

abbrev pub usages : List ModelPredictResponse → List (String × ℤ)
usages [] = []
usages (resp ∷ chunks) = usage_of resp ++ usages chunks

module _ (g : GrpcErrors) (c : Context) where
  abbrev pub closing : Ending g.Err → List (String × Json)
  closing disconnected = []
  closing finished = ("done", obj (member "done" (flag true) end)) ∷ []
  closing (broken e) =
      (
        "error",
        obj (
            member "code" (str "STREAM_ERROR")
              (member "message" (str (g.text e)) (member "request_id" (str (request_id c)) end))),
      )
      ∷ []

  -- The readings of a transcript with what the handler does after it.
  pub record Transcribes (chunks : List ModelPredictResponse) (ending : Ending g.Err)
      (t : List Event) : Type 0 where
    pub sent : sse_events t ≡ map message_of chunks ++ closing ending
    pub metered : tokens t ≡ usages chunks
    pub no_json : responses t ≡ []
    pub no_count : counted t ≡ []
    pub no_calls : calls t ≡ []
    pub no_rpcs : grpc_timings t ≡ []
    pub timed_once : http_timings t ≡ stream_path ∷ []

  pub transcript-Transcribes :
      (chunks : List ModelPredictResponse) (ending : Ending g.Err)
      → Transcribes chunks ending (transcript g c chunks ending ++ observe_http stream_path ∷ [])
  unfolding record_usage
  transcript-Transcribes [] disconnected = record {
    sent = refl;
    metered = refl;
    no_json = refl;
    no_count = refl;
    no_calls = refl;
    no_rpcs = refl;
    timed_once = refl;
  }
  transcript-Transcribes [] finished = record {
    sent = refl;
    metered = refl;
    no_json = refl;
    no_count = refl;
    no_calls = refl;
    no_rpcs = refl;
    timed_once = refl;
  }
  transcript-Transcribes [] (broken e) = record {
    sent = refl;
    metered = refl;
    no_json = refl;
    no_count = refl;
    no_calls = refl;
    no_rpcs = refl;
    timed_once = refl;
  }
  transcript-Transcribes (resp ∷ chunks) ending =
      let ih = transcript-Transcribes chunks ending in
      elim (Bool-cases (ltb_ℤ (pos 0) resp.eval_count)) [
        | inl some_tokens ↦ record {
          sent = rw some_tokens (ap (λ u. message_of resp ∷ u) ih.sent);
          metered = rw some_tokens (ap (λ u. (resp.model_name, resp.eval_count) ∷ u) ih.metered);
          no_json = rw some_tokens ih.no_json;
          no_count = rw some_tokens ih.no_count;
          no_calls = rw some_tokens ih.no_calls;
          no_rpcs = rw some_tokens ih.no_rpcs;
          timed_once = rw some_tokens ih.timed_once;
        }
        | inr no_tokens ↦ record {
          sent = rw no_tokens (ap (λ u. message_of resp ∷ u) ih.sent);
          metered = rw no_tokens ih.metered;
          no_json = rw no_tokens ih.no_json;
          no_count = rw no_tokens ih.no_count;
          no_calls = rw no_tokens ih.no_calls;
          no_rpcs = rw no_tokens ih.no_rpcs;
          timed_once = rw no_tokens ih.timed_once;
        }
      ]

module _ (g : GrpcErrors) {S : Type 0} (cc : ClientConn g.Err S) (recv : S → Received g.Err × S)
    (gin_stream : StepFunction S → S → List Event × Bool) (cfg : Config) (c : Context) where
  abbrev one_call : String → List (String × ℤ × Request)
  one_call prompt = (model_predict_stream_name, cfg.model_timeout, model (request prompt)) ∷ []

  -- A stream that was opened: counted as 200, no JSON, and the backend's chunks as messages.
  pub record Streams (prompt : String) (chunks : List ModelPredictResponse) (ending : Ending g.Err)
      (left : Bool) (t : List Event) : Type 0 where
    pub sent : sse_events t ≡ map message_of chunks ++ closing g c ending
    pub left_known : is_gone ending ≡ left
    pub metered : tokens t ≡ usages chunks
    pub no_json : responses t ≡ []
    pub counted_once : counted t ≡ (stream_path, "200") ∷ []
    pub called_once : calls t ≡ one_call prompt
    pub timed_once : http_timings t ≡ stream_path ∷ []

  abbrev pub OpenedAs : String → Result g.Err S → List Event → Type 0
  OpenedAs prompt (err e) t =
      AnswersWith stream_path
        (
          (api_error_from_grpc g e).1,
          error_body (api_error_from_grpc g e).0.code (api_error_from_grpc g e).0.message c,
        )
        t
      × (calls t ≡ one_call prompt)
      × (sse_events t ≡ [])
  OpenedAs prompt (ok stream) t =
      (chunks : List ModelPredictResponse) × (ending : Ending g.Err) × Delivers recv stream chunks
        ending
      × Streams prompt chunks ending (gin_stream (step g recv c) stream).1 t

  abbrev pub StreamedAs : Result String String → List Event → Type 0
  StreamedAs (err message) t =
      AnswersWith stream_path (400, error_body "INVALID_ARGUMENT" message c) t
      × (calls t ≡ [])
      × (sse_events t ≡ [])
  StreamedAs (ok prompt) t =
      OpenedAs prompt (model_predict_stream cc cfg.model_timeout (request prompt)) t

  module _
      (documented : (s : S)
        → Rounds
            (step g recv c)
            s
            (gin_stream (step g recv c) s).0
            (gin_stream (step g recv c) s).1) where
    opened-OpenedAs :
        (prompt status : String) (r : Result g.Err S)
        → OpenedAs prompt r (
            (call model_predict_stream_name cfg.model_timeout (model (request prompt))
              ∷ observe_grpc "ModelPredictStream" status
              ∷ opened g cc recv gin_stream cfg c r)
            ++ observe_http stream_path ∷ [])
    unfolding opened write_grpc_error itoa
    opened-OpenedAs prompt status (err e) = ((refl, refl, refl), refl, refl)
    opened-OpenedAs prompt status (ok stream) =
        let (chunks, ending, delivered, same, left) =
          Rounds-Explained g c recv (documented stream) in
        let parts = transcript-Transcribes g c chunks ending in
        (
          chunks,
          ending,
          delivered,
          rw same (record {
            sent = parts.sent;
            left_known = left;
            metered = parts.metered;
            no_json = parts.no_json;
            counted_once = ap (λ u. (stream_path, "200") ∷ u) parts.no_count;
            called_once =
                ap (λ u. (model_predict_stream_name, cfg.model_timeout, model (request prompt)) ∷ u)
                  parts.no_calls;
            timed_once = parts.timed_once;
          }),
        )

    start-StreamedAs :
        (d : Result String String)
        → StreamedAs d (start g cc recv gin_stream cfg c d ++ observe_http stream_path ∷ [])
    unfolding start write_validation_error itoa
    start-StreamedAs (err message) = ((refl, refl, refl), refl, refl)
    start-StreamedAs (ok prompt) =
        opened-OpenedAs prompt _ (model_predict_stream cc cfg.model_timeout (request prompt))

    -- What POST /predict/model/stream does, if gin's loop does what it documents. A prompt that is
    -- not admitted is answered with 400 and no call. If the stream cannot be opened, the answer is
    -- the JSON entry of the error contract, and no event is sent. Once it is open, the request
    -- counts as 200 and there is no JSON; the client gets one message event for each chunk that
    -- the backend delivers, in order, then "done" if the stream ended, "error" if it broke, and
    -- nothing more if, and only if, the loop reports that the client left; tokens are counted for the chunks that report any.
    pub predict_stream-StreamedAs :
        (bound : Result String String)
        → StreamedAs (admitted cfg bound) (predict_stream g cc recv gin_stream cfg c bound)
    unfolding predict_stream
    predict_stream-StreamedAs bound = start-StreamedAs (admitted cfg bound)
