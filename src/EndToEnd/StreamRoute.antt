-- ===== src/EndToEnd/StreamRoute.antt =====
-- POST /predict/model/stream, through to Ollama and back.
use mathlib.Core.Path.{subst}
use mathlib.Core.List.{append-nil}
use ai_gateway_monitor.Common.{
  ℕ, ℤ, ◌≡◌, ◌≢◌, sym, ◌∙◌, inl, inr, ap, refl, Bool, true, false, String, Option, none, some, List,
  [], ◌∷◌, ◌++◌, map, All, Bool-cases,
}
use ai_gateway_monitor.Config.{Config}
use ai_gateway_monitor.Proto.{ModelPredictResponse}
use ai_gateway_monitor.Proto.Clients.{Result, ok, err, ClientConn, model_predict_stream}
use ai_gateway_monitor.Http.{Event, Context, Json, flag, obj, member, end}
use ai_gateway_monitor.Http.Counting.{sse_events}
use ai_gateway_monitor.ApiError.{GrpcErrors}
use ai_gateway_monitor.ApiError.Contract.{error_body}
use ai_gateway_monitor.Model.{admitted, request, StepFunction, Received, step, predict_stream}
use ai_gateway_monitor.Model.Rounds.{Rounds, Ending, disconnected, finished, broken, Delivers}
use ai_gateway_monitor.Model.Streaming.{message_of, closing}
use ai_gateway_monitor.Model.Delivery.{predict_stream_delivery}
use ai_gateway_monitor.Backend.{StatusCode, ServicerContext, Exceptions, new_context, set_status}
use ai_gateway_monitor.Backend.OllamaPredictor.{
  Ollama, GenerateResponse, Chunks, is_blank, message, pass_on, begun, serve_model_predict_stream,
}
use ai_gateway_monitor.Backend.OllamaPredictor.Failures.{Means, set_ollama_error-Means}
use ai_gateway_monitor.Backend.OllamaPredictor.Messages.{Fits, as_message}
use ai_gateway_monitor.Backend.OllamaPredictor.Yields.{
  stream_of, stream_of_all, Stops, at_end, at_error, cancelled, refused as stops_refused, Passed,
  pass_on-Passed,
}
use ai_gateway_monitor.EndToEnd.{HasStatus, CarriesStream}

abbrev pub Status : Type 0
Status = Option (StatusCode × String)

module _ (x : Exceptions) (ollama : Ollama x.Exception) (model_name : String)
    (is_active : ℕ → Bool) where
  -- What a client that stays gets of a prompt, given what Ollama makes of it: the messages, and the
  -- status at their end, if it is an error. Ollama gets the prompt as it is, with the limit of 512
  -- tokens.
  pub data Gets (prompt : String) : List ModelPredictResponse → Status → Type 0 where
    blank :
        is_blank prompt ≡ true
        → Gets prompt [] (some (StatusCode.invalid_argument, "prompt must not be empty"))
    not_begun :
        (e : x.Exception) (code : StatusCode) (details : String)
        → is_blank prompt ≡ false
        → ollama.generate_stream model_name prompt 512 ≡ err e
        → Means x e code details
        → Gets prompt [] (some (code, details))
    all :
        (replies : List GenerateResponse)
        → is_blank prompt ≡ false
        → ollama.generate_stream model_name prompt 512 ≡ ok (stream_of replies none)
        → All Fits replies
        → Gets prompt (map (as_message model_name) replies) none
    broke :
        (replies : List GenerateResponse) (e : x.Exception) (code : StatusCode) (details : String)
        → is_blank prompt ≡ false
        → ollama.generate_stream model_name prompt 512 ≡ ok (stream_of replies (some e))
        → All Fits replies
        → Means x e code details
        → Gets prompt (map (as_message model_name) replies) (some (code, details))
    refused :
        (replies rest : List GenerateResponse) (r : GenerateResponse) (last : Option x.Exception)
        (n : ℤ) (code : StatusCode) (details : String)
        → is_blank prompt ≡ false
        → ollama.generate_stream model_name prompt 512 ≡ ok (stream_of (replies ++ r ∷ rest) last)
        → All Fits replies
        → message x model_name r ≡ err (x.out_of_range n)
        → Means x (x.out_of_range n) code details
        → Gets prompt (map (as_message model_name) replies) (some (code, details))

  abbrev told : Status → ServicerContext
  told none = new_context
  told (some (code, details)) = set_status code details new_context

  abbrev Serves : String → List ModelPredictResponse × ServicerContext → Type 0
  Serves prompt (yielded, context) =
      (status : Status) × Gets prompt yielded status × (context ≡ told status)

  module _ (stays : (n : ℕ) → is_active n ≡ true) where
    Stops-Serves :
        (prompt : String) (first : List GenerateResponse) {n : ℕ} {rest : List GenerateResponse}
        {last : Option x.Exception} {context : ServicerContext}
        → is_blank prompt ≡ false
        → ollama.generate_stream model_name prompt 512 ≡ ok (stream_of (first ++ rest) last)
        → All Fits first
        → Stops x model_name is_active n new_context rest last context
        → Serves prompt (map (as_message model_name) first, context)
    Stops-Serves prompt first text given fits at_end =
        (none, all first text (rw (append-nil first) at given) fits, refl)
    Stops-Serves prompt first text given fits (at_error e) =
        let (code, details, means, same) = set_ollama_error-Means x e new_context in
        (
          some (code, details),
          broke first e code details text (rw (append-nil first) at given) fits means,
          same,
        )
    Stops-Serves prompt first {n} text given fits (cancelled r rest last gone) =
        absurd (let here = stays n in cc)
    Stops-Serves prompt first text given fits (stops_refused r rest last k large) =
        let (code, details, means, same) =
          set_ollama_error-Means x (x.out_of_range k) new_context in
        (
          some (code, details),
          refused first rest r last k code details text given fits large means,
          same,
        )

    Passed-Serves :
        (prompt : String) (replies : List GenerateResponse) (last : Option x.Exception)
        (p : List ModelPredictResponse × ServicerContext)
        → is_blank prompt ≡ false
        → ollama.generate_stream model_name prompt 512 ≡ ok (stream_of replies last)
        → Passed x model_name is_active 0 replies last new_context p
        → Serves prompt p
    Passed-Serves prompt replies last p text given (first, rest, split, fits, same, stops) =
        subst (λ y. Serves prompt (y, p.1)) (sym same)
          (Stops-Serves prompt first text (given ∙ ap (λ u. ok (stream_of u last)) split) fits
            stops)

    begun-Serves :
        (prompt : String) (r : Result x.Exception (Chunks x.Exception))
        → is_blank prompt ≡ false
        → ollama.generate_stream model_name prompt 512 ≡ r
        → Serves prompt (begun x ollama model_name is_active r new_context)
    unfolding begun
    begun-Serves prompt (err e) text given =
        let (code, details, means, same) = set_ollama_error-Means x e new_context in
        (some (code, details), not_begun e code details text given means, same)
    begun-Serves prompt (ok stream) text given =
        let (replies, last, shape) = stream_of_all stream in
        Passed-Serves prompt replies last (pass_on x model_name is_active 0 stream new_context) text
          (given ∙ ap ok shape)
          (subst
            (λ s.
              Passed x model_name is_active 0 replies last new_context
                (pass_on x model_name is_active 0 s new_context))
            (sym shape) (pass_on-Passed x model_name is_active 0 replies last new_context))

    pub serve-Serves :
        (prompt : String)
        → Serves prompt
            (serve_model_predict_stream x ollama model_name is_active (request prompt) new_context)
    unfolding serve_model_predict_stream
    serve-Serves prompt = elim (Bool-cases (is_blank prompt)) [
      | inl empty ↦ rw (empty, serve_model_predict_stream) (_, blank empty, refl)
      | inr text ↦
          rw (text, serve_model_predict_stream)
            (begun-Serves prompt (ollama.generate_stream model_name prompt 512) text refl)
    ]

module _ (x : Exceptions) (ollama : Ollama x.Exception) (model_name : String) (is_active : ℕ → Bool)
    (stays : (n : ℕ) → is_active n ≡ true) (g : GrpcErrors) (c : Context) where
  -- The last event of a stream with this status.
  pub data Closes : Status → List (String × Json) → Type 0 where
    done : Closes none (("done", obj (member "done" (flag true) end)) ∷ [])
    error :
        (code : StatusCode) (details : String) (e : g.Err)
        → HasStatus g code details e
        → Closes (some (code, details)) (("error", error_body "STREAM_ERROR" (g.text e) c) ∷ [])

  module _ {S : Type 0} (recv : S → Received g.Err × S) where
    delivered :
        (stream : S) (yielded : List ModelPredictResponse) (status : Status)
        → CarriesStream g x recv (yielded, told x ollama model_name is_active status) stream
        → (ending : Ending g.Err) × Delivers recv stream yielded ending
          × (ending ≢ disconnected)
          × Closes status (closing g c ending)
    unfolding set_status
    delivered stream yielded none d = (finished, d, (λ e. cc), done)
    delivered stream yielded (some (code, details)) (e, status, d) =
        (broken e, d, (λ e. cc), error code details e status)

    -- For an admitted prompt, a stream that gRPC opens and carries as documented, a c.Stream that
    -- keeps gin's contract, and a client that stays: it gets a message for each of Ollama's
    -- replies, in order, with its text and numbers, up to the first that does not fit, and then one
    -- more event: done if Ollama's stream came to its end, and otherwise an error with the status
    -- that the backend set. A prompt of white space only, which Ollama never gets, and a stream that
    -- Ollama does not begin give the error alone.
    pub predict_stream_gets :
        (conn : ClientConn g.Err S) (gin_stream : StepFunction S → S → List Event × Bool)
        (cfg : Config)
        → ((s : S)
            → Rounds
                (step g recv c)
                s
                (gin_stream (step g recv c) s).0
                (gin_stream (step g recv c) s).1)
        → (bound : Result String String) (prompt : String) (stream : S)
        → admitted cfg bound ≡ ok prompt
        → model_predict_stream conn cfg.model_timeout (request prompt) ≡ ok stream
        → CarriesStream g x recv
            (serve_model_predict_stream x ollama model_name is_active (request prompt) new_context)
            stream
        → (gin_stream (step g recv c) stream).1 ≡ false
        → (messages : List ModelPredictResponse) × (status : Status) × (last : List (String × Json))
          × Gets x ollama model_name is_active prompt messages status
          × Closes status last
          × (sse_events (predict_stream g conn recv gin_stream cfg c bound)
              ≡ map message_of messages ++ last)
    predict_stream_gets conn gin_stream cfg documented bound prompt stream admit opens carries
          here =
        let served =
          serve_model_predict_stream x ollama model_name is_active (request prompt) new_context in
        let (status, gets, same) = serve-Serves x ollama model_name is_active stays prompt in
        let (ending, delivers, ends, closes) =
          delivered stream served.0 status
            (subst (λ k. CarriesStream g x recv (served.0, k) stream) same carries) in
        elim (predict_stream_delivery g conn recv gin_stream cfg c documented bound prompt stream
          served.0 ending admit opens delivers ends) [
            | inl (_, events) ↦ (served.0, status, closing g c ending, gets, closes, events)
            | inr (left, _) ↦ absurd cc
          ]
