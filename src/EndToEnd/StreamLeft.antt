-- ===== src/EndToEnd/StreamLeft.antt =====
-- POST /predict/model/stream, through to Ollama and back, for a client that leaves.
use mathlib.Core.Path.{subst}
use mathlib.Core.List.{append_assoc}
use ai_gateway_monitor.Common.{
  ℕ, ◌≤◌, ◌≡◌, sym, ◌∙◌, ◌⊎◌, inl, inr, ap, refl, Bool, true, false, arith, String, Option, List,
  [], ◌∷◌, ◌++◌, map, length, length-append, All, All-prefix, Bool-cases,
}
use ai_gateway_monitor.Config.{Config}
use ai_gateway_monitor.Proto.{ModelPredictResponse}
use ai_gateway_monitor.Proto.Clients.{Result, ok, err, ClientConn, model_predict_stream}
use ai_gateway_monitor.Http.{Event, Context, Json}
use ai_gateway_monitor.Http.Counting.{sse_events}
use ai_gateway_monitor.ApiError.{GrpcErrors}
use ai_gateway_monitor.ApiError.Contract.{error_body}
use ai_gateway_monitor.Model.{admitted, request, StepFunction, Received, step, predict_stream}
use ai_gateway_monitor.Model.Rounds.{Rounds, broken, Delivers}
use ai_gateway_monitor.Model.Streaming.{message_of}
use ai_gateway_monitor.Model.Delivery.{predict_stream_delivery}
use ai_gateway_monitor.Backend.{Exceptions, new_context}
use ai_gateway_monitor.Backend.OllamaPredictor.{
  Ollama, GenerateResponse, Chunks, is_blank, pass_on, begun, serve_model_predict_stream,
}
use ai_gateway_monitor.Backend.OllamaPredictor.Messages.{Fits, as_message}
use ai_gateway_monitor.Backend.OllamaPredictor.Yields.{
  stream_of, stream_of_all, pass_on-Passed, pass_on_before,
}

map-prefix :
    {A B : Type 0} (f : A → B) (xs ys : List B) (zs : List A)
    → xs ++ ys ≡ map f zs
    → (first rest : List A) × (zs ≡ first ++ rest) × (xs ≡ map f first)
map-prefix f [] ys zs same = ([], zs, refl, refl)
map-prefix f (x ∷ xs) ys [] same = cc
map-prefix f (x ∷ xs) ys (z ∷ zs) same =
    let (first, rest, split, mapped) = map-prefix f xs ys zs (cc) in (z ∷ first, rest, cc, cc)

module _ (x : Exceptions) (ollama : Ollama x.Exception) (model_name : String) where
  -- Messages that are the first replies of Ollama's stream for a prompt that is not blank, field by
  -- field, or none.
  abbrev pub Begins : String → List ModelPredictResponse → Type 0
  Begins prompt messages =
      (messages ≡ [])
      ⊎ ((replies rest : List GenerateResponse) × (last : Option x.Exception) × (is_blank prompt
            ≡ false)
          × (ollama.generate_stream model_name prompt 512 ≡ ok (stream_of (replies ++ rest) last))
          × All Fits replies
          × (messages ≡ map (as_message model_name) replies))

  Begins-prefix :
      (prompt : String) (first rest : List ModelPredictResponse)
      → Begins prompt (first ++ rest)
      → Begins prompt first
  Begins-prefix prompt [] rest (inl none_at_all) = inl refl
  Begins-prefix prompt (m ∷ first) rest (inl none_at_all) = cc
  Begins-prefix prompt first rest (inr (replies, more, last, text, given, fits, same)) =
      let (here, after, split, mapped) =
        map-prefix (as_message model_name) first rest replies same in
      inr (
        here,
        after ++ more,
        last,
        text,
        given
            ∙ ap (λ u. ok (stream_of u last))
                (ap (λ u. u ++ more) split ∙ append_assoc here after more),
        All-prefix Fits here after (subst (λ u. All Fits u) split fits),
        mapped,
      )

  module _ (is_active : ℕ → Bool) where
    begun-Begins :
        (prompt : String) (r : Result x.Exception (Chunks x.Exception))
        → is_blank prompt ≡ false
        → ollama.generate_stream model_name prompt 512 ≡ r
        → Begins prompt (begun x ollama model_name is_active r new_context).0
    unfolding begun
    begun-Begins prompt (err e) text given = inl refl
    begun-Begins prompt (ok stream) text given =
        let (replies, last, shape) = stream_of_all stream in
        let (first, rest, split, fits, same, _) =
          pass_on-Passed x model_name is_active 0 replies last new_context in
        inr (
          first,
          rest,
          last,
          text,
          given ∙ ap ok shape ∙ ap (λ u. ok (stream_of u last)) split,
          fits,
          ap (λ s. (pass_on x model_name is_active 0 s new_context).0) shape ∙ same,
        )

    serve_text :
        (prompt : String)
        → is_blank prompt ≡ false
        → serve_model_predict_stream x ollama model_name is_active (request prompt) new_context
          ≡ begun x ollama model_name is_active
              (ollama.generate_stream model_name prompt 512)
              new_context
    unfolding serve_model_predict_stream
    serve_text prompt text = rw (text, serve_model_predict_stream) refl

    serve-Begins :
        (prompt : String)
        → Begins prompt
            (serve_model_predict_stream x ollama model_name is_active
              (request prompt)
              new_context).0
    unfolding serve_model_predict_stream
    serve-Begins prompt = elim (Bool-cases (is_blank prompt)) [
      | inl empty ↦ inl (rw (empty, serve_model_predict_stream) refl)
      | inr text ↦
          subst (λ p. Begins prompt p.0) (sym (serve_text prompt text))
            (begun-Begins prompt (ollama.generate_stream model_name prompt 512) text refl)
    ]

    begun_before :
        (n : ℕ)
        → is_active n ≡ false
        → (r : Result x.Exception (Chunks x.Exception))
        → length (begun x ollama model_name is_active r new_context).0 ≤ n
    unfolding begun
    begun_before n gone (err e) = omega arith
    begun_before n gone (ok stream) =
        let bound =
          pass_on_before x model_name is_active n gone 0 stream new_context (omega arith) in
        omega (arith, bound)

    serve_before :
        (n : ℕ)
        → is_active n ≡ false
        → (prompt : String)
        → length
            (serve_model_predict_stream x ollama model_name is_active
              (request prompt)
              new_context).0
          ≤ n
    unfolding serve_model_predict_stream
    serve_before n gone prompt = elim (Bool-cases (is_blank prompt)) [
      | inl empty ↦ rw (empty, serve_model_predict_stream) (omega arith)
      | inr text ↦
          rw (text, serve_model_predict_stream)
            (begun_before n gone (ollama.generate_stream model_name prompt 512))
    ]

module _ (x : Exceptions) (ollama : Ollama x.Exception) (model_name : String) (is_active : ℕ → Bool)
    (g : GrpcErrors) (c : Context) {S : Type 0} (recv : S → Received g.Err × S) where
  -- What gRPC hands the gateway of an RPC that was cancelled: some of the yielded messages, the
  -- first ones, and then an error, unless nobody asks.
  abbrev pub CarriesCancelled : List ModelPredictResponse → S → Type 0
  CarriesCancelled yielded stream =
      (first rest : List ModelPredictResponse) × (e : g.Err) × (yielded ≡ first ++ rest)
      × Delivers recv stream first (broken e)

  -- The events of a stream whose client left, given whether c.Stream found it gone: the messages
  -- alone, or an error after them, which cuts the stream as the RPC is cancelled.
  abbrev pub Leaves : List ModelPredictResponse → Bool → List (String × Json) → Type 0
  Leaves messages true events = events ≡ map message_of messages
  Leaves messages false events =
      (e : g.Err) × (events
        ≡ map message_of messages ++ ("error", error_body "STREAM_ERROR" (g.text e) c) ∷ [])

  -- For an admitted prompt, a client that leaves, so that the backend's n-th check finds the RPC
  -- cancelled, gRPC that carries a cancelled stream as documented, and a c.Stream that keeps gin's
  -- contract: what the gateway sends are messages of the first replies of Ollama's stream, n at
  -- most, in order, with their texts and numbers, or none; no done event follows, and an error
  -- event only if it was the cancelled RPC that ended the loop.
  pub predict_stream_left :
      (conn : ClientConn g.Err S) (gin_stream : StepFunction S → S → List Event × Bool)
      (cfg : Config)
      → ((s : S)
          → Rounds
              (step g recv c)
              s
              (gin_stream (step g recv c) s).0
              (gin_stream (step g recv c) s).1)
      → (bound : Result String String) (prompt : String) (stream : S) (n : ℕ)
      → admitted cfg bound ≡ ok prompt
      → model_predict_stream conn cfg.model_timeout (request prompt) ≡ ok stream
      → is_active n ≡ false
      → CarriesCancelled
          (serve_model_predict_stream x ollama model_name is_active (request prompt) new_context).0
          stream
      → (messages : List ModelPredictResponse) × Begins x ollama model_name prompt messages
        × (length messages ≤ n)
        × Leaves messages
            (gin_stream (step g recv c) stream).1
            (sse_events (predict_stream g conn recv gin_stream cfg c bound))
  predict_stream_left conn gin_stream cfg documented bound prompt stream n admit opens gone
        (first, rest, e, split, delivers) =
      let begins = Begins-prefix x ollama model_name prompt first rest (
        subst (λ u. Begins x ollama model_name prompt u) split
          (serve-Begins x ollama model_name is_active prompt)) in
      let few = serve_before x ollama model_name is_active n gone prompt in
      let few_first : length first ≤ n =
        omega (arith, few, ap length split, length-append first rest) in
      elim (predict_stream_delivery g conn recv gin_stream cfg c documented bound prompt stream
        first (broken e) admit opens delivers (λ same. cc)) [
          | inl (stays, events) ↦ (first, begins, few_first, rw stays (e, events))
          | inr (left, (got, missed, cut, events)) ↦ (
            got,
            Begins-prefix x ollama model_name prompt got missed
                (subst (λ u. Begins x ollama model_name prompt u) cut begins),
            omega (arith, few_first, ap length cut, length-append got missed),
            rw left events,
          )
        ]
