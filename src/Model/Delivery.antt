-- ===== src/Model/Delivery.antt =====
-- What the client of a stream may miss: nothing, or all that follows some point.
use mathlib.Core.Path.{subst}
use mathlib.Core.List.{append-nil}
use ai_gateway_monitor.Common.{
  ◌∙◌, sym, Bool, true, false, ◌≡◌, ◌≢◌, ◌⊎◌, inl, inr, ap, refl, String, List, [], ◌∷◌, ◌++◌, map,
}
use ai_gateway_monitor.Config.{Config}
use ai_gateway_monitor.Proto.{ModelPredictResponse}
use ai_gateway_monitor.Proto.Clients.{Result, ok, ClientConn, model_predict_stream}
use ai_gateway_monitor.Http.{Event, Context}
use ai_gateway_monitor.Http.Counting.{sse_events}
use ai_gateway_monitor.ApiError.{GrpcErrors}
use ai_gateway_monitor.Model.{admitted, request, StepFunction, Received, step, predict_stream}
use ai_gateway_monitor.Model.Rounds.{
  Rounds, Ending, disconnected, Delivers, cut, ended, broke, then, is_gone, broken, finished,
}
use ai_gateway_monitor.Model.Streaming.{
  message_of, closing, OpenedAs, StreamedAs, predict_stream-StreamedAs,
}

-- Two accounts of one stream, the first of them complete: they agree, or the second stops early.
abbrev Agree :
    {E : Type 0}
    → List ModelPredictResponse
    → Ending E
    → List ModelPredictResponse
    → Ending E
    → Type 0
Agree chunks ending chunks' ending' =
    ((chunks' ≡ chunks) × (ending' ≡ ending))
    ⊎ ((ending' ≡ disconnected) × ((rest : List ModelPredictResponse) × (chunks ≡ chunks' ++ rest)))

Agree-cons :
    {E : Type 0} (resp resp' : ModelPredictResponse) {chunks chunks' : List ModelPredictResponse}
    {ending ending' : Ending E}
    → resp' ≡ resp
    → Agree chunks ending chunks' ending'
    → Agree (resp ∷ chunks) ending (resp' ∷ chunks') ending'
Agree-cons resp resp' same (inl (cs, e)) = inl (cc, e)
Agree-cons resp resp' same (inr (e, (rest, cs))) = inr (e, (rest, cc))

Delivers-Agree :
    {E S : Type 0} (recv : S → Received E × S) {s : S} {chunks chunks' : List ModelPredictResponse}
    {ending ending' : Ending E}
    → ending ≢ disconnected
    → Delivers recv s chunks ending
    → Delivers recv s chunks' ending'
    → Agree chunks ending chunks' ending'
Delivers-Agree recv n cut d = absurd (n refl)
Delivers-Agree recv n (ended s e) cut = inr (refl, ([], refl))
Delivers-Agree recv n (ended s e) (ended _ e') = inl (refl, refl)
Delivers-Agree recv n (ended s e) (broke _ x e') = cc
Delivers-Agree recv n (ended s e) (then _ resp e' d) = cc
Delivers-Agree recv n (broke s x e) cut = inr (refl, ([], refl))
Delivers-Agree recv n (broke s x e) (ended _ e') = cc
Delivers-Agree recv n (broke s x e) (broke _ y e') = inl (refl, cc)
Delivers-Agree recv n (broke s x e) (then _ resp e' d) = cc
Delivers-Agree recv n (then s resp e d) cut = inr (refl, (_, refl))
Delivers-Agree recv n (then s resp e d) (ended _ e') = cc
Delivers-Agree recv n (then s resp e d) (broke _ x e') = cc
Delivers-Agree recv n (then s resp e d) (then _ resp' e' d') =
    Agree-cons resp resp' (cc) (Delivers-Agree recv n d d')

is_gone-false : {E : Type 0} (e : Ending E) → e ≢ disconnected → is_gone e ≡ false
is_gone-false disconnected h = absurd (h refl)
is_gone-false finished h = refl
is_gone-false (broken x) h = refl

module _ (g : GrpcErrors) {S : Type 0} (cc : ClientConn g.Err S) (recv : S → Received g.Err × S)
    (gin_stream : StepFunction S → S → List Event × Bool) (cfg : Config) (c : Context)
    (documented : (s : S)
      → Rounds
          (step g recv c)
          s
          (gin_stream (step g recv c) s).0
          (gin_stream (step g recv c) s).1) where
  -- For an admitted prompt whose stream the backend opens and ends, or breaks, after some chunks:
  -- unless gin's loop reports that the client left, the client gets a message for each chunk, in
  -- order, and then the closing event; if it left, it has got the messages of the first chunks and
  -- no closing event. No chunk is lost, repeated or moved in between.
  pub predict_stream_delivery :
      (bound : Result String String) (prompt : String) (stream : S)
      (chunks : List ModelPredictResponse) (ending : Ending g.Err)
      → admitted cfg bound ≡ ok prompt
      → model_predict_stream cc cfg.model_timeout (request prompt) ≡ ok stream
      → Delivers recv stream chunks ending
      → ending ≢ disconnected
      → (((gin_stream (step g recv c) stream).1 ≡ false)
          × (sse_events (predict_stream g cc recv gin_stream cfg c bound)
              ≡ map message_of chunks ++ closing g c ending))
        ⊎ (((gin_stream (step g recv c) stream).1 ≡ true)
            × ((first rest : List ModelPredictResponse) × (chunks ≡ first ++ rest)
                × (sse_events (predict_stream g cc recv gin_stream cfg c bound)
                    ≡ map message_of first)))
  predict_stream_delivery bound prompt stream chunks ending admit open_ delivered ends =
      let t = predict_stream g cc recv gin_stream cfg c bound in
      let whole =
        subst (λ d. StreamedAs g cc recv gin_stream cfg c d t) admit
          (predict_stream-StreamedAs g cc recv gin_stream cfg c documented bound) in
      let (sent, last, seen, streams) =
        subst (λ r. OpenedAs g cc recv gin_stream cfg c prompt r t) open_ whole in
      elim (Delivers-Agree recv ends delivered seen) [
        | inl (same, same_end) ↦ inl (
          sym streams.left_known ∙ ap is_gone same_end ∙ is_gone-false ending ends,
          streams.sent
              ∙ ap (λ u. map message_of u ++ closing g c last) same
              ∙ ap (λ e. map message_of chunks ++ closing g c e) same_end,
        )
        | inr (left, (rest, split)) ↦ inr (
          sym streams.left_known ∙ ap is_gone left,
          (
            sent,
            rest,
            split,
            streams.sent
                ∙ ap (λ e. map message_of sent ++ closing g c e) left
                ∙ append-nil (map message_of sent),
          ),
        )
      ]
