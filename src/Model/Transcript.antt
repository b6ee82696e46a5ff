-- ===== src/Model/Transcript.antt =====
-- The body of a streamed response as a function of what the backend delivered.
use ai_gateway_monitor.Common.{◌≡◌, ap, sym, refl, true, false, Bool, List, [], ◌∷◌, ◌++◌}
use mathlib.Core.Path.{subst}
use ai_gateway_monitor.Http.{
  Event, sse, log_error, Context, request_id, str, flag, obj, member, end,
}
use ai_gateway_monitor.Proto.{ModelPredictResponse}
use ai_gateway_monitor.ApiError.{GrpcErrors}
use ai_gateway_monitor.Model.{
  Received, chunk, eof, failed, record_usage, response_json, handle, step,
}
use ai_gateway_monitor.Model.Rounds.{
  Rounds, gone, last, more, Ending, disconnected, finished, broken, is_gone, Delivers, cut, ended,
  broke, then,
}

module _ (g : GrpcErrors) (c : Context) where
  -- A chunk becomes its usage metrics and one message event.
  abbrev pub chunk_events : ModelPredictResponse → List Event
  chunk_events resp = record_usage resp ++ sse "message" (response_json resp end) ∷ []

  abbrev pub ending_events : Ending g.Err → List Event
  ending_events disconnected = []
  ending_events finished = sse "done" (obj (member "done" (flag true) end)) ∷ []
  ending_events (broken e) =
      log_error "stream recv error"
      ∷ sse "error" (
          obj (
            member "code" (str "STREAM_ERROR")
              (member "message" (str (g.text e)) (member "request_id" (str (request_id c)) end))))
      ∷ []

  abbrev pub transcript : List ModelPredictResponse → Ending g.Err → List Event
  transcript [] ending = ending_events ending
  transcript (resp ∷ chunks) ending = chunk_events resp ++ transcript chunks ending

  module _ {S : Type 0} (recv : S → Received g.Err × S) where
    -- What a run of the loop did, with what was delivered to it.
    abbrev pub Explained : S → List Event → Bool → Type 0
    Explained s t left =
        (chunks : List ModelPredictResponse) × (ending : Ending g.Err) × Delivers recv s chunks
          ending
        × (t ≡ transcript chunks ending)
        × (is_gone ending ≡ left)

    last_round :
        (s : S) (r : Received g.Err)
        → (recv s).0 ≡ r
        → (handle g recv c r (recv s).1).1 ≡ false
        → Explained s (handle g recv c r (recv s).1).0 false
    unfolding handle
    last_round s (chunk resp) e stops = cc
    last_round s eof e stops = ([], finished, ended s e, refl, refl)
    last_round s (failed x) e stops = ([], broken x, broke s x e, refl, refl)

    another_round :
        (s : S) (r : Received g.Err) (rest : List Event) (left : Bool)
        → (recv s).0 ≡ r
        → (handle g recv c r (recv s).1).1 ≡ true
        → Explained (handle g recv c r (recv s).1).2 rest left
        → Explained s ((handle g recv c r (recv s).1).0 ++ rest) left
    unfolding handle
    another_round s (chunk resp) rest left e goes (chunks, ending, delivered, same, end_) = (
      resp ∷ chunks,
      ending,
      then s resp e delivered,
      ap (λ u. chunk_events resp ++ u) same,
      end_,
    )
    another_round s eof rest left e goes _ = cc
    another_round s (failed x) rest left e goes _ = cc

    -- Whatever gin does within its documentation, the body is the transcript of chunks and an
    -- ending that the backend's stream delivers.
    pub Rounds-Explained :
        {s : S} {t : List Event} {left : Bool}
        → Rounds (step g recv c) s t left
        → Explained s t left
    unfolding step
    Rounds-Explained gone = ([], disconnected, cut, refl, refl)
    Rounds-Explained (last s stops same) =
        subst (λ u. Explained s u false) (sym same) (last_round s (recv s).0 refl stops)
    Rounds-Explained (more s rest {left = left} goes rounds same) =
        subst (λ u. Explained s u left) (sym same)
          (another_round s (recv s).0 rest left refl goes (Rounds-Explained rounds))

    -- The other way round: whatever the stream delivers, a run of the loop transcribes it.
    pub Delivers-Rounds :
        {s : S} {chunks : List ModelPredictResponse} {ending : Ending g.Err}
        → Delivers recv s chunks ending
        → Rounds (step g recv c) s (transcript chunks ending) (is_gone ending)
    unfolding step handle
    Delivers-Rounds cut = gone
    Delivers-Rounds (ended s e) = last s (rw e) (rw e)
    Delivers-Rounds (broke s x e) = last s (rw e) (rw e)
    Delivers-Rounds {chunks = _ ∷ chunks} {ending} (then s resp e delivered) =
        more s (transcript chunks ending) (rw e) (rw e (Delivers-Rounds delivered)) (rw e)
