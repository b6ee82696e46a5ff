-- ===== src/Model/Examples.antt =====
-- The model endpoints on concrete prompts and streams.
use ai_gateway_monitor.Common.{
  ◌≡◌, ◌⊎◌, refl, true, false, none, List, [], ◌∷◌, ◌++◌, map, pos, ltb, arith,
}
use ai_gateway_monitor.Go.Strconv.{itoa}
use ai_gateway_monitor.Config.Loading.{default_config}
use ai_gateway_monitor.Proto.{ModelPredictResponse}
use ai_gateway_monitor.Proto.Clients.{ok, err, model_predict_stream, model_predict}
use ai_gateway_monitor.Http.{Event}
use ai_gateway_monitor.Http.Counting.{sse_events}
use ai_gateway_monitor.Testing.{
  test_errors, test_conn, reply, Delivery, chunk, anonymous, next, loop, loop-Rounds,
}
use ai_gateway_monitor.Model.{admitted, predict, predict_stream, step, handle}
use ai_gateway_monitor.Model.Unary.{IsServed, predict_model-IsServed}
use ai_gateway_monitor.Model.Rounds.{finished, Delivers, ended, then}
use ai_gateway_monitor.Model.Streaming.{message_of, closing, StreamedAs, predict_stream-StreamedAs}
use ai_gateway_monitor.Model.Termination.{after, step_continues}
use ai_gateway_monitor.Model.Delivery.{predict_stream_delivery}

abbrev script : List Delivery
script = chunk (reply "Hel" 0) ∷ chunk (reply "lo" 5) ∷ []

handlers : Unit {0}
unfolding predict predict_stream admitted step handle model_predict_stream model_predict
handlers = tt

accepts_exactly_the_limit :
    (admitted (record default_config { max_prompt_len = pos 3 }) (ok "语语语") ≡ ok "语语语")
    × (admitted (record default_config { max_prompt_len = pos 3 }) (ok "abcd")
        ≡ err "prompt exceeds maximum length of 3 characters")
unfolding admitted itoa
accepts_exactly_the_limit = (refl, refl)

predict_model-IsServed_example :
    IsServed test_errors
      (test_conn none [])
      default_config
      anonymous
      (admitted default_config (ok "Hi"))
      (predict test_errors (test_conn none []) default_config anonymous (ok "Hi"))
predict_model-IsServed_example =
    predict_model-IsServed test_errors (test_conn none []) default_config anonymous (ok "Hi")

abbrev streamed : List Event
streamed =
    predict_stream test_errors (test_conn none script) next (loop 10) default_config anonymous
      (ok "Hi")

streamed_names : map (λ e. e.0) (sse_events streamed) ≡ "message" ∷ "message" ∷ "done" ∷ []
unfolding handlers
streamed_names = refl

predict_stream-StreamedAs_example :
    StreamedAs test_errors
      (test_conn none script)
      next
      (loop 10)
      default_config
      anonymous
      (admitted default_config (ok "Hi"))
      streamed
predict_stream-StreamedAs_example =
    predict_stream-StreamedAs test_errors (test_conn none script) next (loop 10) default_config
      anonymous (loop-Rounds 10 (step test_errors next anonymous)) (ok "Hi")

script_delivered : Delivers next script (reply "Hel" 0 ∷ reply "lo" 5 ∷ []) finished
script_delivered =
    then script (reply "Hel" 0) refl
      (then (chunk (reply "lo" 5) ∷ []) (reply "lo" 5) refl (ended [] refl))

predict_stream_delivery_example :
    ((loop 10 (step test_errors next anonymous) script).1 ≡ false)
      × (sse_events streamed
          ≡ map message_of (reply "Hel" 0 ∷ reply "lo" 5 ∷ [])
            ++ closing test_errors anonymous finished)
    ⊎ ((loop 10 (step test_errors next anonymous) script).1 ≡ true)
      × ((first rest : List ModelPredictResponse) × (reply "Hel" 0 ∷ reply "lo" 5 ∷ []
            ≡ first ++ rest)
          × (sse_events streamed ≡ map message_of first))
unfolding admitted model_predict_stream
predict_stream_delivery_example =
    predict_stream_delivery test_errors (test_conn none script) next (loop 10) default_config
      anonymous (loop-Rounds 10 (step test_errors next anonymous)) (ok "Hi") "Hi" script
      (reply "Hel" 0 ∷ reply "lo" 5 ∷ []) finished refl refl script_delivered (λ e. cc)

step_continues_example :
    (step test_errors next anonymous (after (step test_errors next anonymous) 2 script)).1 ≡ ltb 2 2
step_continues_example =
    step_continues test_errors next anonymous 2 script_delivered (λ e. cc) (omega arith)
