-- ===== src/EndToEnd/Examples.antt =====
-- The routes on concrete requests, with an Ollama and a classifier that answer as they are told.
use mathlib.Core.List.Perm
use ai_gateway_monitor.Common.{
  ℕ, ◌≡◌, ◌≤◌, refl, true, ltb, length, String, none, List, [], ◌∷◌, ◌++◌, map, arith, All,
}
use ai_gateway_monitor.Config.Loading.{default_config}
use ai_gateway_monitor.Proto.{ModelPredictResponse}
use ai_gateway_monitor.Proto.Clients.{ok, model_predict_stream}
use ai_gateway_monitor.Http.{Json}
use ai_gateway_monitor.Http.Counting.{AnswersWith, sse_events}
use ai_gateway_monitor.Testing.{
  test_errors, test_conn, reply, Delivery, chunk, failure, status, anonymous, next, loop,
  loop-Rounds, test_exceptions, empty_heap, overlapping, test_ollama, qwen, class_names,
  first_class, flower, flower_body, as_written,
}
use ai_gateway_monitor.Iris.{path, first_invalid, validate_iris_feature}
use ai_gateway_monitor.Iris.{predict as predict_iris}
use ai_gateway_monitor.Model.{unary_path, admitted, predict, predict_stream, step, handle}
use ai_gateway_monitor.Model.Rounds.{broke, then}
use ai_gateway_monitor.Model.Streaming.{message_of}
use ai_gateway_monitor.Backend.{set_status}
use ai_gateway_monitor.Backend.IrisPredictor.{
  refusal, serve_iris_predict, is_refused, name_at, classify, response,
}
use ai_gateway_monitor.Backend.OllamaPredictor.{
  is_blank, message, pass_on, set_ollama_error, serve_model_predict, serve_model_predict_stream,
}
use ai_gateway_monitor.EndToEnd.{HasStandardCodes}
use ai_gateway_monitor.EndToEnd.IrisRoute.{predict_iris_told}
use ai_gateway_monitor.EndToEnd.IrisRoute.{Told as IrisTold}
use ai_gateway_monitor.EndToEnd.Isolation.{Classifies, Reaches-Classifies}
use ai_gateway_monitor.EndToEnd.ModelRoute.{Told, predict_model_told}
use ai_gateway_monitor.EndToEnd.StreamRoute.{Gets, Closes, Status, predict_stream_gets}
use ai_gateway_monitor.EndToEnd.StreamLeft.{Begins, Leaves, predict_stream_left}

test_errors-HasStandardCodes : HasStandardCodes test_errors
test_errors-HasStandardCodes = record { deadline = refl; unavailable = refl; invalid = refl }

predict_model_told_example :
    (http_status : ℕ) × (body : Json) × Told test_exceptions test_ollama qwen anonymous "Hi"
      http_status body
    × AnswersWith unary_path
        (http_status, body)
        (predict test_errors (test_conn none []) default_config anonymous (ok "Hi"))
unfolding admitted serve_model_predict is_blank message
predict_model_told_example =
    predict_model_told test_exceptions test_ollama qwen anonymous test_errors
      test_errors-HasStandardCodes (test_conn none []) default_config (ok "Hi") "Hi" refl refl

predict_iris_told_example :
    (http_status : ℕ) × (body : Json) × IrisTold test_exceptions first_class class_names anonymous
      flower http_status body
    × AnswersWith path
        (http_status, body)
        (predict_iris test_errors
          (test_conn none [])
          default_config
          as_written
          anonymous
          (ok flower_body)
          0
          []).0
unfolding serve_iris_predict first_invalid validate_iris_feature refusal is_refused classify name_at
    response
predict_iris_told_example =
    predict_iris_told test_exceptions first_class class_names anonymous test_errors
      test_errors-HasStandardCodes (test_conn none []) default_config as_written (omega arith)
      (λ es. Perm.refl es) (ok flower_body) flower 0 [] tt refl refl

abbrev script : List Delivery
script =
    chunk (reply "Hel" 0) ∷ chunk (reply "lo" 5) ∷ failure (status 4 "Model backend timed out") ∷ []

predict_stream_gets_example :
    (messages : List ModelPredictResponse) × (code : Status) × (last : List (String × Json)) × Gets
      test_exceptions test_ollama qwen
      (λ _. true)
      "Hi"
      messages
      code
    × Closes test_exceptions test_ollama qwen
        (λ _. true)
        (λ _. refl)
        test_errors
        anonymous
        code
        last
    × (sse_events (
          predict_stream test_errors
            (test_conn none script)
            next
            (loop 10)
            default_config
            anonymous
            (ok "Hi"))
        ≡ map message_of messages ++ last)
unfolding admitted model_predict_stream serve_model_predict_stream step handle is_blank pass_on
    message set_ollama_error set_status
predict_stream_gets_example =
    predict_stream_gets test_exceptions test_ollama qwen (λ _. true) (λ _. refl) test_errors
      anonymous next (test_conn none script) (loop 10) default_config
      (loop-Rounds 10 (step test_errors next anonymous)) (ok "Hi") "Hi" script refl refl
      (
        status 4 "Model backend timed out",
        record { is_grpc = refl; same_code = refl; same_message = refl },
        then script (reply "Hel" 0) refl (
            then (chunk (reply "lo" 5) ∷ failure (status 4 "Model backend timed out") ∷ [])
              (reply "lo" 5) refl
              (broke (failure (status 4 "Model backend timed out") ∷ [])
                (status 4 "Model backend timed out") refl)),
      )
      refl

Reaches-Classifies_example :
    All (Classifies test_exceptions first_class class_names) overlapping.0.sent
unfolding first_invalid validate_iris_feature
Reaches-Classifies_example =
    Reaches-Classifies test_exceptions first_class class_names (omega arith) empty_heap
      overlapping.1 (refl, tt)

-- The client leaves after the first message, and the loop of gin finds it gone.
abbrev script_cancelled : List Delivery
script_cancelled = chunk (reply "Hel" 0) ∷ failure (status 1 "context canceled") ∷ []

predict_stream_left_example :
    (messages : List ModelPredictResponse) × Begins test_exceptions test_ollama qwen "Hi" messages
    × (length messages ≤ 1)
    × Leaves test_exceptions test_ollama qwen
        (λ n. ltb n 1)
        test_errors
        anonymous
        next
        messages
        true
        (sse_events (
          predict_stream test_errors
            (test_conn none script_cancelled)
            next
            (loop 1)
            default_config
            anonymous
            (ok "Hi")))
unfolding admitted model_predict_stream serve_model_predict_stream step handle is_blank pass_on
    message
predict_stream_left_example =
    predict_stream_left test_exceptions test_ollama qwen (λ n. ltb n 1) test_errors anonymous next
      (test_conn none script_cancelled) (loop 1) default_config
      (loop-Rounds 1 (step test_errors next anonymous)) (ok "Hi") "Hi" script_cancelled 1 refl refl
      refl
      (
        reply "Hel" 0 ∷ [],
        [],
        status 1 "context canceled",
        refl,
        then script_cancelled (reply "Hel" 0) refl
            (broke (failure (status 1 "context canceled") ∷ []) (status 1 "context canceled") refl),
      )
