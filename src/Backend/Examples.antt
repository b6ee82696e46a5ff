-- ===== src/Backend/Examples.antt =====
-- The servicers on concrete requests.
use mathlib.Core.List.Perm
use ai_gateway_monitor.Common.{
  ◌^◌, ◌≡◌, ◌≢◌, arith, ◌↔◌, refl, ltb, true, false, none, some, [], ◌∷◌, pos, negsuc,
}
use ai_gateway_monitor.Go.Strconv.{itoa_ℕ}
use ai_gateway_monitor.Proto.{Float32, empty_iris_response}
use ai_gateway_monitor.Proto.Clients.{ok, err}
use ai_gateway_monitor.Testing.{
  TestException, read_timeout, response_error, test_exceptions, generated_text, qwen, reply,
  class_names, first_class, flower, flower_body, as_written, fifty,
}
use ai_gateway_monitor.Iris.Decision.{decision}
use ai_gateway_monitor.Iris.{magnitude}
use ai_gateway_monitor.Iris.Reuse.{fresh_request}
use ai_gateway_monitor.Backend.{StatusCode, new_context, set_status}
use ai_gateway_monitor.Backend.IrisPredictor.{
  features, is_refused, refusal, name_at, serve_iris_predict,
}
use ai_gateway_monitor.Backend.IrisPredictor.Validation.{refusal_iff_decision}
use ai_gateway_monitor.Go.Text.{codes, same_codes, to_lower}
use ai_gateway_monitor.Process.{info, warn, parse_log_level}
use ai_gateway_monitor.Backend.Observability.{rune_to_upper, upper_is, resolve_log_level}
use ai_gateway_monitor.Backend.Observability.Agreement.{resolve_log_level_iff}
use ai_gateway_monitor.Backend.OllamaPredictor.{is_blank, set_ollama_error, message, pass_on}
use ai_gateway_monitor.Backend.OllamaPredictor.Yields.{stream_of}

-- Tabs, an ideographic space and a line separator are white space; a zero-width space is not.
blank_prompts :
    (is_blank "" ≡ true)
    × (is_blank " \t\u{3000}\u{2028}" ≡ true)
    × (is_blank "\u{200b}" ≡ false)
    × (is_blank "  x" ≡ false)
unfolding is_blank
blank_prompts = (refl, refl, refl, refl)

abbrev nan : Float32
nan = record { negative = false; exponent = 255; fraction = 1 }

abbrev infinity : Float32
infinity = record { negative = false; exponent = 255; fraction = 0 }

abbrev minus_zero : Float32
minus_zero = record { negative = true; exponent = 0; fraction = 0 }

refused_values :
    (is_refused nan ≡ true)
    × (is_refused infinity ≡ true)
    × (is_refused (fifty 1) ≡ true)
    × (is_refused (fifty 0) ≡ false)
    × (is_refused minus_zero ≡ false)
unfolding is_refused magnitude
refused_values = (refl, refl, refl, refl, refl)

names_of_indices :
    (name_at class_names (pos 2) ≡ some "virginica")
    × (name_at class_names (negsuc 0) ≡ some "virginica")
    × (name_at class_names (pos 3) ≡ none)
    × (name_at class_names (negsuc 3) ≡ none)
unfolding name_at
names_of_indices = (refl, refl, refl, refl)

-- The first feature that is out of range names the status.
first_refusal :
    serve_iris_predict test_exceptions first_class class_names
      (record (fresh_request flower) { petal_length = nan; petal_width = infinity })
      new_context
    ≡ (
      ok empty_iris_response,
      record {
        code = some StatusCode.invalid_argument;
        details = "petal_length must be a finite number between 0 and 50";
      },
    )
unfolding serve_iris_predict refusal is_refused set_status magnitude itoa_ℕ
first_refusal = refl

statuses_of_exceptions :
    (set_ollama_error test_exceptions read_timeout new_context
      ≡ record { code = some StatusCode.deadline_exceeded; details = "Model backend timed out" })
    × (set_ollama_error test_exceptions (response_error "model not found") new_context ≡ record {
      code = some StatusCode.unavailable;
      details = "Model backend unavailable: model not found";
    })
unfolding set_ollama_error set_status
statuses_of_exceptions = (refl, refl)

-- A count of 2^31 does not fit the message, and the exception is not caught.
count_too_large :
    message test_exceptions qwen (generated_text "x" (2 ^ 31))
    ≡ err (TestException.value_error (pos (2 ^ 31)))
unfolding message
count_too_large = refl

refusal_iff_decision_example :
    (decision as_written (ok flower_body) ≡ ok flower)
    ↔ (refusal (features (fresh_request flower)) ≡ none)
refusal_iff_decision_example = refusal_iff_decision as_written Perm.refl flower_body flower refl

-- The client leaves before the second of two replies.
left_after_one :
    pass_on test_exceptions qwen
      (λ n. ltb n 1)
      0
      (stream_of (generated_text "Hel" 0 ∷ generated_text "lo" 5 ∷ []) none)
      new_context
    ≡ (reply "Hel" 0 ∷ [], new_context)
unfolding pass_on message
left_after_one = refl

-- The level, and whether a warning is printed, of some settings.
log_levels :
    (resolve_log_level none ≡ (info, false))
    × (resolve_log_level (some "wArNiNg") ≡ (warn, false))
    × (resolve_log_level (some "warn") ≡ (info, true))
    × (resolve_log_level (some "") ≡ (info, true))
unfolding resolve_log_level upper_is rune_to_upper same_codes
log_levels = (refl, refl, refl, refl)

resolve_log_level_iff_example :
    ((resolve_log_level (some "Debug")).0 ≡ parse_log_level "Debug")
    ↔ (to_lower "Debug" ≢ codes "warn")
resolve_log_level_iff_example = resolve_log_level_iff "Debug" (omega arith)
