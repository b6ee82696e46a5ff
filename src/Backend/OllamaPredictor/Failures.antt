-- ===== src/Backend/OllamaPredictor/Failures.antt =====
-- How the exceptions of Ollama's client become gRPC statuses.
use Prim.Native.String
use ai_gateway_monitor.Common.{◌≡◌, ◌||◌, inl, inr, refl, true, false, String, Bool-cases, arith}
use ai_gateway_monitor.Backend.{StatusCode, ServicerContext, Exceptions, set_status}
use ai_gateway_monitor.Backend.OllamaPredictor.{set_ollama_error}

module _ (x : Exceptions) where
  -- The status of an exception. httpx's timeouts are transport errors too.
  pub data Means (e : x.Exception) : StatusCode → String → Type 0 where
    timed_out :
        x.is_timeout e ≡ true → Means e StatusCode.deadline_exceeded "Model backend timed out"
    unavailable :
        x.is_timeout e ≡ false
        → x.is_transport_error e || x.is_response_error e ≡ true
        → Means e StatusCode.unavailable (String.◌++◌ "Model backend unavailable: " (x.text e))
    broken :
        x.is_timeout e ≡ false
        → x.is_transport_error e ≡ false
        → x.is_response_error e ≡ false
        → Means e StatusCode.internal "Internal model error"

  pub set_ollama_error-Means :
      (e : x.Exception) (context : ServicerContext)
      → (code : StatusCode) × (details : String) × Means e code details
        × (set_ollama_error x e context ≡ set_status code details context)
  unfolding set_ollama_error
  set_ollama_error-Means e context = elim (Bool-cases (x.is_timeout e)) [
    | inl late ↦ (_, _, timed_out late, rw late refl)
    | inr early ↦ elim (Bool-cases (x.is_transport_error e || x.is_response_error e)) [
      | inl down ↦ (_, _, unavailable early down, rw (early, down) refl)
      | inr up ↦ (_, _, broken early (ground arith) (ground arith), rw (early, up) refl)
    ]
  ]
