-- ===== src/Backend.antt =====
-- service_python: the AI backend. Its servicers, in models, are what the gateway's connection leads to.
-- gRPC's server, httpx, Ollama's client and scikit-learn are third-party code: arguments, or calls
-- on the context that are recorded. Log records are left out.
pub mod IrisPredictor
pub mod OllamaPredictor
pub mod Observability
pub mod Server
pub mod Launch
mod Examples
use ai_gateway_monitor.Common.{ℕ, Bool, String, Option, none, some, ℤ}

-- grpc.StatusCode, as far as the backend comes to it.
pub data StatusCode : Type 0 where
  unknown : StatusCode
  invalid_argument : StatusCode
  deadline_exceeded : StatusCode
  internal : StatusCode
  unavailable : StatusCode

-- What a servicer has told the context of its RPC; without a code, gRPC ends an RPC with OK.
pub record ServicerContext : Type 0 where
  pub code : Option StatusCode
  pub details : String

abbrev pub new_context : ServicerContext
new_context = record { code = none; details = "" }

-- `context.set_code(code)`, then `context.set_details(details)`.
unfoldable pub set_status : StatusCode → String → ServicerContext → ServicerContext
set_status code details context = record context { code = some code; details = details }

-- Python's exceptions with the tests that the servicers make on them, and the ValueError that
-- protobuf raises for a number that its field does not hold.
pub record Exceptions : Type 1 where
  pub Exception : Type 0
  pub text : Exception → String
  pub is_timeout : Exception → Bool
  pub is_transport_error : Exception → Bool
  pub is_response_error : Exception → Bool
  pub out_of_range : ℤ → Exception
