-- ===== src/EndToEnd.antt =====
-- The gateway (service_go/handlers) and the AI backend (service_python/models) together.
-- gRPC carries a call from one to the other. It is third-party code: what it documents of a call
-- that comes through is a hypothesis, on the answer of the gateway's connection.
pub mod IrisRoute
pub mod ModelRoute
pub mod StreamRoute
pub mod StreamLeft
pub mod Isolation
mod Examples
use Prim.Native.String
use ai_gateway_monitor.Common.{ℕ, ◌≡◌, true, String, Option, none, some, List, arith}
use ai_gateway_monitor.Proto.{ModelPredictResponse}
use ai_gateway_monitor.Proto.Clients.{Result, ok, err}
use ai_gateway_monitor.ApiError.{GrpcErrors, api_error_from_grpc}
use ai_gateway_monitor.Model.{Received}
use ai_gateway_monitor.Model.Rounds.{Delivers, finished, broken}
use ai_gateway_monitor.Backend.{StatusCode, ServicerContext, Exceptions}

-- The numbers of the codes in gRPC's documentation.
abbrev pub code_number : StatusCode → ℕ
code_number StatusCode.unknown = 2
code_number StatusCode.invalid_argument = 3
code_number StatusCode.deadline_exceeded = 4
code_number StatusCode.internal = 13
code_number StatusCode.unavailable = 14

pub record HasStandardCodes (g : GrpcErrors) : Type 0 where
  pub deadline : g.deadline_exceeded ≡ 4
  pub unavailable : g.unavailable ≡ 14
  pub invalid : g.invalid_argument ≡ 3

-- A Go error that carries a status of the server.
pub record HasStatus (g : GrpcErrors) (code : StatusCode) (details : String) (e : g.Err)
    : Type 0 where
  pub is_grpc : (g.from_error e).1 ≡ true
  pub same_code : g.code (g.from_error e).0 ≡ code_number code
  pub same_message : g.message (g.from_error e).0 ≡ details

abbrev pub Fails : (g : GrpcErrors) → StatusCode → String → Option g.Err → Type 0
Fails g code details failure = (e : g.Err) × (failure ≡ some e) × HasStatus g code details e

module _ (g : GrpcErrors) (x : Exceptions) where
  -- The outcome of a unary call, given what the servicer returned or raised and told its context:
  -- a reply with OK, a status with its details, or, for an exception, UNKNOWN.
  abbrev Carried :
      {A : Type 0} → Result x.Exception A → Option StatusCode → String → Option g.Err × A → Type 0
  Carried (ok resp) none details r = r ≡ (none, resp)
  Carried (ok resp) (some code) details r = Fails g code details r.0
  Carried (err e) _ _ r =
      Fails g StatusCode.unknown (String.◌++◌ "Exception calling application: " (x.text e)) r.0

  abbrev pub Carries :
      {A : Type 0} → Result x.Exception A × ServicerContext → Option g.Err × A → Type 0
  Carries (result, context) r = Carried result context.code context.details r

  -- The messages of a stream, given what the servicer yielded and told its context: the yielded
  -- messages, then the end, or a failure with the status.
  abbrev Streamed :
      {S : Type 0}
      → (S → Received g.Err × S)
      → List ModelPredictResponse
      → Option StatusCode
      → String
      → S
      → Type 0
  Streamed recv yielded none details stream = Delivers recv stream yielded finished
  Streamed recv yielded (some code) details stream =
      (e : g.Err) × HasStatus g code details e × Delivers recv stream yielded (broken e)

  abbrev pub CarriesStream :
      {S : Type 0}
      → (S → Received g.Err × S)
      → List ModelPredictResponse × ServicerContext
      → S
      → Type 0
  CarriesStream recv (yielded, context) stream =
      Streamed recv yielded context.code context.details stream

-- The code and the HTTP status that the gateway has for a code of the backend.
abbrev pub gateway_entry : StatusCode → String × ℕ
gateway_entry StatusCode.unknown = ("INTERNAL_ERROR", 500)
gateway_entry StatusCode.invalid_argument = ("INVALID_ARGUMENT", 400)
gateway_entry StatusCode.deadline_exceeded = ("MODEL_TIMEOUT", 504)
gateway_entry StatusCode.internal = ("INTERNAL_ERROR", 500)
gateway_entry StatusCode.unavailable = ("BACKEND_UNAVAILABLE", 503)

pub api_error-HasStatus :
    (g : GrpcErrors)
    → HasStandardCodes g
    → (code : StatusCode) {details : String} {e : g.Err} → HasStatus g code details e
    → api_error_from_grpc g e ≡ (
      record { code = (gateway_entry code).0; message = details; request_id = "" },
      (gateway_entry code).1,
    )
unfolding api_error_from_grpc
api_error-HasStatus g n StatusCode.unknown h = ground (arith, n, h)
api_error-HasStatus g n StatusCode.invalid_argument h = ground (arith, n, h)
api_error-HasStatus g n StatusCode.deadline_exceeded h = ground (arith, n, h)
api_error-HasStatus g n StatusCode.internal h = ground (arith, n, h)
api_error-HasStatus g n StatusCode.unavailable h = ground (arith, n, h)
