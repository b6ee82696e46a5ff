-- ===== src/ApiError.antt =====
-- service_go/handlers/api_error.go: the HTTP error contract and the translation of gRPC errors.
-- The status package of gRPC is third-party code, and a parameter (`GrpcErrors`).
pub mod Contract
mod Examples
use ai_gateway_monitor.Common.{
  ℕ, ◌≡◌, ◌≢◌, Bool, true, false, String, List, [], ◌∷◌, ◌==◌, if◌then◌else◌, pos,
}
use ai_gateway_monitor.Go.Strconv.{itoa}
use ai_gateway_monitor.Http.{
  Json, str, obj, end, member, Event, respond, count_request, Context, request_id,
  status_bad_request, status_internal_server_error, status_service_unavailable,
  status_gateway_timeout,
}

abbrev pub code_model_timeout : String
code_model_timeout = "MODEL_TIMEOUT"

abbrev pub code_backend_unavailable : String
code_backend_unavailable = "BACKEND_UNAVAILABLE"

abbrev pub code_invalid_argument : String
code_invalid_argument = "INVALID_ARGUMENT"

abbrev pub code_internal_error : String
code_internal_error = "INTERNAL_ERROR"

abbrev pub code_stream_error : String
code_stream_error = "STREAM_ERROR"

pub record ApiError : Type 0 where
  pub code : String
  pub message : String
  pub request_id : String

-- The JSON of an `APIError`, under its field tags.
abbrev pub to_json : ApiError → Json
to_json e = obj (
    member "code" (str e.code)
      (member "message" (str e.message) (member "request_id" (str e.request_id) end)))

-- Go errors and google.golang.org/grpc/{status, codes}: `from_error` is `status.FromError`.
pub record GrpcErrors : Type 1 where
  pub Err : Type 0
  pub text : Err → String
  pub Status : Type 0
  pub from_error : Err → Status × Bool
  pub code : Status → ℕ
  pub message : Status → String
  pub deadline_exceeded : ℕ
  pub unavailable : ℕ
  pub invalid_argument : ℕ

-- The three codes are different constants.
pub record HasDistinctCodes (g : GrpcErrors) : Type 0 where
  pub deadline_ne_unavailable : g.deadline_exceeded ≢ g.unavailable
  pub deadline_ne_invalid : g.deadline_exceeded ≢ g.invalid_argument
  pub unavailable_ne_invalid : g.unavailable ≢ g.invalid_argument

abbrev unnamed : String → String → ApiError
unnamed code message = record { code = code; message = message; request_id = "" }

module _ (g : GrpcErrors) where
  -- The `switch` on the status code.
  from_status : g.Status → ApiError × ℕ
  from_status st =
      if g.code st == g.deadline_exceeded
      then (unnamed code_model_timeout (g.message st), status_gateway_timeout)
      else if g.code st == g.unavailable
      then (unnamed code_backend_unavailable (g.message st), status_service_unavailable)
      else if g.code st == g.invalid_argument
      then (unnamed code_invalid_argument (g.message st), status_bad_request)
      else (unnamed code_internal_error (g.message st), status_internal_server_error)

  unfoldable pub api_error_from_grpc : g.Err → ApiError × ℕ
  unfolding from_status
  api_error_from_grpc e =
      if (g.from_error e).1
      then from_status (g.from_error e).0
      else (unnamed code_internal_error (g.text e), status_internal_server_error)

  unfoldable pub write_grpc_error : Context → String → g.Err → List Event
  write_grpc_error c path e =
      let (api_err, http_status) = api_error_from_grpc e in
      let api_err' = record api_err { request_id = request_id c } in
      count_request path (itoa (pos http_status)) ∷ respond http_status (to_json api_err') ∷ []

unfoldable pub write_validation_error : Context → String → String → List Event
write_validation_error c path message =
    count_request path "400"
    ∷ respond status_bad_request (
        to_json
          (record { code = code_invalid_argument; message = message; request_id = request_id c }))
    ∷ []
