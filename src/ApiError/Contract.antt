-- ===== src/ApiError/Contract.antt =====
-- The error contract as a relation, and its agreement with the code.
use mathlib.Core.Path.{subst}
use ai_gateway_monitor.Common.{
  ℕ, ap, sym, ◌∙◌, str_eq, ◌==◌, if◌then◌else◌, ◌≡◌, ◌≢◌, ◌↔◌, refl, true, false, String, [], ◌∷◌,
  arith, pos, eq_iff,
}
use ai_gateway_monitor.Go.Strconv.{itoa}
use ai_gateway_monitor.Http.{Context, request_id, str, obj, member, end, Json}
use ai_gateway_monitor.Http.Counting.{responses, counted}
use ai_gateway_monitor.ApiError.{
  GrpcErrors, HasDistinctCodes, api_error_from_grpc, write_grpc_error,
}

-- The table in the comment of `APIErrorFromGRPC`: gRPC error, code, HTTP status, message.
pub data Maps (g : GrpcErrors) (e : g.Err) : String → ℕ → String → Type 0 where
  deadline_exceeded :
      (g.from_error e).1 ≡ true
      → g.code (g.from_error e).0 ≡ g.deadline_exceeded
      → Maps g e "MODEL_TIMEOUT" 504 (g.message (g.from_error e).0)
  unavailable :
      (g.from_error e).1 ≡ true
      → g.code (g.from_error e).0 ≡ g.unavailable
      → Maps g e "BACKEND_UNAVAILABLE" 503 (g.message (g.from_error e).0)
  invalid_argument :
      (g.from_error e).1 ≡ true
      → g.code (g.from_error e).0 ≡ g.invalid_argument
      → Maps g e "INVALID_ARGUMENT" 400 (g.message (g.from_error e).0)
  other_code :
      (g.from_error e).1 ≡ true
      → g.code (g.from_error e).0 ≢ g.deadline_exceeded
      → g.code (g.from_error e).0 ≢ g.unavailable
      → g.code (g.from_error e).0 ≢ g.invalid_argument
      → Maps g e "INTERNAL_ERROR" 500 (g.message (g.from_error e).0)
  not_grpc : (g.from_error e).1 ≡ false → Maps g e "INTERNAL_ERROR" 500 (g.text e)

-- Either of code and status gives the other.
abbrev status_of : String → ℕ
status_of code =
    if str_eq code "MODEL_TIMEOUT"
    then 504
    else if str_eq code "BACKEND_UNAVAILABLE"
    then 503
    else if str_eq code "INVALID_ARGUMENT"
    then 400
    else 500

abbrev code_of : ℕ → String
code_of status =
    if status == 504
    then "MODEL_TIMEOUT"
    else if status == 503
    then "BACKEND_UNAVAILABLE"
    else if status == 400
    then "INVALID_ARGUMENT"
    else "INTERNAL_ERROR"

Maps-agree :
    (g : GrpcErrors) {e : g.Err} {code : String} {status : ℕ} {message : String}
    → Maps g e code status message
    → (status ≡ status_of code) × (code ≡ code_of status)
Maps-agree g (deadline_exceeded _ _) = (refl, refl)
Maps-agree g (unavailable _ _) = (refl, refl)
Maps-agree g (invalid_argument _ _) = (refl, refl)
Maps-agree g (other_code _ _ _ _) = (refl, refl)
Maps-agree g (not_grpc _) = (refl, refl)

module _ (g : GrpcErrors) where
  -- Every error has a place in the table, and the code finds it.
  api_error-Maps :
      (e : g.Err) → let (a, status) = api_error_from_grpc g e in Maps g e a.code status a.message
  unfolding api_error_from_grpc
  api_error-Maps e =
      grind (arith, deadline_exceeded, unavailable, invalid_argument, other_code, not_grpc)

  -- The table has one answer for each error.
  Maps-api_error :
      HasDistinctCodes g
      → (e : g.Err) {code : String} {status : ℕ} {message : String} → Maps g e code status message
      → api_error_from_grpc g e
        ≡ (record { code = code; message = message; request_id = "" }, status)
  unfolding api_error_from_grpc
  Maps-api_error d e (deadline_exceeded grpc h) = ground arith
  Maps-api_error d e (unavailable grpc h) = ground (arith, d)
  Maps-api_error d e (invalid_argument grpc h) = ground (arith, d)
  Maps-api_error d e (other_code grpc h k l) = ground arith
  Maps-api_error d e (not_grpc grpc) = ground arith

  -- The code finds the entry of the contract's table for every error, and the table has only that
  -- one entry for it, provided that the three gRPC codes are different.
  pub api_error_iff_Maps :
      HasDistinctCodes g
      → (e : g.Err) (code : String) (status : ℕ) (message : String)
      → Maps g e code status message ↔ (
          api_error_from_grpc g e
          ≡ (record { code = code; message = message; request_id = "" }, status))
  api_error_iff_Maps d e code status message = (Maps-api_error d e, λ same. Maps_of_eq same)
    where
      Maps_of_eq :
          api_error_from_grpc g e
            ≡ (record { code = code; message = message; request_id = "" }, status)
          → Maps g e code status message
      Maps_of_eq same = subst (λ r. Maps g e r.0.code r.1 r.0.message) same (api_error-Maps e)

  -- Clients may branch on the code: two errors have the same code exactly if they have the same
  -- HTTP status.
  code_iff_status :
      (e e' : g.Err)
      → ((api_error_from_grpc g e).0.code ≡ (api_error_from_grpc g e').0.code)
        ↔ ((api_error_from_grpc g e).1 ≡ (api_error_from_grpc g e').1)
  code_iff_status e e' = (
    λ h.
        (Maps-agree g (api_error-Maps e)).0
        ∙ ap status_of h
        ∙ sym (Maps-agree g (api_error-Maps e')).0,
    λ h.
        (Maps-agree g (api_error-Maps e)).1
        ∙ ap code_of h
        ∙ sym (Maps-agree g (api_error-Maps e')).1,
  )

-- No error is answered with 200.
pub api_error-ne-200 : (g : GrpcErrors) (e : g.Err) → (api_error_from_grpc g e).1 ≢ 200
unfolding api_error_from_grpc
api_error-ne-200 g e = ground arith

-- The request identifier in an error body is never empty: it is the caller's, if there is one.
pub request_id-ne-nil : (c : Context) → c.new_uuid ≢ "" → request_id c ≢ ""
unfolding request_id
request_id-ne-nil c h = ground (arith, eq_iff c.x_request_id "")

-- The body of an error, with everything in it that a client is told.
abbrev pub error_body : String → String → Context → Json
error_body code message c = obj (
    member "code" (str code)
      (member "message" (str message) (member "request_id" (str (request_id c)) end)))

module _ (g : GrpcErrors) (c : Context) (path : String) where
  pub write_grpc_error-responses :
      (e : g.Err)
      → responses (write_grpc_error g c path e)
        ≡ (
          (api_error_from_grpc g e).1,
          error_body (api_error_from_grpc g e).0.code (api_error_from_grpc g e).0.message c,
        )
          ∷ []
  unfolding write_grpc_error
  write_grpc_error-responses e = refl

  pub write_grpc_error-counted :
      (e : g.Err)
      → counted (write_grpc_error g c path e) ≡ (path, itoa (pos (api_error_from_grpc g e).1)) ∷ []
  unfolding write_grpc_error
  write_grpc_error-counted e = refl
