-- ===== src/ApiError/Examples.antt =====
-- The contract at a concrete status package, with gRPC's numbers for the codes.
use ai_gateway_monitor.Common.{◌≡◌, refl, ◌↔◌}
use ai_gateway_monitor.Testing.{status, test_errors, test_errors-HasDistinctCodes}
use ai_gateway_monitor.ApiError.{api_error_from_grpc}
use ai_gateway_monitor.ApiError.Contract.{Maps, api_error_iff_Maps}

resource_exhausted :
    api_error_from_grpc test_errors (status 8 "too many")
    ≡ (record { code = "INTERNAL_ERROR"; message = "too many"; request_id = "" }, 500)
unfolding api_error_from_grpc
resource_exhausted = refl

api_error_iff_Maps_example :
    Maps test_errors (status 14 "refused") "BACKEND_UNAVAILABLE" 503 "refused" ↔ (
      api_error_from_grpc test_errors (status 14 "refused")
      ≡ (record { code = "BACKEND_UNAVAILABLE"; message = "refused"; request_id = "" }, 503))
api_error_iff_Maps_example =
    api_error_iff_Maps test_errors test_errors-HasDistinctCodes (status 14 "refused")
      "BACKEND_UNAVAILABLE" 503 "refused"
