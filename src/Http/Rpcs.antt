-- ===== src/Http/Rpcs.antt =====
-- The RPC of a request and its metric, grpc_request_duration_seconds.
use ai_gateway_monitor.Common.{ℕ, ℤ, pos, ◌≡◌, ◌≢◌, String, List, [], ◌∷◌}
use ai_gateway_monitor.Go.Strconv.{itoa}
use ai_gateway_monitor.Http.{Event, Request}
use ai_gateway_monitor.Http.Counting.{calls, counted, grpc_timings}

-- The RPC of a request under a path, by its full name, and the observation under its label: there
-- is neither, or there are both, and the request is counted with 200 exactly if the RPC is ok.
pub data Reports (name label path : String) (t : List Event) : Type 0 where
  not_called : calls t ≡ [] → grpc_timings t ≡ [] → Reports name label path t
  succeeded :
      (timeout : ℤ) (req : Request)
      → calls t ≡ (name, timeout, req) ∷ []
      → grpc_timings t ≡ (label, "ok") ∷ []
      → counted t ≡ (path, "200") ∷ []
      → Reports name label path t
  failed :
      (timeout : ℤ) (req : Request) (status : ℕ)
      → calls t ≡ (name, timeout, req) ∷ []
      → grpc_timings t ≡ (label, "error") ∷ []
      → counted t ≡ (path, itoa (pos status)) ∷ []
      → status ≢ 200
      → Reports name label path t
