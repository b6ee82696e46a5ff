-- ===== src/Http/Counting.antt =====
-- Readings of a trace of events: what was answered, counted, measured and called.
use ai_gateway_monitor.Common.{ℕ, ◌≡◌, String, List, [], ◌∷◌, ℤ, pos}
use ai_gateway_monitor.Go.Strconv.{itoa}
use ai_gateway_monitor.Http.{
  Json, Event, Request, respond, sse, count_request, observe_http, observe_grpc, add_tokens, call,
}

abbrev pub responses : List Event → List (ℕ × Json)
responses [] = []
responses (respond s b ∷ t) = (s, b) ∷ responses t
responses (_ ∷ t) = responses t

abbrev pub counted : List Event → List (String × String)
counted [] = []
counted (count_request p s ∷ t) = (p, s) ∷ counted t
counted (_ ∷ t) = counted t

abbrev pub http_timings : List Event → List String
http_timings [] = []
http_timings (observe_http p ∷ t) = p ∷ http_timings t
http_timings (_ ∷ t) = http_timings t

abbrev pub grpc_timings : List Event → List (String × String)
grpc_timings [] = []
grpc_timings (observe_grpc m s ∷ t) = (m, s) ∷ grpc_timings t
grpc_timings (_ ∷ t) = grpc_timings t

abbrev pub calls : List Event → List (String × ℤ × Request)
calls [] = []
calls (call m t r ∷ rest) = (m, t, r) ∷ calls rest
calls (_ ∷ rest) = calls rest

abbrev pub sse_events : List Event → List (String × Json)
sse_events [] = []
sse_events (sse n d ∷ t) = (n, d) ∷ sse_events t
sse_events (_ ∷ t) = sse_events t

abbrev pub tokens : List Event → List (String × ℤ)
tokens [] = []
tokens (add_tokens m n ∷ t) = (m, n) ∷ tokens t
tokens (_ ∷ t) = tokens t

-- The request to `path` is answered by one JSON response; it is counted once, under the path and
-- the status of that response, and timed once.
abbrev pub AnswersWith : String → ℕ × Json → List Event → Type 0
AnswersWith path (status, body) t =
    (responses t ≡ (status, body) ∷ [])
    × (counted t ≡ (path, itoa (pos status)) ∷ [])
    × (http_timings t ≡ path ∷ [])
