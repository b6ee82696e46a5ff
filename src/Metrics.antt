-- ===== src/Metrics.antt =====
-- service_go/metrics/metrics.go: the instruments, and their registration.
-- The bounds of buckets are in milliseconds. `prometheus.DefBuckets` is third-party: a parameter.
pub mod Validity
pub mod Registration
mod Examples
use ai_gateway_monitor.Common.{ℕ, String, List, [], ◌∷◌}

pub data Kind : Type 0 where
  counter : Kind
  histogram : (upper_bounds : List ℕ) → Kind

pub record Instrument : Type 0 where
  pub name : String
  pub kind : Kind
  pub label_names : List String

abbrev pub http_requests_total : Instrument
http_requests_total = record {
  name = "http_requests_total";
  kind = counter;
  label_names = "path" ∷ "status" ∷ [];
}

abbrev pub http_duration : Instrument
http_duration = record {
  name = "http_request_duration_seconds";
  kind =
      histogram
        (5 ∷ 10 ∷ 25 ∷ 50 ∷ 100 ∷ 250 ∷ 500 ∷ 1000 ∷ 2500 ∷ 5000 ∷ 10_000 ∷ 30_000 ∷ 60_000 ∷ []);
  label_names = "path" ∷ [];
}

abbrev pub grpc_request_duration : List ℕ → Instrument
grpc_request_duration def_buckets = record {
  name = "grpc_request_duration_seconds";
  kind = histogram def_buckets;
  label_names = "method" ∷ "status" ∷ [];
}

abbrev pub ai_tokens_total : Instrument
ai_tokens_total = record {
  name = "ai_generated_tokens_total";
  kind = counter;
  label_names = "model" ∷ [];
}

abbrev pub ai_generation_duration : Instrument
ai_generation_duration = record {
  name = "ai_generation_duration_seconds";
  kind = histogram (500 ∷ 1000 ∷ 2000 ∷ 5000 ∷ 10_000 ∷ 20_000 ∷ 30_000 ∷ 60_000 ∷ []);
  label_names = "model" ∷ [];
}

-- `Register`: what is handed to `prometheus.MustRegister`, in order.
abbrev pub register : List ℕ → List Instrument
register def_buckets =
    http_requests_total
    ∷ http_duration
    ∷ grpc_request_duration def_buckets
    ∷ ai_tokens_total
    ∷ ai_generation_duration
    ∷ []
