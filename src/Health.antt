-- ===== src/Health.antt =====
-- service_go/handlers/health.go: the liveness and readiness probes.
-- The connectivity package of gRPC is third-party code, and a parameter (`Connectivity`).
pub mod Contract
pub mod Polling
mod Examples
use ai_gateway_monitor.Common.{
  ℕ, String, Option, none, some, List, [], ◌∷◌, ◌==◌, if◌then◌else◌, Bool, true, false,
}
use ai_gateway_monitor.Http.{
  Json, str, obj, member, end, Event, respond, status_ok, status_service_unavailable,
}

-- The states that the probe compares with, and `State.String`.
pub record Connectivity : Type 0 where
  pub idle : ℕ
  pub ready : ℕ
  pub text : ℕ → String

-- The interface, on a channel that is in a state of type `S`: `GetState` reads, `Connect` changes.
pub record ConnStateProvider (S : Type 0) : Type 0 where
  pub get_state : S → ℕ
  pub connect : S → S

-- The handler; a connection of `none` is nil.
pub record HealthHandler (S : Type 0) : Type 0 where
  pub conn : Option S

-- `NewHealthHandler`
abbrev pub new_health_handler : {S : Type 0} → Option S → HealthHandler S
new_health_handler conn = record { conn = conn }

-- `Check`
unfoldable pub check : List Event
check = respond status_ok (obj (member "status" (str "ok") end)) ∷ []

module _ (k : Connectivity) {S : Type 0} (p : ConnStateProvider S) where
  -- The answer for a state that was read before any `Connect`.
  pub report : ℕ → List Event
  report state =
      if state == k.ready
      then respond status_ok
          (obj (member "status" (str "ready") (member "grpc_state" (str (k.text state)) end)))
        ∷ []
      else respond status_service_unavailable
          (obj (member "status" (str "not ready") (member "grpc_state" (str (k.text state)) end)))
        ∷ []

  -- `Readyz`: what it answers, and the channel after it; `none` is a nil connection.
  unfoldable pub readyz : Option S → List Event × Option S
  unfolding report
  readyz none = (
    respond status_service_unavailable (
          obj (
            member "status" (str "not ready")
              (member "reason" (str "grpc connection not configured") end)))
        ∷ [],
    none,
  )
  readyz (some s) =
      let state = p.get_state s in (report state, some (if state == k.idle then p.connect s else s))
