-- ===== src/Process/Limits.antt =====
-- The limits of the server that the process starts, against those that its handlers give the
-- backend.
use mathlib.Core.Path.{subst}
use ai_gateway_monitor.Common.{
  ℕ, ◌⊎◌, inl, inr, ap, sym, arith, ℤ, pos, ◌+ℤ◌, ◌≤ℤ◌, ◌<ℤ◌, All, All-map, List,
}
use ai_gateway_monitor.Config.{Env, load, read, write_timeout_headroom}
use ai_gateway_monitor.Config.Timeouts.{LeavesHeadroom}
use ai_gateway_monitor.Config.Loading.{load-Covers}
use ai_gateway_monitor.Process.{World, Server, server, main}
use ai_gateway_monitor.Process.Lifecycle.{servers, main-IsOrderly}

abbrev pub LongEnough : Env → (ℕ → ℕ → ℕ → ℕ) → Server → Type 0
LongEnough env frac s =
    (s.write_timeout ≤ℤ pos 0)
    ⊎ ((load env frac).0.model_timeout +ℤ write_timeout_headroom ≤ℤ s.write_timeout)

load-LongEnough :
    (env : Env) (frac : ℕ → ℕ → ℕ → ℕ)
    → LeavesHeadroom (read env frac).0.model_timeout
    → LongEnough env frac (server (load env frac).0)
unfolding server
load-LongEnough env frac room =
    let covers = load-Covers env frac room in
    let same_model = ap (λ cfg. cfg.model_timeout) covers.others_kept in
    elim (sign (load env frac).0.http_write_timeout) [
      | inl off ↦ inl off
      | inr on ↦ inr (rw same_model (covers.covered on))
    ]
  where
    sign : (t : ℤ) → (t ≤ℤ pos 0) ⊎ (pos 0 <ℤ t)
    sign t = omega arith

-- Where the model timeout that was read leaves 15 s below the largest duration: a server that the
-- process starts with the configuration of `Load` has no write timeout, or one that is at least
-- 15 s above the model timeout that its handlers give the backend.
pub main-write_timeout :
    (env : Env) (frac : ℕ → ℕ → ℕ → ℕ) (def_buckets : List ℕ) (w : World)
    → LeavesHeadroom (read env frac).0.model_timeout
    → All (LongEnough env frac) (servers (main def_buckets (load env frac).0 w).0)
unfolding server
main-write_timeout env frac def_buckets w room =
    All-map _
      (λ s same. subst (λ x. LongEnough env frac x) (sym same) (load-LongEnough env frac room))
      (main-IsOrderly (load env frac).0 w def_buckets).serves
