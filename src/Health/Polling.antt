-- ===== src/Health/Polling.antt =====
-- Successive readiness probes, as a kubelet makes them, of a channel that changes between them.
use ai_gateway_monitor.Common.{ℕ, zero, suc, ◌<◌, ◌≤◌, ◌≡◌, ◌≢◌, Option, none, some, [], ◌∷◌, arith}
use ai_gateway_monitor.Http.Counting.{responses}
use ai_gateway_monitor.Health.{Connectivity, ConnStateProvider, report, readyz}
use ai_gateway_monitor.Health.Contract.{state_body}

module _ (k : Connectivity) {S : Type 0} (p : ConnStateProvider S) (drift : S → S) where
  -- The channel that a probe leaves, after the time to the next one.
  pub after_probe : Option S → S → S
  after_probe none s = s
  after_probe (some s') s = drift s'

  pub polled : ℕ → S → S
  unfolding after_probe
  polled zero s = s
  polled (suc n) s = polled n (after_probe (readyz k p (some s)).1 s)

  -- What gRPC does while the backend is up: an idle channel only dials if it is told to; a channel
  -- that is dialing gets on with it; a ready one stays. `rank` measures what is left to do.
  pub record Recovers (rank : S → ℕ) : Type 0 where
    pub dials : (s : S) → p.get_state s ≡ k.idle → rank (drift (p.connect s)) < rank s
    pub advances :
        (s : S) → p.get_state s ≢ k.idle → p.get_state s ≢ k.ready → rank (drift s) < rank s
    pub stays : (s : S) → p.get_state s ≡ k.ready → p.get_state (drift s) ≡ k.ready

  module _ (differ : k.idle ≢ k.ready) (rank : S → ℕ) (recovers : Recovers rank) where
    stays_polled : (n : ℕ) (s : S) → p.get_state s ≡ k.ready → p.get_state (polled n s) ≡ k.ready
    unfolding polled readyz after_probe
    stays_polled zero s h = h
    stays_polled (suc n) s h = ground (arith, stays_polled n (drift s) (recovers.stays s h))

    ready_polled : (n : ℕ) (s : S) → rank s ≤ n → p.get_state (polled n s) ≡ k.ready
    unfolding polled readyz after_probe
    ready_polled zero s h = ground (arith, recovers.dials s, recovers.advances s)
    ready_polled (suc n) s h = ground (
      arith,
      recovers.dials s,
      recovers.advances s,
      recovers.stays s,
      stays_polled n (drift s),
      ready_polled n (drift s),
      ready_polled n (drift (p.connect s)),
    )

    -- If the backend is up, so that every period between two probes makes progress, for an idle
    -- channel only once `Connect` was called, then as many probes as the channel has steps left
    -- are enough: the next one answers 200. This needs the states Idle and Ready to be different.
    pub readyz_eventually_ready :
        (s : S)
        → responses (readyz k p (some (polled (rank s) s))).0
          ≡ (200, state_body "ready" (k.text k.ready)) ∷ []
    unfolding readyz report
    readyz_eventually_ready s = rw (ready_polled (rank s) s (omega arith)) (ground arith)
