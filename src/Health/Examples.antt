-- ===== src/Health/Examples.antt =====
-- The probes on a channel that dials for one period and is then up.
use ai_gateway_monitor.Common.{ℕ, zero, suc, ◌<◌, ◌≡◌, ◌≢◌, ◌↔◌, refl, some, [], ◌∷◌, arith}
use ai_gateway_monitor.Http.{str, obj, member, end, respond}
use ai_gateway_monitor.Http.Counting.{responses}
use ai_gateway_monitor.Health.{Connectivity, ConnStateProvider, check, readyz}
use ai_gateway_monitor.Health.Contract.{state_body, Reports, readyz_iff_Reports}
use ai_gateway_monitor.Health.Polling.{polled, Recovers, readyz_eventually_ready}

data Channel : Type 0 where
  idle : Channel
  connecting : Channel
  up : Channel

-- gRPC's numbers for the states.
abbrev connectivity : Connectivity
connectivity = record {
  idle = 0;
  ready = 2;
  text = elim [ zero ↦ "IDLE" | suc n ↦ elim n [ zero ↦ "CONNECTING" | suc m ↦ "READY" ] ];
}

abbrev state_of : Channel → ℕ
state_of idle = 0
state_of connecting = 1
state_of up = 2

abbrev connect : Channel → Channel
connect idle = connecting
connect connecting = connecting
connect up = up

abbrev provider : ConnStateProvider Channel
provider = record { get_state = state_of; connect = connect }

abbrev drift : Channel → Channel
drift idle = idle
drift connecting = up
drift up = up

abbrev steps_left : Channel → ℕ
steps_left idle = 2
steps_left connecting = 1
steps_left up = 0

idle_dials : (s : Channel) → state_of s ≡ 0 → steps_left (drift (connect s)) < steps_left s
idle_dials idle h = omega arith
idle_dials connecting h = omega arith
idle_dials up h = omega (arith, h)

dialing_advances :
    (s : Channel) → state_of s ≢ 0 → state_of s ≢ 2 → steps_left (drift s) < steps_left s
dialing_advances idle h k = absurd (h refl)
dialing_advances connecting h k = omega arith
dialing_advances up h k = absurd (k refl)

up_stays : (s : Channel) → state_of s ≡ 2 → state_of (drift s) ≡ 2
up_stays idle h = omega (arith, h)
up_stays connecting h = refl
up_stays up h = refl

channel-Recovers : Recovers connectivity provider drift steps_left
channel-Recovers = record { dials = idle_dials; advances = dialing_advances; stays = up_stays }

alive : responses check ≡ (200, obj (member "status" (str "ok") end)) ∷ []
unfolding check
alive = refl

readyz_iff_Reports_example :
    Reports connectivity provider (some idle) 503 (state_body "not ready" "IDLE") (some connecting)
    ↔ (readyz connectivity provider (some idle)
        ≡ (respond 503 (state_body "not ready" "IDLE") ∷ [], some connecting))
readyz_iff_Reports_example =
    readyz_iff_Reports connectivity provider (omega arith) (some idle) 503
      (state_body "not ready" "IDLE") (some connecting)

readyz_eventually_ready_example :
    responses (readyz connectivity provider (some (polled connectivity provider drift 2 idle))).0
    ≡ (200, state_body "ready" "READY") ∷ []
readyz_eventually_ready_example =
    readyz_eventually_ready connectivity provider drift (omega arith) steps_left channel-Recovers
      idle
