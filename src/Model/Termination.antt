-- ===== src/Model/Termination.antt =====
-- How often gin calls the step of a streamed response.
use ai_gateway_monitor.Common.{ℕ, zero, suc, ◌≤◌, ◌≡◌, ◌≢◌, ap, ◌∙◌, refl, List, length, ltb, arith}
use ai_gateway_monitor.Proto.{ModelPredictResponse}
use ai_gateway_monitor.Http.{Context}
use ai_gateway_monitor.ApiError.{GrpcErrors}
use ai_gateway_monitor.Model.{StepFunction, Received, chunk, handle, step}
use ai_gateway_monitor.Model.Rounds.{Ending, disconnected, Delivers, cut, ended, broke, then}

-- The stream after a number of calls of the step.
abbrev pub after : {S : Type 0} → StepFunction S → ℕ → S → S
after f zero s = s
after f (suc k) s = after f k (f s).2

ltb-suc : (a b : ℕ) → ltb a b ≡ ltb (suc a) (suc b)
ltb-suc a b = ground arith

module _ (g : GrpcErrors) {S : Type 0} (recv : S → Received g.Err × S) (c : Context) where
  after_chunk :
      (s : S) (resp : ModelPredictResponse)
      → (recv s).0 ≡ chunk resp
      → (step g recv c s).2 ≡ (recv s).1
  unfolding step handle
  after_chunk s resp e = rw e

  -- If the backend's stream gives some chunks and then ends or breaks, the step asks for another
  -- call as often as there are chunks, and returns false at the next call, which ends the loop.
  pub step_continues :
      {s : S} {chunks : List ModelPredictResponse} {ending : Ending g.Err} (k : ℕ)
      → Delivers recv s chunks ending
      → ending ≢ disconnected
      → k ≤ length chunks
      → (step g recv c (after (step g recv c) k s)).1 ≡ ltb k (length chunks)
  unfolding step handle
  step_continues k cut ends h = absurd (ends refl)
  step_continues zero (ended s e) ends h = rw e
  step_continues (suc k) (ended s e) ends h = absurd (omega (arith, h))
  step_continues zero (broke s x e) ends h = rw e
  step_continues (suc k) (broke s x e) ends h = absurd (omega (arith, h))
  step_continues zero (then s resp e d) ends h = rw e (ground arith)
  step_continues (suc k) (then s resp e d) ends h =
      ap (λ u. (step g recv c (after (step g recv c) k u)).1) (after_chunk s resp e)
      ∙ step_continues k d ends (omega (arith, h))
      ∙ ltb-suc k _
