-- ===== src/Model/Rounds.antt =====
-- What gin documents of `c.Stream`, and what a gRPC stream delivers.
use ai_gateway_monitor.Common.{◌≡◌, true, false, List, [], ◌∷◌, ◌++◌, Bool}
use ai_gateway_monitor.Http.{Event}
use ai_gateway_monitor.Proto.{ModelPredictResponse}
use ai_gateway_monitor.Model.{StepFunction, Received, chunk, eof, failed}

-- `c.Stream(step)` calls `step` again and again, until it returns false or the client is found to
-- be gone between two calls; it returns whether it was gone. `Rounds step s t left`: started on the
-- state s, it may do the events t and return `left`.
pub data Rounds {S : Type 0} (step : StepFunction S) : S → List Event → Bool → Type 0 where
  gone : {s : S} → Rounds step s [] true
  last : (s : S) {t : List Event} → (step s).1 ≡ false → t ≡ (step s).0 → Rounds step s t false
  more :
      (s : S) (rest : List Event) {t : List Event} {left : Bool}
      → (step s).1 ≡ true
      → Rounds step (step s).2 rest left
      → t ≡ (step s).0 ++ rest
      → Rounds step s t left

-- How a streamed response ends: the client left, the stream came to its end, or it broke.
pub data Ending (E : Type 0) : Type 0 where
  disconnected : Ending E
  finished : Ending E
  broken : E → Ending E

abbrev pub is_gone : {E : Type 0} → Ending E → Bool
is_gone disconnected = true
is_gone finished = false
is_gone (broken _) = false

-- `Delivers recv s chunks ending`: successive calls of `Recv` give these chunks, and then the
-- ending's result, unless nobody asks for it.
pub data Delivers {E S : Type 0} (recv : S → Received E × S)
    : S → List ModelPredictResponse → Ending E → Type 0 where
  cut : {s : S} → Delivers recv s [] disconnected
  ended : (s : S) → (recv s).0 ≡ eof → Delivers recv s [] finished
  broke : (s : S) (e : E) → (recv s).0 ≡ failed e → Delivers recv s [] (broken e)
  then :
      (s : S) (resp : ModelPredictResponse) {chunks : List ModelPredictResponse} {ending : Ending E}
      → (recv s).0 ≡ chunk resp
      → Delivers recv (recv s).1 chunks ending
      → Delivers recv s (resp ∷ chunks) ending
