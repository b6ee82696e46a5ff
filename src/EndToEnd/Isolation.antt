-- ===== src/EndToEnd/Isolation.antt =====
-- Requests to /predict/iris that run at the same time, through to the classifier.
use ai_gateway_monitor.Common.{ℤ, ◌^◌, ◌≤◌, ◌≡◌, none, String, List, [], ◌∷◌, All, length, Option}
use mathlib.Core.Path.{subst}
use ai_gateway_monitor.Common.{sym}
use ai_gateway_monitor.Proto.{Float32, IrisPredictRequest}
use ai_gateway_monitor.Proto.Clients.{Result}
use ai_gateway_monitor.Iris.{Features, entries, first_invalid}
use ai_gateway_monitor.Iris.Reuse.{fresh_request}
use ai_gateway_monitor.Iris.Order.{first_invalid-none}
use ai_gateway_monitor.Iris.Sharing.{Heap, Shared, fresh_handler, Reaches}
use ai_gateway_monitor.Iris.Sharing.Exclusive.{sends_own_features}
use ai_gateway_monitor.Backend.{Exceptions, new_context}
use ai_gateway_monitor.Backend.IrisPredictor.{serve_iris_predict}
use ai_gateway_monitor.Backend.IrisPredictor.Validation.{refusal-none}
use ai_gateway_monitor.Backend.IrisPredictor.Answers.{Ends, replied, serve_iris_predict-replied}
use ai_gateway_monitor.EndToEnd.IrisRoute.{row}

module _ (x : Exceptions) (classifier : List Float32 → Result x.Exception ℤ)
    (target_names : List String) where
  -- The backend's reply to a message is the class of these features, or tells of its failure.
  abbrev pub Classifies : Features × IrisPredictRequest → Type 0
  Classifies (f, message) =
      (found : Option (ℤ × String)) × Ends x classifier target_names (row f) found
      × (serve_iris_predict x classifier target_names message new_context
          ≡ replied x classifier target_names found new_context)

  own-Classifies :
      length target_names ≤ 2 ^ 31
      → (c : Features × IrisPredictRequest) → c.1 ≡ fresh_request c.0
      → first_invalid (entries c.0) ≡ none
      → Classifies c
  own-Classifies few (f, message) own valid =
      subst (λ m. Classifies (f, m)) (sym own)
        (serve_iris_predict-replied x classifier target_names few (fresh_request f)
          ((refusal-none (entries f)).1 ((first_invalid-none (entries f)).0 valid)) new_context)

  All-Classifies :
      length target_names ≤ 2 ^ 31
      → (sent : List (Features × IrisPredictRequest)) → All (λ c. c.1 ≡ fresh_request c.0) sent
      → All (λ c. first_invalid (entries c.0) ≡ none) sent
      → All Classifies sent
  All-Classifies few [] own valid = tt
  All-Classifies few (c ∷ sent) own valid =
      (own-Classifies few c own.0 valid.0, All-Classifies few sent own.1 valid.1)

  -- However the requests of a new Iris handler interleave, down to the single assignments, and
  -- whatever the RPCs leave in their messages: if the features of the requests passed the gateway's
  -- validation, the backend replies to each RPC with the class of that request's own features, or,
  -- if the classifier fails on them, with its error.
  pub Reaches-Classifies :
      length target_names ≤ 2 ^ 31
      → (h : Heap) {s : Shared} → Reaches (fresh_handler h) s
      → All (λ c. first_invalid (entries c.0) ≡ none) s.sent
      → All Classifies s.sent
  Reaches-Classifies few h {s} run = All-Classifies few s.sent (sends_own_features h run)
