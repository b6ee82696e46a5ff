-- ===== src/Backend/IrisPredictor/Validation.antt =====
-- The backend refuses what the gateway refuses, and nothing else.
use mathlib.Core.List.{Perm}
use ai_gateway_monitor.Common.{◌≡◌, ◌↔◌, false, String, none, some, List, [], ◌∷◌, All, arith}
use ai_gateway_monitor.Proto.{Float32}
use ai_gateway_monitor.Proto.Clients.{ok}
use ai_gateway_monitor.Iris.{IrisBody, Features, features, entries, validate_iris_feature}
use ai_gateway_monitor.Iris.Decision.{decision}
use ai_gateway_monitor.Iris.Reuse.{fresh_request}
use ai_gateway_monitor.Iris.Order.{Entry, IsValid, accepted_order, first_invalid_order}
use ai_gateway_monitor.Backend.IrisPredictor.{is_refused, refusal}
use ai_gateway_monitor.Backend.IrisPredictor.{features as measured}

is_refused_iff :
    (name : String) (v : Float32) → (is_refused v ≡ false) ↔ (validate_iris_feature name v ≡ none)
unfolding is_refused validate_iris_feature
is_refused_iff name v = ground arith

pub refusal-none : (es : List Entry) → (refusal es ≡ none) ↔ All IsValid es
unfolding refusal
refusal-none [] = ground arith
refusal-none ((name, v) ∷ es) = ground (arith, refusal-none es, is_refused_iff name v)

-- Whatever order the gateway walks its map in, and whatever the four bit patterns are: it accepts a
-- body with all four features exactly if the backend does not refuse the message that the gateway
-- makes of them. Neither check lets through what the other one stops.
pub refusal_iff_decision :
    (order : List Entry → List Entry)
    → ((es : List Entry) → Perm (order es) es)
    → (body : IrisBody) (f : Features) → features body ≡ some f
    → (decision order (ok body) ≡ ok f) ↔ (refusal (measured (fresh_request f)) ≡ none)
refusal_iff_decision order permutes body f present =
    let (from, to) = accepted_order order permutes body f present in
    let (found, enough) = first_invalid_order order permutes (entries f) in
    let (refused, admitted) = refusal-none (entries f) in
    (λ h. admitted (found (from h)), λ h. to (enough (refused h)))
