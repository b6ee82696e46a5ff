-- ===== src/Iris/Order.antt =====
-- The order in which Go walks the map of features does not matter to what is accepted.
use text.Mathlib.TextEquality.{IsScalar-prop}
use mathlib.Core.Path.{subst}
use mathlib.Core.Logic.{∥∥₁_elim}
use mathlib.Core.List.{Perm, Permᴰ}
use mathlib.Core.List.Perm
use ai_gateway_monitor.Common.{
  ◌≡◌, refl, ◌↔◌, String, Option, none, some, List, [], ◌∷◌, All, arith,
}
use ai_gateway_monitor.Proto.{Float32}
use ai_gateway_monitor.Proto.Clients.{ok}
use ai_gateway_monitor.Iris.{
  IrisBody, Features, features, entries, first_invalid, validate_iris_feature,
}
use ai_gateway_monitor.Iris.Decision.{decision}
use ai_gateway_monitor.Iris.Validation.{IsFloat32, IsMeasurement, validate_iff_IsMeasurement}

-- A body with all four features.
abbrev pub complete_body : Features → IrisBody
complete_body f = record {
  sepal_length = some f.sepal_length;
  sepal_width = some f.sepal_width;
  petal_length = some f.petal_length;
  petal_width = some f.petal_width;
}

abbrev pub Entry : Type 0
Entry = String × Float32

abbrev pub IsValid : Entry → Type 0
IsValid e = validate_iris_feature e.0 e.1 ≡ none

pub first_invalid-none : (es : List Entry) → (first_invalid es ≡ none) ↔ All IsValid es
unfolding first_invalid
first_invalid-none [] = ground arith
first_invalid-none ((name, v) ∷ es) = ground (arith, first_invalid-none es)

All-Permᴰ : {es es' : List Entry} → Permᴰ es es' → All IsValid es → All IsValid es'
All-Permᴰ Permᴰ.nil h = h
All-Permᴰ (Permᴰ.cons same p) (h, hs) = (subst IsValid same h, All-Permᴰ p hs)
All-Permᴰ (Permᴰ.swap first second) (h, (k, hs)) =
    (subst IsValid second k, (subst IsValid first h, hs))
All-Permᴰ (Permᴰ.trans p q) h = All-Permᴰ q (All-Permᴰ p h)

message-set : IsSet (Option String)
message-set = hlevel IsScalar-prop

first_invalid-Perm :
    {es es' : List Entry} → Perm es es' → first_invalid es ≡ none → first_invalid es' ≡ none
first_invalid-Perm {es} {es'} p h =
    ∥∥₁_elim p (message-set (first_invalid es') none)
      (λ q. (first_invalid-none es').1 (All-Permᴰ q ((first_invalid-none es).0 h)))

IsValid-measurements :
    (es : List Entry)
    → All (λ e. IsFloat32 e.1) es
    → All IsValid es ↔ All (λ e. IsMeasurement e.1) es
IsValid-measurements [] _ = (λ h. h, λ h. h)
IsValid-measurements (e ∷ es) (float, floats) =
    let (valid, measured) = validate_iff_IsMeasurement e.0 e.1 float in
    let (valids, all_measured) = IsValid-measurements es floats in
    (λ h. (valid h.0, valids h.1), λ h. (measured h.0, all_measured h.1))

module _ (order : List Entry → List Entry) (permutes : (es : List Entry) → Perm (order es) es) where
  pub accepted_order :
      (body : IrisBody) (f : Features)
      → features body ≡ some f
      → (decision order (ok body) ≡ ok f) ↔ (first_invalid (order (entries f)) ≡ none)
  accepted_order body f present = ground (arith, present)

  pub first_invalid_order : (es : List Entry) → (first_invalid (order es) ≡ none) ↔ All IsValid es
  first_invalid_order es = (
    λ h. (first_invalid-none es).0 (first_invalid-Perm (permutes es) h),
    λ h. first_invalid-Perm (Perm.symm (permutes es)) ((first_invalid-none es).1 h),
  )

  decision_iff_All :
      (body : IrisBody) (f : Features)
      → features body ≡ some f
      → All (λ e. IsFloat32 e.1) (entries f)
      → (decision order (ok body) ≡ ok f) ↔ All (λ e. IsMeasurement e.1) (entries f)
  decision_iff_All body f present floats =
      let (sound, complete) = IsValid-measurements (entries f) floats in
      let (found, enough) = first_invalid_order (entries f) in
      let (from, to) = accepted_order body f present in
      (λ h. sound (found (from h)), λ h. to (enough (complete h)))

  -- Whatever order the map is walked in, a body with these four features, each a float32, is
  -- accepted, and with these features, exactly if the sepal length, the sepal width, the petal
  -- length and the petal width are numbers from 0 to 50.
  pub decision_iff_measurements :
      (f : Features)
      → IsFloat32 f.sepal_length
      → IsFloat32 f.sepal_width
      → IsFloat32 f.petal_length
      → IsFloat32 f.petal_width
      → (decision order (ok (complete_body f)) ≡ ok f) ↔ (
          IsMeasurement f.sepal_length
          × IsMeasurement f.sepal_width
          × IsMeasurement f.petal_length
          × IsMeasurement f.petal_width)
  decision_iff_measurements f a b c d =
      let (found, enough) = decision_iff_All (complete_body f) f refl (a, (b, (c, (d, tt)))) in
      (
        (λ h. let (a_in, (b_in, (c_in, (d_in, _)))) = found h in (a_in, b_in, c_in, d_in)),
        (λ h. let (a_in, b_in, c_in, d_in) = h in enough (a_in, (b_in, (c_in, (d_in, tt))))),
      )
