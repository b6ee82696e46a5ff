-- ===== src/Iris/Validation.antt =====
-- Which float32 values `validateIrisFeature` accepts, in terms of their bit patterns.
use native.Mathlib.Nat.{pow-suc}
use ai_gateway_monitor.Common.{
  ℕ, zero, suc, ◌+◌, ◌-◌, ◌*◌, ◌^◌, ◌<◌, ◌≤◌, ◌≡◌, ◌↔◌, ◌⊎◌, inl, inr, refl, Bool, true, false,
  ◌&&◌, String, none, arith, ltb, leb, ◌==◌, if◌then◌else◌,
}
use ai_gateway_monitor.Proto.{Float32}
use ai_gateway_monitor.Iris.{magnitude, validate_iris_feature}

-- The fields of a bit pattern are within their widths.
pub record IsFloat32 (v : Float32) : Type 0 where
  pub exponent_bits : v.exponent < 256
  pub fraction_bits : v.fraction < 2 ^ 23

-- The low 31 bits of the pattern.
abbrev pub low_bits : Float32 → ℕ
low_bits v = v.exponent * 2 ^ 23 + v.fraction

-- 50 as a float32 is 0x42480000. In IEEE 754 the order of patterns with a clear sign bit is that
-- of the values, so 0 to 50 are the patterns up to this one; with the sign bit only -0 is left.
abbrev pub IsMeasurement : Float32 → Type 0
IsMeasurement v =
    ((v.negative ≡ false) × (low_bits v ≤ 0x42480000)) ⊎ ((v.negative ≡ true) × (low_bits v ≡ 0))

-- The powers of two around 50 * 2^149, for every exponent.
small_or_large : ℕ → Bool
small_or_large e =
    if ltb e 132
    then leb (2 ^ 24 * 2 ^ (e - 1)) (50 * 2 ^ 149)
    else if e == 132
    then 2 ^ (e - 1) * (2 ^ 23 + 4718592) == 50 * 2 ^ 149
    else ltb (50 * 2 ^ 149) (2 ^ 23 * 2 ^ (e - 1))

-- The comparison holds for the exponents below a bound, by evaluation.
holds_for : ℕ → Bool
holds_for zero = true
holds_for (suc bound) = let smaller = holds_for bound in smaller && small_or_large bound

holds_for_exponent : (bound e : ℕ) → e < bound → holds_for bound ≡ true → small_or_large e ≡ true
unfolding holds_for
holds_for_exponent (suc bound) e h all = ground (arith, holds_for_exponent bound e)
holds_for_exponent zero e h all = absurd (omega arith)

holds_for_exponents : holds_for 256 ≡ true
unfolding holds_for small_or_large
holds_for_exponents = refl

scale_mono : (a b p : ℕ) → a ≤ b → a * p ≤ b * p
scale_mono a b p h = grind arith

at_exponent : (e : ℕ) → e < 256 → small_or_large e ≡ true
at_exponent e h = holds_for_exponent 256 e h holds_for_exponents

below_limit : (e f : ℕ) → e < 132 → f < 2 ^ 23 → (2 ^ 23 + f) * 2 ^ (e - 1) ≤ 50 * 2 ^ 149
unfolding small_or_large
below_limit e f h k = ground (
  arith,
  at_exponent e (omega arith),
  scale_mono (2 ^ 23 + f) (2 ^ 24) (2 ^ (e - 1)) (omega arith),
)

above_limit : (e f : ℕ) → 132 < e → e < 256 → 50 * 2 ^ 149 < (2 ^ 23 + f) * 2 ^ (e - 1)
unfolding small_or_large
above_limit e f h k =
    ground (arith, at_exponent e k, scale_mono (2 ^ 23) (2 ^ 23 + f) (2 ^ (e - 1)) (omega arith))

-- The magnitude is over the limit exactly if the pattern is.
magnitude_limit :
    (v : Float32) → IsFloat32 v → (50 * 2 ^ 149 < magnitude v) ↔ (0x42480000 < low_bits v)
unfolding magnitude
magnitude_limit v w = by_exponent (compare_cases v.exponent)
  where
    compare_cases : (e : ℕ) → (e < 132) ⊎ ((e ≡ 132) ⊎ (132 < e))
    compare_cases e = omega arith

    by_exponent :
        (v.exponent < 132) ⊎ ((v.exponent ≡ 132) ⊎ (132 < v.exponent))
        → (50 * 2 ^ 149 < magnitude v) ↔ (0x42480000 < low_bits v)
    by_exponent (inl h) = ground (arith, below_limit v.exponent v.fraction h w.fraction_bits)
    by_exponent (inr (inl h)) = rw h (ground arith)
    by_exponent (inr (inr h)) = ground (arith, above_limit v.exponent v.fraction h w.exponent_bits)

pow_pos : (k : ℕ) → 0 < 2 ^ k
pow_pos zero = omega arith
pow_pos (suc k) = rw pow-suc (omega (arith, pow_pos k))

magnitude_zero : (v : Float32) → IsFloat32 v → (magnitude v ≡ 0) ↔ (low_bits v ≡ 0)
unfolding magnitude
magnitude_zero v w = ground (
  arith,
  scale_mono (2 ^ 23) (2 ^ 23 + v.fraction) (2 ^ (v.exponent - 1)) (omega arith),
  pow_pos (v.exponent - 1),
)

-- For every float32, whatever its name: it is accepted exactly if it is a number from 0 to 50, the
-- negative zero included; infinities, NaNs and all others are refused.
pub validate_iff_IsMeasurement :
    (name : String) (v : Float32)
    → IsFloat32 v
    → (validate_iris_feature name v ≡ none) ↔ IsMeasurement v
unfolding validate_iris_feature
validate_iff_IsMeasurement name v w = ground (arith, magnitude_limit v w, magnitude_zero v w)
