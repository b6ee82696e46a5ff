-- ===== src/Go/Duration/Fuel.antt =====
-- The loop of `ParseDuration` ends: each component takes something off the text.
use ai_gateway_monitor.Common.{
  ℕ, zero, suc, ◌+◌, ◌-◌, ◌*◌, ◌≤◌, ◌<◌, ◌≡◌, Bool, true, false, none, some, List, [], ◌∷◌, arith,
  length, inl, inr, Option-cases, ap, refl, ltb, ◌%◌, ◌^◌,
}
use ai_gateway_monitor.Go.Duration.{
  leading_int, leading_fraction, leading_unit, read_fraction, drop_dot, component, components,
}

leading_int-le :
    (s : List ℕ) (x v : ℕ) (rest : List ℕ)
    → leading_int s x ≡ some (v, rest)
    → length rest ≤ length s
unfolding leading_int
leading_int-le [] x v rest e = ground arith
leading_int-le (c ∷ s) x v rest e = ground (arith, leading_int-le s (x * 10 + (c - b'0')) v rest)

leading_fraction-le :
    (s : List ℕ) (x k : ℕ) (overflow : Bool) → length (leading_fraction s x k overflow).2 ≤ length s
unfolding leading_fraction
leading_fraction-le [] x k overflow = omega arith
leading_fraction-le (c ∷ s) x k overflow = ground (
  arith,
  leading_fraction-le s x k true,
  leading_fraction-le s (x * 10 + (c - b'0')) (k + 1) false,
)

leading_unit-le : (s : List ℕ) → length (leading_unit s).1 ≤ length s
unfolding leading_unit
leading_unit-le [] = omega arith
leading_unit-le (c ∷ s) = ground (arith, leading_unit-le s)

read_fraction-le : (s : List ℕ) → length (read_fraction s).2 ≤ length (drop_dot s)
read_fraction-le s = ground (arith, leading_fraction-le (drop_dot s) 0 0 false)

drop_dot-le : (s : List ℕ) → length (drop_dot s) ≤ length s
drop_dot-le s = ground arith

module _ (frac : ℕ → ℕ → ℕ → ℕ) where
  pub component-lt :
      (s : List ℕ) (v : ℕ) (rest : List ℕ)
      → component frac s ≡ some (v, rest)
      → length rest < length s
  unfolding component
  component-lt s v rest e = elim (Option-cases (leading_int s 0)) [
    | inl failed ↦ ground arith
    | inr ((n, s'), read) ↦ ground (
      arith,
      leading_int-le s 0 n s' read,
      read_fraction-le s',
      leading_unit-le (read_fraction s').2,
    )
  ]

  -- More fuel than the length of the text changes nothing.
  pub components-fuel :
      (f g : ℕ) (s : List ℕ) (d : ℕ)
      → length s ≤ f
      → length s ≤ g
      → components frac f s d ≡ components frac g s d
  unfolding components
  components-fuel f g [] d hf hg = refl
  components-fuel zero g (c ∷ s) d hf hg = absurd (omega arith)
  components-fuel (suc f) zero (c ∷ s) d hf hg = absurd (omega arith)
  components-fuel (suc f) (suc g) (c ∷ s) d hf hg = elim (Option-cases (component frac (c ∷ s))) [
    | inl failed ↦ rw (failed, components)
    | inr ((v, rest), read) ↦
        rw (read, components)
          (ap (λ after. elim (ltb (2 ^ 63) ((d + v) % 2 ^ 64)) [ true ↦ none | false ↦ after ])
            (components-fuel f g rest ((d + v) % 2 ^ 64)
              (omega (arith, component-lt (c ∷ s) v rest read))
              (omega (arith, component-lt (c ∷ s) v rest read))))
  ]
