-- ===== src/Go/Duration/Range.antt =====
-- A parsed duration is an int64.
use ai_gateway_monitor.Common.{
  ℕ, zero, suc, ◌+◌, ◌%◌, ◌^◌, ◌≤◌, ◌≡◌, Bool, true, false, some, List, [], ◌∷◌, arith,
  Option-cases, inl, inr, ℤ, IsInt64, String, length,
}
use ai_gateway_monitor.Go.Text.{codes}
use ai_gateway_monitor.Go.Duration.{
  component, components, signed, unsigned, parse_codes, parse_duration,
}

module _ (frac : ℕ → ℕ → ℕ → ℕ) where
  components-le :
      (fuel : ℕ) (s : List ℕ) (d t : ℕ)
      → d ≤ 2 ^ 63
      → components frac fuel s d ≡ some t
      → t ≤ 2 ^ 63
  unfolding components
  components-le zero [] d t h e = ground arith
  components-le zero (c ∷ s) d t h e = ground arith
  components-le (suc fuel) [] d t h e = ground arith
  components-le (suc fuel) (c ∷ s) d t h e = elim (Option-cases (component frac (c ∷ s))) [
    | inl failed ↦ cc (rw (failed, components) at e)
    | inr ((v, rest), read) ↦ ground (arith, read, components-le fuel rest ((d + v) % 2 ^ 64) t)
  ]

  signed-IsInt64 :
      (negative : Bool) (d : ℕ) (a : ℤ) → d ≤ 2 ^ 63 → signed negative d ≡ some a → IsInt64 a
  signed-IsInt64 true zero a h e = ground arith
  signed-IsInt64 true (suc d) a h e = ground arith
  signed-IsInt64 false d a h e = ground arith

  unsigned-IsInt64 :
      (negative : Bool) (s : List ℕ) (a : ℤ) → unsigned frac negative s ≡ some a → IsInt64 a
  unfolding unsigned
  unsigned-IsInt64 negative s a e = elim (Option-cases (components frac (length s) s 0)) [
    | inl failed ↦ ground arith
    | inr (d, read) ↦
        ground
          (arith, components-le (length s) s 0 d (omega arith) read, signed-IsInt64 negative d a)
  ]

  parse_codes-IsInt64 : (s : List ℕ) (a : ℤ) → parse_codes frac s ≡ some a → IsInt64 a
  unfolding parse_codes
  parse_codes-IsInt64 [] a e = cc
  parse_codes-IsInt64 (c ∷ s) a e = ground (
    arith,
    unsigned-IsInt64 true s a,
    unsigned-IsInt64 false s a,
    unsigned-IsInt64 false (c ∷ s) a,
  )

  pub parse_duration-IsInt64 : (s : String) {a : ℤ} → parse_duration frac s ≡ some a → IsInt64 a
  unfolding parse_duration
  parse_duration-IsInt64 s e = parse_codes-IsInt64 (codes s) _ e
