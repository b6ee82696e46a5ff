-- ===== src/Go/Duration/Seconds.antt =====
-- A whole number of seconds, as the environment gives it, is read back.
use Prim.Native.String
use ai_gateway_monitor.Common.{
  ℕ, suc, ◌+◌, ◌*◌, ◌^◌, ◌<◌, ◌≤◌, ◌≡◌, refl, ◌∙◌, true, false, some, List, [], ◌∷◌, arith, pos,
}
use ai_gateway_monitor.Go.Text.{codes, is_digit, same_codes}
use ai_gateway_monitor.Go.Strconv.{emit, itoa_ℕ}
use ai_gateway_monitor.Go.Strconv.RoundTrip.{
  append-itoa, ReadsDigits, reads-emit, starts_digit-emit,
}
use ai_gateway_monitor.Go.Duration.{
  leading_int, leading_unit, unit_of, scale, component, unsigned, parse_duration,
}

reads-leading_int : ReadsDigits leading_int (2 ^ 63)
unfolding leading_int
reads-leading_int d x s h fits = ground arith

digit_alone : (d n : ℕ) → d < 10 → leading_int ((b'0' + d) ∷ []) 0 ≡ leading_int (b's' ∷ []) n → ⊥
unfolding leading_int is_digit
digit_alone d n h r = ground arith

-- The text is a digit, then more, and reads as the number with the unit left over.
seconds-shape :
    (n : ℕ)
    → n ≤ 2 ^ 63
    → (d : ℕ) × (c : ℕ) × (s : List ℕ) × (d < 10)
      × (codes (emit (suc n) n "s") ≡ (b'0' + d) ∷ c ∷ s)
      × (leading_int ((b'0' + d) ∷ c ∷ s) 0 ≡ some (n, b's' ∷ []))
seconds-shape n fits =
    let (d, s, h, e) = starts_digit-emit (suc n) n "s" (omega arith) in
    more_digits d s h e
      (rw e at (reads-emit leading_int (2 ^ 63) reads-leading_int (suc n) n "s" (omega arith) fits))
  where
    unit_left : leading_int (codes "s") n ≡ some (n, b's' ∷ [])
    unit_left = unfold leading_int is_digit in refl

    more_digits :
        (d : ℕ) (s : List ℕ)
        → d < 10
        → codes (emit (suc n) n "s") ≡ (b'0' + d) ∷ s
        → leading_int ((b'0' + d) ∷ s) 0 ≡ leading_int (codes "s") n
        → (d : ℕ) × (c : ℕ) × (s : List ℕ) × (d < 10)
          × (codes (emit (suc n) n "s") ≡ (b'0' + d) ∷ c ∷ s)
          × (leading_int ((b'0' + d) ∷ c ∷ s) 0 ≡ some (n, b's' ∷ []))
    more_digits d [] h e r = absurd (digit_alone d n h r)
    more_digits d (c ∷ s) h e r = (d, c, s, h, e, r ∙ unit_left)

seconds_unit :
    (leading_unit (b's' ∷ []) ≡ (b's' ∷ [], [])) × (unit_of (b's' ∷ []) ≡ some 1_000_000_000)
unfolding leading_unit unit_of is_digit
seconds_unit = (refl, refl)

scale-seconds :
    (frac : ℕ → ℕ → ℕ → ℕ) (n : ℕ)
    → n * 1_000_000_000 < 2 ^ 63
    → scale frac n 0 0 1_000_000_000 ≡ some (n * 1_000_000_000)
unfolding scale
scale-seconds frac n fits = ground arith

is_digit-digit : (d : ℕ) → d < 10 → is_digit (b'0' + d) ≡ true
unfolding is_digit
is_digit-digit d h = ground arith

component-seconds :
    (frac : ℕ → ℕ → ℕ → ℕ) (n d c : ℕ) (s : List ℕ)
    → d < 10
    → n * 1_000_000_000 < 2 ^ 63
    → leading_int ((b'0' + d) ∷ c ∷ s) 0 ≡ some (n, b's' ∷ [])
    → component frac ((b'0' + d) ∷ c ∷ s) ≡ some (n * 1_000_000_000, [])
unfolding component
component-seconds frac n d c s h fits read =
    ground
      (arith, read, is_digit-digit d h, seconds_unit.0, seconds_unit.1, scale-seconds frac n fits)

unsigned-seconds :
    (frac : ℕ → ℕ → ℕ → ℕ) (n d c : ℕ) (s : List ℕ)
    → d < 10
    → n * 1_000_000_000 < 2 ^ 63
    → leading_int ((b'0' + d) ∷ c ∷ s) 0 ≡ some (n, b's' ∷ [])
    → unsigned frac false ((b'0' + d) ∷ c ∷ s) ≡ some (pos (n * 1_000_000_000))
unfolding unsigned same_codes
unsigned-seconds frac n d c s h fits read =
    ground (arith, component-seconds frac n d c s h fits read)

-- A whole number of seconds printed with its unit parses to that many nanoseconds, if they fit in
-- an int64.
pub parse_duration-seconds :
    (frac : ℕ → ℕ → ℕ → ℕ) (n : ℕ)
    → n * 1_000_000_000 < 2 ^ 63
    → parse_duration frac (String.◌++◌ (itoa_ℕ n) "s") ≡ some (pos (n * 1_000_000_000))
unfolding parse_duration
parse_duration-seconds frac n fits =
    let (d, c, s, h, e, read) = seconds-shape n (omega arith) in
    rw (append-itoa n "s", e) (ground (arith, unsigned-seconds frac n d c s h fits read))
