-- ===== src/Go/Duration.antt =====
-- `time.ParseDuration`. Its only use of floating point, the nanoseconds of a decimal fraction, is
-- the parameter `frac`: `frac f unit k` is `uint64(float64(f) * (float64(unit) / 1e<k>))`.
pub mod Fuel
pub mod Range
pub mod Seconds
use ai_gateway_monitor.Common.{
  ℕ, zero, suc, ◌+◌, ◌-◌, ◌*◌, ◌/◌, ◌%◌, ◌^◌, ◌≡◌, refl, Bool, true, false, ◌&&◌, ◌||◌, not, String,
  Option, none, some, List, [], ◌∷◌, arith, ltb, leb, ◌==◌, if◌then◌else◌, ℤ, pos, negsuc, length,
}
use ai_gateway_monitor.Go.Text.{codes, same_codes, is_digit}
use ai_gateway_monitor.Go.Strconv.{negate}

-- `leadingInt`: the value of the digits in front and what follows them; `none` is an overflow.
pub leading_int : List ℕ → ℕ → Option (ℕ × List ℕ)
unfolding is_digit
leading_int [] x = some (x, [])
leading_int (c ∷ s) x =
    let y = x * 10 + (c - b'0') in
    let rest = leading_int s y in
    if is_digit c
    then if ltb (2 ^ 63 / 10) x then none else if ltb (2 ^ 63) y then none else rest
    else some (x, c ∷ s)

-- `leadingFraction`: the digits' value, the number of digits in it, and what follows. Digits after
-- an overflow are skipped.
pub leading_fraction : List ℕ → ℕ → ℕ → Bool → ℕ × ℕ × List ℕ
unfolding is_digit
leading_fraction [] x k overflow = (x, k, [])
leading_fraction (c ∷ s) x k overflow =
    let y = x * 10 + (c - b'0') in
    let skipped = leading_fraction s x k true in
    let taken = leading_fraction s y (k + 1) false in
    if is_digit c
    then if overflow || ltb ((2 ^ 63 - 1) / 10) x || ltb (2 ^ 63) y then skipped else taken
    else (x, k, c ∷ s)

-- The unit: everything up to the next digit or dot.
pub leading_unit : List ℕ → List ℕ × List ℕ
unfolding is_digit
leading_unit [] = ([], [])
leading_unit (c ∷ s) =
    let (u, rest) = leading_unit s in if c == b'.' || is_digit c then ([], c ∷ s) else (c ∷ u, rest)

-- `unitMap`, in nanoseconds.
pub unit_of : List ℕ → Option ℕ
unfolding same_codes
unit_of u =
    if same_codes u (codes "ns")
    then some 1
    else if same_codes u (codes "us")
        || same_codes u (0xB5 ∷ b's' ∷ [])
        || same_codes u (0x3BC ∷ b's' ∷ [])
    then some 1_000
    else if same_codes u (codes "ms")
    then some 1_000_000
    else if same_codes u (codes "s")
    then some 1_000_000_000
    else if same_codes u (codes "m")
    then some 60_000_000_000
    else if same_codes u (codes "h")
    then some 3_600_000_000_000
    else none

abbrev pub is_nil : List ℕ → Bool
is_nil [] = true
is_nil (_ ∷ _) = false

abbrev is_dot : List ℕ → Bool
is_dot [] = false
is_dot (c ∷ _) = c == b'.'

abbrev drop_dot : List ℕ → List ℕ
drop_dot [] = []
drop_dot (c ∷ s) = if c == b'.' then s else c ∷ s

abbrev starts_number : List ℕ → Bool
starts_number [] = false
starts_number (c ∷ _) = c == b'.' || is_digit c

-- Whether nothing was read between two points of the text.
abbrev same_length : List ℕ → List ℕ → Bool
same_length before after = length before == length after

-- The sign is applied to the uint64, and the result has to be an int64.
abbrev signed : Bool → ℕ → Option ℤ
signed true d = some (negate d)
signed false d = if ltb (2 ^ 63 - 1) d then none else some (pos d)

infixl 5 ◌>>=◌ ◌>>◌
abbrev ◌>>=◌ {ℓ κ} : {A : Type ℓ} {B : Type κ} → Option A → (A → Option B) → Option B
none >>= f = none
some a >>= f = f a

abbrev ◌>>◌ {ℓ} : {B : Type ℓ} → Option (Unit {0}) → Option B → Option B
m >> k = m >>= λ _. k

abbrev refuse_if : Bool → Option (Unit {0})
refuse_if true = none
refuse_if false = some tt

-- What is read so far of one component: integer, fraction, digits of the fraction, what follows.
abbrev read_fraction : List ℕ → ℕ × ℕ × List ℕ
read_fraction s = if is_dot s then leading_fraction (drop_dot s) 0 0 false else (0, 0, s)

module _ (frac : ℕ → ℕ → ℕ → ℕ) where
  -- The value of one component in nanoseconds, with the arithmetic of uint64.
  pub scale : ℕ → ℕ → ℕ → ℕ → Option ℕ
  scale v f k unit = do
    refuse_if (ltb (2 ^ 63 / unit) v)
    let whole = v * unit
    let v' = if ltb 0 f then (whole + frac f unit k) % 2 ^ 64 else whole
    refuse_if (ltb 0 f && ltb (2 ^ 63) v')
    some v'

  -- One round of the loop: a number with a unit, and what follows it.
  pub component : List ℕ → Option (ℕ × List ℕ)
  component s = do
    refuse_if (not (starts_number s))
    (v, s') ← leading_int s 0
    let (f, k, s'') = read_fraction s'
    refuse_if (same_length s s' && same_length (drop_dot s') s'')
    let (u, rest) = leading_unit s''
    unit ← unit_of u
    v' ← scale v f k unit
    some (v', rest)

  -- The loop of `ParseDuration`: each round takes at least a digit off, so the text's length is
  -- enough fuel.
  pub components : ℕ → List ℕ → ℕ → Option ℕ
  components _ [] d = some d
  components zero (c ∷ s) d = none
  components (suc fuel) (c ∷ s) d = elim (component (c ∷ s)) [
    | none ↦ none
    | some (v, rest) ↦ elim (ltb (2 ^ 63) ((d + v) % 2 ^ 64)) [
      | true ↦ none
      | false ↦ components fuel rest ((d + v) % 2 ^ 64)
    ]
  ]

  -- What follows the sign.
  pub unsigned : Bool → List ℕ → Option ℤ
  unfolding components
  unsigned negative s =
      if same_codes s (codes "0")
      then some (pos 0)
      else if is_nil s
      then none
      else do d ← components (length s) s 0; signed negative d

  pub parse_codes : List ℕ → Option ℤ
  unfolding unsigned
  parse_codes [] = none
  parse_codes (c ∷ s) =
      if c == b'-'
      then unsigned true s
      else if c == b'+'
      then unsigned false s
      else unsigned false (c ∷ s)

  -- `none` is an error.
  unfoldable pub parse_duration : String → Option ℤ
  unfolding parse_codes component scale unit_of leading_int leading_fraction leading_unit same_codes
  parse_duration s = parse_codes (codes s)

-- The fraction's nanoseconds computed exactly, for tests.
abbrev pub exact_fraction : ℕ → ℕ → ℕ → ℕ
exact_fraction f unit k = f * unit / 10 ^ k

duration_tests :
    (parse_duration exact_fraction "75s" ≡ some (pos 75_000_000_000))
    × (parse_duration exact_fraction "1h2m3.5s" ≡ some (pos 3_723_500_000_000))
    × (parse_duration exact_fraction "-10ms" ≡ some (negsuc 9_999_999))
    × (parse_duration exact_fraction "0" ≡ some (pos 0))
    × (parse_duration exact_fraction "75" ≡ none)
    × (parse_duration exact_fraction ".s" ≡ none)
    × (parse_duration exact_fraction "3000000h" ≡ none)
unfolding parse_duration
duration_tests = (refl, refl, refl, refl, refl, refl, refl)
