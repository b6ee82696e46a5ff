-- ===== src/Go/Strconv.antt =====
-- `strconv.Atoi`, `strconv.Itoa` and the `%d` of `fmt.Sprintf`.
pub mod RoundTrip
use Prim.Native.Char.{Char}
use ai_gateway_monitor.Common.{
  ℕ, zero, suc, ◌+◌, ◌-◌, ◌*◌, ◌/◌, ◌%◌, ◌^◌, ◌≡◌, refl, Bool, true, false, String, Option, none,
  some, List, [], ◌∷◌, arith, ltb, leb, ◌==◌, if◌then◌else◌, ℤ, pos, negsuc,
}
use ai_gateway_monitor.Go.Text.{codes, is_digit}

abbrev pub digit_char : ℕ → Char
digit_char zero = "0"
digit_char (suc zero) = "1"
digit_char (suc (suc zero)) = "2"
digit_char (suc (suc (suc zero))) = "3"
digit_char (suc (suc (suc (suc zero)))) = "4"
digit_char (suc (suc (suc (suc (suc zero))))) = "5"
digit_char (suc (suc (suc (suc (suc (suc zero)))))) = "6"
digit_char (suc (suc (suc (suc (suc (suc (suc zero))))))) = "7"
digit_char (suc (suc (suc (suc (suc (suc (suc (suc zero)))))))) = "8"
digit_char _ = "9"

-- Digits from the last to the first; a number has fewer of them than `suc n`.
pub emit : ℕ → ℕ → String → String
emit zero n out = out
emit (suc fuel) n out =
    let longer = emit fuel (n / 10) (String.◌∷◌ (digit_char (n % 10)) out) in
    if ltb n 10 then String.◌∷◌ (digit_char n) out else longer

unfoldable pub itoa_ℕ : ℕ → String
unfolding emit
itoa_ℕ n = emit (suc n) n ""

unfoldable pub itoa : ℤ → String
unfolding itoa_ℕ
itoa (pos n) = itoa_ℕ n
itoa (negsuc n) = String.◌∷◌ "-" (itoa_ℕ (suc n))

-- The value of a run of digits; `none` at any other character.
pub scan : List ℕ → ℕ → Option ℕ
scan [] n = some n
scan (c ∷ s) n = let rest = scan s (n * 10 + (c - b'0')) in if is_digit c then rest else none

pub scan_number : List ℕ → Option ℕ
unfolding scan is_digit
scan_number [] = none
scan_number (c ∷ s) = scan (c ∷ s) 0

abbrev pub negate : ℕ → ℤ
negate zero = pos zero
negate (suc n) = negsuc n

-- An int is 64 bits wide: from -2^63 to 2^63 - 1.
pub in_range : Bool → Option ℕ → Option ℤ
in_range negative none = none
in_range true (some n) = if leb n (2 ^ 63) then some (negate n) else none
in_range false (some n) = if ltb n (2 ^ 63) then some (pos n) else none

pub atoi_codes : List ℕ → Option ℤ
unfolding scan_number in_range
atoi_codes [] = none
atoi_codes (c ∷ s) =
    if c == b'-'
    then in_range true (scan_number s)
    else if c == b'+'
    then in_range false (scan_number s)
    else in_range false (scan_number (c ∷ s))

-- `none` is an error.
unfoldable pub atoi : String → Option ℤ
unfolding atoi_codes
atoi s = atoi_codes (codes s)

atoi_tests :
    (atoi "2000" ≡ some (pos 2000))
    × (atoi "-7" ≡ some (negsuc 6))
    × (atoi "12a" ≡ none)
    × (atoi "9223372036854775808" ≡ none)
unfolding atoi
atoi_tests = (refl, refl, refl, refl)

itoa_tests : (itoa (pos 504) ≡ "504") × (itoa (negsuc 9) ≡ "-10") × (itoa (pos 0) ≡ "0")
unfolding itoa
itoa_tests = (refl, refl, refl)
