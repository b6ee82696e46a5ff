-- ===== src/Go/Text.antt =====
-- Go strings as lists of code points, and `strings.ToLower`.
pub mod Words
use Prim.Native.Char.{code}
use ai_gateway_monitor.Common.{
  ℕ, ◌+◌, ◌≡◌, refl, Bool, true, false, ◌&&◌, String, List, [], ◌∷◌, map, leb, ◌==◌, if◌then◌else◌,
}

-- The code points of a text.
abbrev pub codes : String → List ℕ
codes String.[] = []
codes (String.◌∷◌ c s) = code c ∷ codes s

unfoldable pub same_codes : List ℕ → List ℕ → Bool
same_codes [] [] = true
same_codes (a ∷ s) (b ∷ t) = a == b && same_codes s t
same_codes _ _ = false

unfoldable pub is_digit : ℕ → Bool
is_digit c = leb b'0' c && leb c b'9'

-- `unicode.ToLower`, up to the choice of a lower-case letter beyond ASCII. Two letters beyond ASCII
-- have one in ASCII: U+0130 (i) and the Kelvin sign (k). Every other letter beyond ASCII stays
-- beyond it, and stands for itself here: the gateway compares the result with ASCII words only.
unfoldable pub rune_to_lower : ℕ → ℕ
rune_to_lower c =
    if leb b'A' c && leb c b'Z'
    then c + 32
    else if c == 0x130
    then b'i'
    else if c == 0x212A
    then b'k'
    else c

unfoldable pub to_lower : String → List ℕ
unfolding rune_to_lower
to_lower s = map rune_to_lower (codes s)

-- `strings.ToLower(s) == word`, the test of a case of a `switch`.
unfoldable pub lower_is : String → String → Bool
unfolding to_lower same_codes
lower_is s word = same_codes (to_lower s) (codes word)

lower_is_mixed : lower_is "WaRNing" "warning" ≡ true
unfolding lower_is
lower_is_mixed = refl
