-- ===== src/Go/Text/Words.antt =====
-- The test of a `switch` on a lower-cased text, as an equation.
use ai_gateway_monitor.Common.{ℕ, ◌≡◌, ◌↔◌, refl, true, String, List, [], ◌∷◌, arith}
use ai_gateway_monitor.Go.Text.{codes, same_codes, to_lower, lower_is}

same_codes_sound : (s t : List ℕ) → same_codes s t ≡ true → s ≡ t
unfolding same_codes
same_codes_sound [] [] h = refl
same_codes_sound [] (b ∷ t) h = absurd cc
same_codes_sound (a ∷ s) [] h = absurd cc
same_codes_sound (a ∷ s) (b ∷ t) h = ground (arith, same_codes_sound s t)

same_codes_refl : (s : List ℕ) → same_codes s s ≡ true
unfolding same_codes
same_codes_refl [] = refl
same_codes_refl (a ∷ s) = ground (arith, same_codes_refl s)

pub lower_is_iff : (s word : String) → (lower_is s word ≡ true) ↔ (to_lower s ≡ codes word)
unfolding lower_is
lower_is_iff s word =
    (same_codes_sound (to_lower s) (codes word), λ same. rw same (same_codes_refl (codes word)))
