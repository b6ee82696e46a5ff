-- ===== src/Config/Words.antt =====
-- Which words `getEnvBool` takes, in any case.
use ai_gateway_monitor.Common.{
  ◌≡◌, ◌⊎◌, ◌↔◌, inl, inr, refl, true, false, String, none, some, arith,
}
use ai_gateway_monitor.Go.Text.{codes, to_lower, lower_is}
use ai_gateway_monitor.Go.Text.Words.{lower_is_iff}
use ai_gateway_monitor.Config.{parse_bool}

-- v is one of four words, up to the case of its letters.
abbrev Spells : String → String → String → String → String → Type 0
Spells a b c d v =
    (to_lower v ≡ codes a)
    ⊎ ((to_lower v ≡ codes b) ⊎ ((to_lower v ≡ codes c) ⊎ (to_lower v ≡ codes d)))

abbrev SaysYes : String → Type 0
SaysYes = Spells "1" "true" "yes" "on"

abbrev SaysNo : String → Type 0
SaysNo = Spells "0" "false" "no" "off"

yes_parses : (v : String) → SaysYes v → parse_bool v ≡ some true
unfolding parse_bool lower_is
yes_parses v (inl h) = rw h refl
yes_parses v (inr (inl h)) = rw h refl
yes_parses v (inr (inr (inl h))) = rw h refl
yes_parses v (inr (inr (inr h))) = rw h refl

no_parses : (v : String) → SaysNo v → parse_bool v ≡ some false
unfolding parse_bool lower_is
no_parses v (inl h) = rw h refl
no_parses v (inr (inl h)) = rw h refl
no_parses v (inr (inr (inl h))) = rw h refl
no_parses v (inr (inr (inr h))) = rw h refl

parsed_cases :
    (v : String)
    → ((parse_bool v ≡ none) ⊎ (SaysYes v × (parse_bool v ≡ some true)))
      ⊎ (SaysNo v × (parse_bool v ≡ some false))
unfolding parse_bool
parsed_cases v = ground (
  arith,
  lower_is_iff v "1",
  lower_is_iff v "true",
  lower_is_iff v "yes",
  lower_is_iff v "on",
  lower_is_iff v "0",
  lower_is_iff v "false",
  lower_is_iff v "no",
  lower_is_iff v "off",
)

-- A variable reads as true exactly if it is 1, true, yes or on, and as false exactly if it is 0,
-- false, no or off, in any mixture of cases; every other text is refused.
parse_bool_iff :
    (v : String)
    → ((parse_bool v ≡ some true) ↔ SaysYes v) × ((parse_bool v ≡ some false) ↔ SaysNo v)
parse_bool_iff v = elim (parsed_cases v) [
  | inl (inl bad) ↦ ((λ h. cc, yes_parses v), (λ h. cc, no_parses v))
  | inl (inr (said_yes, good)) ↦ ((λ h. said_yes, yes_parses v), (λ h. cc, no_parses v))
  | inr (said_no, good) ↦ ((λ h. cc, yes_parses v), (λ h. said_no, no_parses v))
]
