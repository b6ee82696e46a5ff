-- ===== src/Metrics/Validity.antt =====
-- The names that Prometheus accepts, from its data model: for a metric [a-zA-Z_:][a-zA-Z0-9_:]*, for
-- a label [a-zA-Z_][a-zA-Z0-9_]* without two underscores in front; no label occurs twice.
use ai_gateway_monitor.Common.{
  ℕ, ◌≡◌, refl, Bool, true, false, ◌&&◌, ◌||◌, not, String, List, [], ◌∷◌, All, leb, ◌==◌, str_eq,
}
use ai_gateway_monitor.Go.Text.{codes, is_digit}
use ai_gateway_monitor.Metrics.{Instrument, register}

abbrev is_letter : ℕ → Bool
is_letter c = leb b'a' c && leb c b'z' || leb b'A' c && leb c b'Z' || c == b'_'

abbrev every : {A : Type 0} → (A → Bool) → List A → Bool
every test [] = true
every test (x ∷ xs) = test x && every test xs

is_metric_codes : List ℕ → Bool
is_metric_codes [] = false
is_metric_codes (c ∷ rest) =
    (is_letter c || c == b':') && every (λ c. is_letter c || is_digit c || c == b':') rest

is_label_codes : List ℕ → Bool
is_label_codes [] = false
is_label_codes (c ∷ []) = is_letter c
is_label_codes (c ∷ d ∷ rest) =
    is_letter c && not (c == b'_' && d == b'_') && every (λ c. is_letter c || is_digit c) (d ∷ rest)

no_repeats : List String → Bool
no_repeats [] = true
no_repeats (x ∷ xs) = every (λ y. not (str_eq x y)) xs && no_repeats xs

pub is_valid : Instrument → Bool
unfolding is_metric_codes is_label_codes no_repeats is_digit
is_valid i =
    is_metric_codes (codes i.name)
    && every (λ label. is_label_codes (codes label)) i.label_names
    && no_repeats i.label_names

pub register_valid : (def_buckets : List ℕ) → All (λ i. is_valid i ≡ true) (register def_buckets)
unfolding is_valid
register_valid def_buckets = (refl, (refl, (refl, (refl, (refl, tt)))))
