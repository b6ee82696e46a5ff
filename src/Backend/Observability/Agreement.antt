-- ===== src/Backend/Observability/Agreement.antt =====
-- Both services read LOG_LEVEL.
use ai_gateway_monitor.Common.{
  ℕ, ◌-◌, ◌<◌, ◌≤◌, ◌≡◌, ◌≢◌, ◌↔◌, refl, false, String, some, List, [], ◌∷◌, map, All, arith, ◌==◌,
  Bool-cases, inl, inr,
}
use ai_gateway_monitor.Go.Text.{codes, same_codes, rune_to_lower, to_lower, lower_is}
use ai_gateway_monitor.Go.Text.Words.{lower_is_iff}
use ai_gateway_monitor.Process.{info, warn, parse_log_level}
use ai_gateway_monitor.Backend.Observability.{rune_to_upper, upper_is, resolve_log_level}

abbrev IsAscii : ℕ → Type 0
IsAscii c = c < 128

abbrev IsLowerCase : ℕ → Type 0
IsLowerCase c = (b'a' ≤ c) × (c ≤ b'z')

-- A letter of a lower-case word, in capitals.
abbrev capital : ℕ → ℕ
capital c = c - 32

same_letter :
    (c l : ℕ) → IsAscii c → IsLowerCase l → (rune_to_upper c == capital l) ≡ (rune_to_lower c == l)
unfolding rune_to_upper rune_to_lower
same_letter c l small lower = ground arith

same_codes-capital :
    (s word : List ℕ)
    → All IsAscii s
    → All IsLowerCase word
    → same_codes (map rune_to_upper s) (map capital word) ≡ same_codes (map rune_to_lower s) word
unfolding same_codes
same_codes-capital [] [] h k = refl
same_codes-capital [] (l ∷ word) h k = refl
same_codes-capital (c ∷ s) [] h k = refl
same_codes-capital (c ∷ s) (l ∷ word) (small, h) (lower, k) =
    rw (same_letter c l small lower, same_codes-capital s word h k) refl

module _ (raw : String) (ascii : All IsAscii (codes raw)) where
  in_capitals :
      (word : List ℕ)
      → All IsLowerCase word
      → same_codes (map rune_to_upper (codes raw)) (map capital word)
        ≡ same_codes (to_lower raw) word
  unfolding to_lower
  in_capitals word k = same_codes-capital (codes raw) word ascii k

  upper_is_lower :
      (upper_is raw "DEBUG" ≡ lower_is raw "debug")
      × (upper_is raw "INFO" ≡ lower_is raw "info")
      × (upper_is raw "WARNING" ≡ lower_is raw "warning")
      × (upper_is raw "ERROR" ≡ lower_is raw "error")
  unfolding upper_is lower_is
  upper_is_lower = (
    in_capitals (codes "debug") (omega arith),
    in_capitals (codes "info") (omega arith),
    in_capitals (codes "warning") (omega arith),
    in_capitals (codes "error") (omega arith),
  )

  no_warn : to_lower raw ≢ codes "warn" → lower_is raw "warn" ≡ false
  no_warn other = elim (Bool-cases (lower_is raw "warn")) [
    | inl is_warn ↦ absurd (other ((lower_is_iff raw "warn").0 is_warn))
    | inr not_warn ↦ not_warn
  ]

  agree_on_info :
      to_lower raw ≡ codes "info" → (resolve_log_level (some raw)).0 ≡ parse_log_level raw
  unfolding resolve_log_level parse_log_level lower_is
  agree_on_info same = rw (upper_is_lower.0, upper_is_lower.1, same) refl

  agree_but_for_warn :
      to_lower raw ≢ codes "warn" → (resolve_log_level (some raw)).0 ≡ parse_log_level raw
  unfolding resolve_log_level parse_log_level
  agree_but_for_warn other = elim (Bool-cases (lower_is raw "info")) [
    | inl is_info ↦ agree_on_info ((lower_is_iff raw "info").0 is_info)
    | inr not_info ↦
        let not_warn = no_warn other in
        rw
          (
            upper_is_lower.0, upper_is_lower.1, upper_is_lower.2, upper_is_lower.3, not_info,
            not_warn,
          )
          (ground arith)
  ]

  differ_on_warn :
      to_lower raw ≡ codes "warn"
      → ((resolve_log_level (some raw)).0 ≡ info) × (parse_log_level raw ≡ warn)
  unfolding resolve_log_level parse_log_level lower_is
  differ_on_warn same = (
    rw (upper_is_lower.0, upper_is_lower.1, upper_is_lower.2, upper_is_lower.3, same) refl,
    rw same refl,
  )

  -- Both services take LOG_LEVEL for the same level, whatever its capitals and also if it is a word
  -- that neither knows, exactly if it is not `warn`, in any capitals. LOG_LEVEL is an ASCII text.
  pub resolve_log_level_iff :
      ((resolve_log_level (some raw)).0 ≡ parse_log_level raw) ↔ (to_lower raw ≢ codes "warn")
  resolve_log_level_iff =
      (λ agree same. let (backend, gateway) = differ_on_warn same in cc, agree_but_for_warn)
