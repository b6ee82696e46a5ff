-- ===== src/Process/Levels.antt =====
-- Which levels `LOG_LEVEL` can name, in any case.
use mathlib.Core.Path.{subst}
use ai_gateway_monitor.Common.{◌≢◌, sym, ◌∙◌, ◌≡◌, ◌⊎◌, ◌↔◌, inl, inr, refl, String, arith}
use ai_gateway_monitor.Go.Text.{codes, to_lower, lower_is}
use ai_gateway_monitor.Go.Text.Words.{lower_is_iff}
use ai_gateway_monitor.Process.{Level, debug, info, warn, error, parse_log_level}

-- The texts that name a level of their own.
data Names (text : String) : Level → Type 0 where
  is_debug : to_lower text ≡ codes "debug" → Names text debug
  is_warn : to_lower text ≡ codes "warn" → Names text warn
  is_warning : to_lower text ≡ codes "warning" → Names text warn
  is_error : to_lower text ≡ codes "error" → Names text error

Names-parse_log_level :
    {text : String} {level : Level} → Names text level → parse_log_level text ≡ level
unfolding parse_log_level lower_is
Names-parse_log_level (is_debug h) = rw h refl
Names-parse_log_level (is_warn h) = rw h refl
Names-parse_log_level (is_warning h) = rw h refl
Names-parse_log_level (is_error h) = rw h refl

named_or_info : (text : String) → (parse_log_level text ≡ info) ⊎ Names text (parse_log_level text)
unfolding parse_log_level
named_or_info text = grind (
  arith,
  is_debug,
  is_warn,
  is_warning,
  is_error,
  lower_is_iff text "debug",
  lower_is_iff text "warn",
  lower_is_iff text "warning",
  lower_is_iff text "error",
)

-- A level other than info is set exactly by its words, in any mixture of cases: debug, warn or
-- warning, and error. So every other text sets info.
parse_log_level_iff :
    (text : String) (level : Level)
    → level ≢ info
    → (parse_log_level text ≡ level) ↔ Names text level
parse_log_level_iff text level other = (
  λ same. elim (named_or_info text) [
    | inl plain ↦ absurd (other (sym same ∙ plain))
    | inr named ↦ subst (Names text) same named
  ],
  Names-parse_log_level,
)
