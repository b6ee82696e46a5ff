-- ===== src/Config/Getters.antt =====
-- What the getters return: values in range, the default for what cannot be read, and what a
-- printed number or duration comes back as.
use Prim.Native.String
use ai_gateway_monitor.Common.{
  ℕ, ◌*◌, ◌^◌, ◌<◌, ◌≡◌, refl, Bool, String, Option, none, [], arith, ℤ, IsInt64, inl, inr, ◌⊎◌,
  str_eq-ne, Option-cases, eq_iff,
}
use ai_gateway_monitor.Go.Strconv.{itoa, itoa_ℕ, atoi}
use ai_gateway_monitor.Go.Strconv.RoundTrip.{
  atoi-itoa, itoa-ne-nil, append-itoa-ne-nil, atoi-IsInt64,
}
use ai_gateway_monitor.Go.Duration.{parse_duration}
use ai_gateway_monitor.Go.Duration.Range.{parse_duration-IsInt64}
use ai_gateway_monitor.Go.Duration.Seconds.{parse_duration-seconds}
use ai_gateway_monitor.Config.{
  get_env, Env, second, parse_bool, get_env_int, get_env_bool, get_env_duration,
}

-- A variable that is not set, or holds what `parse` refuses.
abbrev pub IsUnreadable : {A : Type 0} → (String → Option A) → String → Type 0
IsUnreadable parse v = (v ≡ "") ⊎ (parse v ≡ none)

module _ (env : Env) where
  pub get_env_fallback :
      (key fallback : String) → env key ≡ "" → get_env env key fallback ≡ fallback
  unfolding get_env
  get_env_fallback key fallback h = ground (arith, eq_iff (env key) "")

  pub get_env_int-IsInt64 :
      (key : String) (fallback : ℤ) → IsInt64 fallback → IsInt64 (get_env_int env key fallback).0
  unfolding get_env_int
  get_env_int-IsInt64 key fallback h = elim (Option-cases (atoi (env key))) [
    | inl bad ↦ rw bad (ground arith)
    | inr (a, good) ↦ ground (arith, good, atoi-IsInt64 (env key) a good)
  ]

  pub get_env_int_fallback :
      (key : String) (fallback : ℤ)
      → IsUnreadable atoi (env key)
      → (get_env_int env key fallback).0 ≡ fallback
  unfolding get_env_int
  get_env_int_fallback key fallback h = ground (arith, eq_iff (env key) "")

  pub get_env_bool_fallback :
      (key : String) (fallback : Bool)
      → IsUnreadable parse_bool (env key)
      → (get_env_bool env key fallback).0 ≡ fallback
  unfolding get_env_bool
  get_env_bool_fallback key fallback h = ground (arith, eq_iff (env key) "")

  pub get_env_int-itoa :
      (key : String) (fallback a : ℤ)
      → IsInt64 a
      → env key ≡ itoa a
      → get_env_int env key fallback ≡ (a, [])
  unfolding get_env_int
  get_env_int-itoa key fallback a range printed =
      rw (printed, str_eq-ne (itoa a) "" (itoa-ne-nil a), atoi-itoa a range) refl

  module _ (frac : ℕ → ℕ → ℕ → ℕ) where
    pub get_env_duration-IsInt64 :
        (key : String) (fallback : ℤ)
        → IsInt64 fallback
        → IsInt64 (get_env_duration env frac key fallback).0
    unfolding get_env_duration
    get_env_duration-IsInt64 key fallback h = elim (Option-cases (parse_duration frac (env key))) [
      | inl bad ↦ rw bad (ground arith)
      | inr (a, good) ↦ ground (arith, good, parse_duration-IsInt64 frac (env key) good)
    ]

    pub get_env_duration_fallback :
        (key : String) (fallback : ℤ)
        → IsUnreadable (parse_duration frac) (env key)
        → (get_env_duration env frac key fallback).0 ≡ fallback
    unfolding get_env_duration
    get_env_duration_fallback key fallback h = ground (arith, eq_iff (env key) "")

    pub get_env_duration-seconds :
        (key : String) (fallback : ℤ) (n : ℕ)
        → n * 1_000_000_000 < 2 ^ 63
        → env key ≡ String.◌++◌ (itoa_ℕ n) "s"
        → get_env_duration env frac key fallback ≡ (second n, [])
    unfolding get_env_duration
    get_env_duration-seconds key fallback n fits printed =
        rw (printed, str_eq-ne _ "" (append-itoa-ne-nil n "s"), parse_duration-seconds frac n fits)
          refl
