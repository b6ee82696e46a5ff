-- ===== src/Backend/Launch/Pings.antt =====
-- The pings of the gateway's connection, and the options of the server that they come to.
use mathlib.Core.Path.{subst}
use ai_gateway_monitor.Common.{
  ℕ, ◌*◌, ◌≡◌, ◌≢◌, sym, ap, ◌∙◌, pos_part, negsuc, ◌⊎◌, inl, inr, refl, Option-cases, arith, true,
  Option, none, some, List, [], ◌∷◌, All, All-map, Bool-cases, ℤ, pos, ◌≤ℤ◌, ◌<ℤ◌, ◌↔◌, String,
  str_eq, eq_iff,
}
use ai_gateway_monitor.Go.Duration.{parse_duration}
use ai_gateway_monitor.Config.{
  Config, Env, load, read, second, get_env_duration, cover_model_timeout,
}
use ai_gateway_monitor.Config.Getters.{get_env_duration_fallback}
use ai_gateway_monitor.Proto.Clients.{Result, ok, err}
use ai_gateway_monitor.Process.{DialOptions, dial}
use ai_gateway_monitor.Backend.IrisPredictor.{IrisPredictor, new_iris_predictor}
use ai_gateway_monitor.Backend.OllamaPredictor.{ModelPredictor}
use ai_gateway_monitor.Backend.Observability.{resolve_log_level}
use ai_gateway_monitor.Backend.Server.{GrpcServer, ServerOptions, server_options}
use ai_gateway_monitor.Backend.Launch.{
  Call, Environ, Outcomes, main_script, traced, with_tracing, with_iris, configured_model,
  new_server,
}

-- The servers that a run makes.
abbrev pub made : {E : Type 0} → List (Call E) → List (GrpcServer E)
made [] = []
made (new_server s ∷ t) = s ∷ made t
made (_ ∷ t) = made t

-- What gRPC documents of pings, for how far apart a client's pings are with a setting, and whether
-- an idle connection survives them, given the options of its two ends. Ten seconds is the least
-- that a client accepts. A server that permits pings without calls goes on with a client whose
-- pings are further apart than its minimal interval, and ends the connection of one whose pings
-- keep coming before that is over. What happens just at the minimal interval is left open.
pub record IsDocumented (interval : ℤ → ℤ) (Survives : ServerOptions → DialOptions → Type 0)
    : Type 0 where
  pub kept : (t : ℤ) → second 10 ≤ℤ t → interval t ≡ t
  pub raised : (t : ℤ) → t <ℤ second 10 → interval t ≡ second 10
  pub goes_on :
      (options : ServerOptions) (client : DialOptions)
      → options.keepalive_permit_without_calls ≡ 1
      → pos (options.min_ping_interval_without_data_ms * 1_000_000) <ℤ interval client.time
      → Survives options client
  pub ends :
      (options : ServerOptions) (client : DialOptions)
      → client.permit_without_stream ≡ true
      → interval client.time <ℤ pos (options.min_ping_interval_without_data_ms * 1_000_000)
      → ¬ (Survives options client)

module _ {E : Type 0} (environ : Environ) (o : Outcomes E) where
  abbrev HasOptions : List (Call E) → Type 0
  HasOptions calls = All (λ s. s.options ≡ server_options) (made calls)

  with_iris-HasOptions :
      (model : Result E (ModelPredictor E)) (iris : IrisPredictor E)
      → HasOptions (with_iris environ o model iris)
  unfolding with_iris
  with_iris-HasOptions (err _) iris = tt
  with_iris-HasOptions (ok model) iris = (refl, tt)

  with_tracing-HasOptions :
      (iris : Result E (IrisPredictor E)) → HasOptions (with_tracing environ o iris)
  unfolding with_tracing
  with_tracing-HasOptions (err _) = tt
  with_tracing-HasOptions (ok iris) = with_iris-HasOptions (configured_model environ o) iris

  traced-HasOptions : HasOptions (traced environ o)
  unfolding traced
  traced-HasOptions =
      let built = with_tracing-HasOptions (
        new_iris_predictor o.exists o.pickle_load o.fit o.target_names
          (environ "IRIS_MODEL_PATH")) in
      elim (Bool-cases o.exporter_fails) [
        | inl bad ↦ rw bad tt
        | inr good ↦ elim (Bool-cases o.instrument_fails) [
          | inl bad ↦ rw (good, bad) tt
          | inr well ↦ rw (good, well) built
        ]
      ]

  main_script-HasOptions : HasOptions (main_script environ o)
  unfolding main_script
  main_script-HasOptions = elim (Bool-cases (resolve_log_level (environ "LOG_LEVEL")).1) [
    | inl warns ↦ rw warns traced-HasOptions
    | inr fine ↦ rw fine traced-HasOptions
  ]

abbrev pub key : String
key = "GRPC_KEEP_ALIVE_TIME"

module _ (env : Env) (frac : ℕ → ℕ → ℕ → ℕ) where
  -- The variable holds no duration, or one of more than 20 s.
  abbrev pub IsLongOrUnread : Type 0
  IsLongOrUnread = (t : ℤ) → parse_duration frac (env key) ≡ some t → second 20 <ℤ t

  parse_duration-nil : parse_duration frac "" ≡ none
  unfolding parse_duration
  parse_duration-nil = refl

  waits :
      (t : ℤ)
      → parse_duration frac (env key) ≡ some t
      → (get_env_duration env frac key (second 30)).0 ≡ t
  unfolding get_env_duration
  waits t holds = elim (Bool-cases (str_eq (env key) "")) [
    | inl empty ↦
        absurd (let same = (eq_iff (env key) "").0 empty in let nil = parse_duration-nil in cc)
    | inr set ↦ rw (set, holds) refl
  ]

  same_value : {t t' : ℤ} {r : Option ℤ} → r ≡ some t → r ≡ some t' → t ≡ t'
  same_value first again = cc

  spaced_iff : (second 20 <ℤ (get_env_duration env frac key (second 30)).0) ↔ IsLongOrUnread
  spaced_iff = elim (Option-cases (parse_duration frac (env key))) [
    | inl unread ↦
        rw (get_env_duration_fallback env frac key (second 30) (inr unread))
          ((λ _ t holds. cc), (λ _. omega arith))
    | inr (t, holds) ↦ rw (waits t holds) (
      (λ long t' holds'. subst (λ u. second 20 <ℤ u) (same_value holds holds') long),
      (λ long. long t holds),
    )
  ]

  load-keep_alive :
      (load env frac).0.grpc_keep_alive_time ≡ (get_env_duration env frac key (second 30)).0
  unfolding load read cover_model_timeout
  load-keep_alive = ground arith

  load-spaced_iff : (second 20 <ℤ (load env frac).0.grpc_keep_alive_time) ↔ IsLongOrUnread
  load-spaced_iff = rw load-keep_alive spaced_iff

  waits_apart :
      parse_duration frac (env key) ≢ some (second 20)
      → (get_env_duration env frac key (second 30)).0 ≢ second 20
  waits_apart other same = elim (Option-cases (parse_duration frac (env key))) [
    | inl unread ↦
        let fallback = get_env_duration_fallback env frac key (second 30) (inr unread) in
        let absurd_equation = ap pos_part (sym fallback ∙ same) in omega (arith, absurd_equation)
    | inr (t, holds) ↦ other (holds ∙ ap some (sym (waits t holds) ∙ same))
  ]

apart_cases : (t : ℤ) → t ≢ second 20 → (t <ℤ second 20) ⊎ (second 20 <ℤ t)
apart_cases (negsuc n) other = inl (omega arith)
apart_cases (pos n) other = elim (order_cases n) [
  | inl same ↦ absurd (other (ap pos same))
  | inr apart ↦ apart
]
  where
    order_cases : (n : ℕ) → (n ≡ 20_000_000_000) ⊎ ((pos n <ℤ second 20) ⊎ (second 20 <ℤ pos n))
    order_cases n = omega arith

module _ (interval : ℤ → ℤ) (Survives : ServerOptions → DialOptions → Type 0)
    (rule : IsDocumented interval Survives) where
  long_or_short : (t : ℤ) → (second 10 ≤ℤ t) ⊎ (t <ℤ second 10)
  long_or_short t = omega arith

  interval_short : (t : ℤ) → t <ℤ second 20 → interval t <ℤ second 20
  interval_short t short = elim (long_or_short t) [
    | inl long ↦ rw (rule.kept t long) short
    | inr raised ↦ rw (rule.raised t raised) (omega arith)
  ]

  interval_long : (t : ℤ) → second 20 <ℤ t → second 20 <ℤ interval t
  interval_long t long = rw (rule.kept t (omega (arith, long))) long

  survives_iff_long :
      (cfg : Config)
      → cfg.grpc_keep_alive_time ≢ second 20
      → Survives server_options (dial cfg) ↔ (second 20 <ℤ cfg.grpc_keep_alive_time)
  survives_iff_long cfg other = (
    (λ survives. elim (apart_cases cfg.grpc_keep_alive_time other) [
      | inl short ↦ absurd (
          rule.ends server_options (dial cfg) refl (interval_short cfg.grpc_keep_alive_time short)
            survives)
      | inr long ↦ long
    ]),
    (λ long.
        rule.goes_on server_options (dial cfg) refl (interval_long cfg.grpc_keep_alive_time long)),
  )

  -- In every environment of the two processes, with gRPC as it documents its pings, and unless
  -- GRPC_KEEP_ALIVE_TIME is exactly 20 s: an idle connection that the gateway opens with the
  -- configuration of `Load` survives its pings at a server that the backend makes exactly if
  -- GRPC_KEEP_ALIVE_TIME holds no duration, or one of more than 20 s.
  pub idle_connection_survives_iff_long :
      {E : Type 0} (environ : Environ) (o : Outcomes E) (env : Env) (frac : ℕ → ℕ → ℕ → ℕ)
      → parse_duration frac (env key) ≢ some (second 20)
      → All
          (λ s. Survives s.options (dial (load env frac).0) ↔ IsLongOrUnread env frac)
          (made (main_script environ o))
  idle_connection_survives_iff_long environ o env frac other =
      All-map (made (main_script environ o))
        (λ s same.
          let survives =
            survives_iff_long (load env frac).0
              (rw (load-keep_alive env frac) (waits_apart env frac other)) in
          let spaced = load-spaced_iff env frac in
          rw same ((λ l. spaced.0 (survives.0 l)), (λ unread. survives.1 (spaced.1 unread))))
        (main_script-HasOptions environ o)
