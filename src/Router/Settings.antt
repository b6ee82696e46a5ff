-- ===== src/Router/Settings.antt =====
-- What the settings of the environment do to the calls on the backend.
use Prim.Native.String
use ai_gateway_monitor.Common.{
  ℕ, ◌*◌, ◌^◌, ◌<◌, ◌≡◌, refl, ap, ◌∙◌, String, List, [], ◌∷◌, arith, pos, IsInt64, ltb,
  if◌then◌else◌, inl, inr, Bool-cases,
}
use ai_gateway_monitor.Go.Strconv.{itoa, itoa_ℕ}
use ai_gateway_monitor.Config.{Config, Env, second, read, load, cover_model_timeout}
use ai_gateway_monitor.Config.Getters.{get_env_int-itoa, get_env_duration-seconds}
use ai_gateway_monitor.Proto.{Float32}
use ai_gateway_monitor.Proto.Clients.{Result, ok, ClientConn, model_predict_name, iris_predict_name}
use ai_gateway_monitor.Http.{Context, model, iris}
use ai_gateway_monitor.Http.Counting.{calls}
use ai_gateway_monitor.ApiError.{GrpcErrors}
use ai_gateway_monitor.Model.{admitted, request, is_too_long}
use ai_gateway_monitor.Model.{predict as predict_model}
use ai_gateway_monitor.Model.Unary.{predict_model-calls, expected_calls}
use ai_gateway_monitor.Iris.{IrisBody, Features, RequestPool}
use ai_gateway_monitor.Iris.{predict as predict_iris}
use ai_gateway_monitor.Iris.Decision.{decision}
use ai_gateway_monitor.Iris.Reuse.{IsClean, fresh_request, predict_iris-calls}
use ai_gateway_monitor.Iris.Reuse.{expected_calls as expected_iris_calls}

is_too_long-ltb :
    (cfg : Config) (n : ℕ) (prompt : String)
    → cfg.max_prompt_len ≡ pos n
    → is_too_long cfg prompt ≡ ltb n (String.count prompt)
is_too_long-ltb cfg n prompt limit = ground arith

module _ (env : Env) (frac : ℕ → ℕ → ℕ → ℕ) where
  load_keeps :
      ((load env frac).0.model_timeout ≡ (read env frac).0.model_timeout)
      × ((load env frac).0.iris_timeout ≡ (read env frac).0.iris_timeout)
      × ((load env frac).0.max_prompt_len ≡ (read env frac).0.max_prompt_len)
  unfolding load cover_model_timeout
  load_keeps = ground arith

  module _ (g : GrpcErrors) {S : Type 0} (conn : ClientConn g.Err S) (c : Context) where
    admitted_within :
        (cfg : Config) (n : ℕ) (prompt : String)
        → cfg.max_prompt_len ≡ pos n
        → expected_calls g conn cfg c (admitted cfg (ok prompt)) ≡ (
            if ltb n (String.count prompt)
            then []
            else (model_predict_name, cfg.model_timeout, model (request prompt)) ∷ [])
    unfolding admitted
    admitted_within cfg n prompt limit = elim (Bool-cases (ltb n (String.count prompt))) [
      | inl long ↦ rw (is_too_long-ltb cfg n prompt limit ∙ long, long) refl
      | inr short ↦ rw (is_too_long-ltb cfg n prompt limit ∙ short, short) refl
    ]

    -- With MAX_PROMPT_LEN set to n and MODEL_TIMEOUT to t seconds, as Go prints these numbers, a
    -- prompt of at most n characters is sent to the backend once, under a timeout of t seconds, and
    -- a longer one is not sent.
    pub predict_model_settings :
        (n t : ℕ) (prompt : String)
        → IsInt64 (pos n)
        → t * 1_000_000_000 < 2 ^ 63
        → env "MAX_PROMPT_LEN" ≡ itoa (pos n)
        → env "MODEL_TIMEOUT" ≡ String.◌++◌ (itoa_ℕ t) "s"
        → calls (predict_model g conn (load env frac).0 c (ok prompt)) ≡ (
            if ltb n (String.count prompt)
            then []
            else (model_predict_name, second t, model (request prompt)) ∷ [])
    unfolding read
    predict_model_settings n t prompt range fits max_len timeout =
        predict_model-calls g conn (load env frac).0 c (ok prompt)
        ∙ admitted_within (load env frac).0 n prompt (
            load_keeps.2
            ∙ ap (λ r. r.0)
                (get_env_int-itoa env "MAX_PROMPT_LEN" (pos 2000) (pos n) range max_len))
        ∙ ap
            (λ x.
              if ltb n (String.count prompt)
              then []
              else (model_predict_name, x, model (request prompt)) ∷ [])
            (load_keeps.0
              ∙ ap (λ r. r.0)
                  (get_env_duration-seconds env frac "MODEL_TIMEOUT" (second 60) t fits timeout))

    -- With IRIS_TIMEOUT set to t seconds, and a clean pool: the features of an accepted body are
    -- sent to the backend once, under a timeout of t seconds.
    predict_iris_settings :
        (order : List (String × Float32) → List (String × Float32)) (bound : Result String IrisBody)
        (f : Features) (i : ℕ) (pool : RequestPool) (t : ℕ)
        → decision order bound ≡ ok f
        → IsClean pool
        → t * 1_000_000_000 < 2 ^ 63
        → env "IRIS_TIMEOUT" ≡ String.◌++◌ (itoa_ℕ t) "s"
        → calls (predict_iris g conn (load env frac).0 order c bound i pool).0
          ≡ (iris_predict_name, second t, iris (fresh_request f)) ∷ []
    unfolding read
    predict_iris_settings order bound f i pool t accepted clean fits timeout =
        predict_iris-calls g conn (load env frac).0 order c bound i pool clean
        ∙ ap (expected_iris_calls (load env frac).0) accepted
        ∙ ap (λ x. (iris_predict_name, x, iris (fresh_request f)) ∷ [])
            (load_keeps.1
              ∙ ap (λ r. r.0)
                  (get_env_duration-seconds env frac "IRIS_TIMEOUT" (second 3) t fits timeout))
