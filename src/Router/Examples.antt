-- ===== src/Router/Examples.antt =====
-- The routes on concrete requests.
use ai_gateway_monitor.Router.Scrapes.{first, further, Serves, scrape_bounds}
use ai_gateway_monitor.Router.Exchanges.{
  Exchange, now, Interleaves, idle, arrive, act, arrivals, outstanding,
}
use ai_gateway_monitor.Http.Totals.{duration_count, requests_total}
use ai_gateway_monitor.ApiError.{write_validation_error}
use ai_gateway_monitor.ApiError.Contract.{error_body}
use ai_gateway_monitor.Model.{predict as predict_model, admitted}
use ai_gateway_monitor.Router.Settings.{predict_model_settings}
use ai_gateway_monitor.Http.Counting.{calls}
use ai_gateway_monitor.Http.{model, Event, count_request, respond, observe_http}
use ai_gateway_monitor.Go.Duration.{exact_fraction}
use ai_gateway_monitor.Go.Strconv.{itoa, itoa_ℕ}
use ai_gateway_monitor.Config.{Env, load, second}
use ai_gateway_monitor.Common.{
  refl, none, some, ℕ, [], ◌∷◌, All, str_eq, if◌then◌else◌, arith, ◌≡◌, ◌++◌, ◌+◌, ◌≤◌, List,
}
use ai_gateway_monitor.Config.Loading.{default_config}
use ai_gateway_monitor.Proto.Clients.{ok, model_predict_name}
use ai_gateway_monitor.Model.{step}
use ai_gateway_monitor.Model.{request as prompt_request}
use ai_gateway_monitor.Health.{readyz}
use ai_gateway_monitor.Iris.{first_invalid, validate_iris_feature}
use ai_gateway_monitor.Iris.{predict as predict_iris}
use ai_gateway_monitor.Proto.Clients.{iris_predict as call_iris_predict}
use ai_gateway_monitor.Router.Session.{
  Call, Service, after, Session, closed, request, Input, arrives, unpooled_log, session_unpooled,
}
use ai_gateway_monitor.Router.Session.{incoming as session_incoming}
use ai_gateway_monitor.Testing.{
  test_errors, test_conn, reply, chunk, anonymous, next, loop, loop-Rounds, as_written, flower_body,
  connectivity, provider, incoming, refused,
}
use ai_gateway_monitor.Router.{
  setup, serve, Route, route, get, post, Handler, model_predict, iris_predict, health_readyz,
}
use ai_gateway_monitor.Router.Rpcs.{Rpcs, setup-Rpcs}
use ai_gateway_monitor.Router.Statuses.{Counts, setup-Counts}
use ai_gateway_monitor.Router.Accounting.{Accounts, labels, setup-Accounts}

setup-Accounts_example :
    All
      (λ route. Accounts (labels route.method route.path) (
        serve test_errors
          (test_conn none (chunk (reply "Hello" 3) ∷ []))
          next
          (loop 5)
          as_written
          connectivity
          provider
          []
          default_config
          route.handler
          incoming))
      setup
setup-Accounts_example =
    setup-Accounts test_errors (test_conn none (chunk (reply "Hello" 3) ∷ [])) next (loop 5)
      as_written connectivity provider [] default_config
      (λ c. loop-Rounds 5 (step test_errors next c)) (record { timed = refl; counted_paths = refl })
      incoming

setup-Rpcs_example :
    All
      (λ route. Rpcs route.handler route.path (
        serve test_errors
          (test_conn none (chunk (reply "Hello" 3) ∷ []))
          next
          (loop 5)
          as_written
          connectivity
          provider
          []
          default_config
          route.handler
          incoming))
      setup
setup-Rpcs_example =
    setup-Rpcs test_errors (test_conn none (chunk (reply "Hello" 3) ∷ [])) next (loop 5) as_written
      connectivity provider [] default_config (λ c. loop-Rounds 5 (step test_errors next c)) refl
      refl incoming

setup-Counts_example :
    All
      (λ route. Counts route.method route.path (
        serve test_errors
          (test_conn none (chunk (reply "Hello" 3) ∷ []))
          next
          (loop 5)
          as_written
          connectivity
          provider
          []
          default_config
          route.handler
          incoming))
      setup
setup-Counts_example =
    setup-Counts test_errors (test_conn none (chunk (reply "Hello" 3) ∷ [])) next (loop 5)
      as_written connectivity provider [] default_config
      (λ c. loop-Rounds 5 (step test_errors next c)) refl incoming

-- A prompt is refused; the refusal is counted, and its duration not yet observed.
abbrev refusing : Exchange
refusing = record {
  route = record { method = post; path = "/predict/model"; handler = model_predict };
  done = count_request "/predict/model" "400" ∷ [];
  rest =
      respond 400 (error_body "INVALID_ARGUMENT" "prompt is required" anonymous)
      ∷ observe_http "/predict/model"
      ∷ [];
}

abbrev ServedHere : Route → List Event → Type 0
ServedHere =
    Serves test_errors (test_conn none []) next (loop 5) as_written connectivity provider []
      default_config

refusing-Interleaves :
    Interleaves ServedHere (refusing ∷ []) (count_request "/predict/model" "400" ∷ [])
unfolding setup serve predict_model write_validation_error admitted
refusing-Interleaves =
    act
      (arrive refusing.route (refusing.done ++ refusing.rest)
        (further (further (further (further first))), (refused, refl)) idle)
      (now _ _ _ _ refl)

scrape_bounds_example :
    (duration_count "/predict/model" (count_request "/predict/model" "400" ∷ [])
      ≤ requests_total "/predict/model" (count_request "/predict/model" "400" ∷ []))
    × (requests_total "/predict/model" (count_request "/predict/model" "400" ∷ [])
        ≤ arrivals "/predict/model" (refusing ∷ []))
    × (duration_count "/predict/model" (count_request "/predict/model" "400" ∷ [])
          + outstanding "/predict/model" (refusing ∷ [])
        ≡ arrivals "/predict/model" (refusing ∷ []))
scrape_bounds_example =
    scrape_bounds test_errors (test_conn none []) next (loop 5) as_written connectivity provider []
      default_config (λ c. loop-Rounds 5 (step test_errors next c))
      (record { timed = refl; counted_paths = refl }) "/predict/model" refusing-Interleaves

abbrev settings : Env
settings key =
    if str_eq key "MAX_PROMPT_LEN"
    then "5"
    else if str_eq key "MODEL_TIMEOUT"
    then "7s"
    else if str_eq key "IRIS_TIMEOUT"
    then "2s"
    else ""

predict_model_settings_example :
    calls (
      predict_model test_errors
        (test_conn none [])
        (load settings exact_fraction).0
        anonymous
        (ok "Hello"))
    ≡ (model_predict_name, second 7, model (prompt_request "Hello")) ∷ []
unfolding itoa itoa_ℕ
predict_model_settings_example =
    predict_model_settings settings exact_fraction test_errors (test_conn none []) anonymous 5 7
      "Hello" (omega arith) (omega arith) refl refl

abbrev flower_call : Call
flower_call = record {
  context = anonymous;
  iris_body = ok flower_body;
  prompt_body = ok "Hi";
  picked = 0;
}

abbrev new_service : Service ℕ
new_service = record { pool = []; channel = some 2 }

abbrev served : Handler → Service ℕ → List Event
served handler s =
    serve test_errors (test_conn none []) next (loop 5) as_written connectivity provider []
      default_config handler (session_incoming s flower_call)

abbrev after_flower : Service ℕ → Service ℕ
after_flower s =
    after test_errors (test_conn none []) next (loop 5) as_written connectivity provider []
      default_config iris_predict s flower_call

-- Two predictions with a probe between them; the second gets the message that the first has put back.
abbrev visited : List (Input ℕ)
visited =
    arrives (route post "/predict/iris" iris_predict) flower_call
    ∷ arrives (route get "/readyz" health_readyz) flower_call
    ∷ arrives (route post "/predict/iris" iris_predict) flower_call
    ∷ []

abbrev visit_log : List Event
visit_log =
    served iris_predict new_service
    ++ served health_readyz (after_flower new_service)
    ++ served iris_predict (after_flower new_service)
    ++ []

visits :
    Session test_errors
      (test_conn none [])
      next
      (loop 5)
      as_written
      connectivity
      provider
      []
      default_config
      new_service
      visited
      visit_log
      (after_flower (after_flower new_service))
unfolding after readyz setup serve predict_iris first_invalid validate_iris_feature
    call_iris_predict
visits =
    request new_service flower_call (route post "/predict/iris" iris_predict)
      (further (further (further first)))
      (request (after_flower new_service) flower_call (route get "/readyz" health_readyz)
        (further (further first))
        (request (after_flower new_service) flower_call (route post "/predict/iris" iris_predict)
          (further (further (further first))) closed))

session_unpooled_example :
    visit_log
    ≡ unpooled_log test_errors
        (test_conn none [])
        next
        (loop 5)
        as_written
        connectivity
        provider
        []
        default_config
        (some 2)
        visited
session_unpooled_example =
    session_unpooled test_errors (test_conn none []) next (loop 5) as_written connectivity provider
      [] default_config visits
