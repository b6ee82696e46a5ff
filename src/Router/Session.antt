-- ===== src/Router/Session.antt =====
-- A gateway that serves requests one after another, with the state that its handlers keep: the pool
-- of the Iris handler and the channel of the probes.
use ai_gateway_monitor.Common.{ℕ, ◌≡◌, refl, Bool, String, Option, List, [], ◌∷◌, ◌++◌}
use ai_gateway_monitor.Config.{Config}
use ai_gateway_monitor.Proto.{Float32, IrisPredictRequest}
use ai_gateway_monitor.Proto.Clients.{Result, ClientConn}
use ai_gateway_monitor.Http.{Event, Context}
use ai_gateway_monitor.ApiError.{GrpcErrors}
use ai_gateway_monitor.Health.{Connectivity, ConnStateProvider, readyz}
use ai_gateway_monitor.Iris.{IrisBody, RequestPool}
use ai_gateway_monitor.Iris.{predict as predict_iris}
use ai_gateway_monitor.Iris.Sequence.{predict_unpooled}
use ai_gateway_monitor.Iris.Reuse.{IsClean, IsClean-without, predict_iris-IsClean}
use ai_gateway_monitor.Model.{StepFunction, Received}
use ai_gateway_monitor.Router.{
  Handler, promhttp_handler, health_check, health_readyz, iris_predict, model_predict,
  model_predict_stream, Route, setup, Incoming, serve,
}
use ai_gateway_monitor.Router.Scrapes.{Among}

-- A request: gin's binding of the body for either handler, and the item that the pool hands out.
pub record Call : Type 0 where
  pub context : Context
  pub iris_body : Result String IrisBody
  pub prompt_body : Result String String
  pub picked : ℕ

pub record Service (C : Type 0) : Type 0 where
  pub pool : RequestPool
  pub channel : Option C

abbrev pub incoming : {C : Type 0} → Service C → Call → Incoming C
incoming s r = record {
  context = r.context;
  iris_body = r.iris_body;
  prompt_body = r.prompt_body;
  pool = s.pool;
  picked = r.picked;
  channel = s.channel;
}

-- What comes to a gateway: a request of a route, or a new state of the channel.
pub data Input (C : Type 0) : Type 0 where
  arrives : Route → Call → Input C
  drifts : Option C → Input C

abbrev pub unpooled : {C : Type 0} → Option C → Service C
unpooled channel = record { pool = []; channel = channel }

module _ (g : GrpcErrors) {S : Type 0} (conn : ClientConn g.Err S) (recv : S → Received g.Err × S)
    (gin_stream : StepFunction S → S → List Event × Bool)
    (order : List (String × Float32) → List (String × Float32)) (k : Connectivity) {C : Type 0}
    (provider : ConnStateProvider C) (exposition : List Event) (cfg : Config) where
  -- The state after a request to a handler.
  unfoldable pub after : Handler → Service C → Call → Service C
  after health_readyz s r = record s { channel = (readyz k provider s.channel).1 }
  after iris_predict s r = record s {
    pool = (predict_iris g conn cfg order r.context r.iris_body r.picked s.pool).1;
  }
  after promhttp_handler s r = s
  after health_check s r = s
  after model_predict s r = s
  after model_predict_stream s r = s

  -- The state before some inputs, the inputs, what is done for them, and the state after them. In
  -- between, the garbage collector may take a message out of the pool.
  pub data Session : Service C → List (Input C) → List Event → Service C → Type 0 where
    closed : {s : Service C} → Session s [] [] s
    request :
        (s : Service C) (r : Call) (route : Route) {inputs : List (Input C)} {log : List Event}
        {last : Service C}
        → Among route setup
        → Session (after route.handler s r) inputs log last
        → Session s
            (arrives route r ∷ inputs)
            (serve g conn recv gin_stream order k provider exposition cfg route.handler
                (incoming s r)
              ++ log)
            last
    collect :
        (before : RequestPool) (req : IrisPredictRequest) (rest : RequestPool) (channel : Option C)
        {inputs : List (Input C)} {log : List Event} {last : Service C}
        → Session (record { pool = before ++ rest; channel = channel }) inputs log last
        → Session (record { pool = before ++ req ∷ rest; channel = channel }) inputs log last
    drift :
        (s : Service C) (channel : Option C) {inputs : List (Input C)} {log : List Event}
        {last : Service C}
        → Session (record s { channel = channel }) inputs log last
        → Session s (drifts channel ∷ inputs) log last

  after-IsClean :
      (h : Handler) (s : Service C) (r : Call) → IsClean s.pool → IsClean (after h s r).pool
  unfolding after
  after-IsClean promhttp_handler s r clean = clean
  after-IsClean health_check s r clean = clean
  after-IsClean health_readyz s r clean = clean
  after-IsClean model_predict s r clean = clean
  after-IsClean model_predict_stream s r clean = clean
  after-IsClean iris_predict s r clean =
      predict_iris-IsClean g conn cfg order r.context r.iris_body r.picked s.pool clean

  -- What a request does on a pool of messages that are as good as new, it does without a pool.
  serve-unpooled :
      (h : Handler) (s : Service C) (r : Call)
      → IsClean s.pool
      → serve g conn recv gin_stream order k provider exposition cfg h (incoming s r)
        ≡ serve g conn recv gin_stream order k provider exposition cfg h
            (incoming (unpooled s.channel) (record r { picked = 0 }))
  unfolding serve
  serve-unpooled promhttp_handler s r clean = refl
  serve-unpooled health_check s r clean = refl
  serve-unpooled health_readyz s r clean = refl
  serve-unpooled model_predict s r clean = refl
  serve-unpooled model_predict_stream s r clean = refl
  serve-unpooled iris_predict s r clean =
      predict_unpooled g conn cfg order r.context r.iris_body r.picked s.pool clean

  after-unpooled :
      (h : Handler) (s : Service C) (r : Call)
      → (after h (unpooled s.channel) (record r { picked = 0 })).channel ≡ (after h s r).channel
  unfolding after
  after-unpooled promhttp_handler s r = refl
  after-unpooled health_check s r = refl
  after-unpooled health_readyz s r = refl
  after-unpooled model_predict s r = refl
  after-unpooled model_predict_stream s r = refl
  after-unpooled iris_predict s r = refl

  -- What is done for the same inputs if each request gets a new Iris handler: there is no pool, only
  -- the channel.
  pub unpooled_log : Option C → List (Input C) → List Event
  unpooled_log channel [] = []
  unpooled_log channel (drifts channel' ∷ inputs) = unpooled_log channel' inputs
  unpooled_log channel (arrives route r ∷ inputs) =
      serve g conn recv gin_stream order k provider exposition cfg route.handler
        (incoming (unpooled channel) (record r { picked = 0 }))
      ++ unpooled_log (after route.handler (unpooled channel) (record r { picked = 0 })).channel
          inputs

  Session-unpooled_log :
      {s last : Service C} {inputs : List (Input C)} {log : List Event}
      → IsClean s.pool
      → Session s inputs log last
      → log ≡ unpooled_log s.channel inputs
  unfolding unpooled_log
  Session-unpooled_log clean closed = refl
  Session-unpooled_log clean (request s r route {inputs} {log} among run) =
      rw
        (
          serve-unpooled route.handler s r clean,
          after-unpooled route.handler s r,
          Session-unpooled_log (after-IsClean route.handler s r clean) run,
        )
        refl
  Session-unpooled_log clean (collect before req rest channel run) =
      Session-unpooled_log (IsClean-without before req rest clean) run
  Session-unpooled_log clean (drift s channel run) = Session-unpooled_log clean run

  -- Whatever requests a new gateway serves, one after another, to whichever routes, whichever
  -- messages of its pool the Iris handler gets, whatever the garbage collector takes out of the
  -- pool and however the channel changes in between: the same requests do, event by event, what
  -- they do without a pool. Nothing of one request reaches another but through the channel of the
  -- probes.
  pub session_unpooled :
      {channel : Option C} {last : Service C} {inputs : List (Input C)} {log : List Event}
      → Session (unpooled channel) inputs log last
      → log ≡ unpooled_log channel inputs
  session_unpooled run = Session-unpooled_log tt run
