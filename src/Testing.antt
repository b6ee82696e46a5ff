-- ===== src/Testing.antt =====
-- Concrete collaborators for the examples: a status package with gRPC's numbers for the codes, and
-- a connection whose backend answers and fails as it is told.
use ai_gateway_monitor.Health.{Connectivity, ConnStateProvider}
use ai_gateway_monitor.Router.{Incoming}
use ai_gateway_monitor.Model.Rounds.{Rounds, gone, last, more}
use ai_gateway_monitor.Model.{StepFunction, Received, eof, failed}
use ai_gateway_monitor.Iris.{IrisBody, Features}
use ai_gateway_monitor.Common.{
  ℕ, true, false, String, arith, Option, none, some, List, ℤ, pos, zero, suc, ◌+◌, ◌++◌, Bool-cases,
  inl, inr, refl, Bool, [], ◌∷◌,
}
use ai_gateway_monitor.Proto.{
  IrisPredictResponse, ModelPredictResponse, zero_f32, Float32, empty_iris_request,
}
use ai_gateway_monitor.Proto.Clients.{ClientConn, Result, ok, err}
use ai_gateway_monitor.Http.{Context, Event}
use ai_gateway_monitor.Backend.{Exceptions}
use ai_gateway_monitor.Backend.OllamaPredictor.{Ollama, GenerateResponse}
use ai_gateway_monitor.Backend.OllamaPredictor.Yields.{stream_of}
use ai_gateway_monitor.Iris.Reuse.{fresh_request}
use ai_gateway_monitor.Iris.Sharing.{
  Heap, Shared, here, there, get_new, assign, rpc, fresh_handler, Reaches, done, step,
}
use ai_gateway_monitor.ApiError.{GrpcErrors, HasDistinctCodes}

-- An error is a gRPC code with a message, or a message alone.
pub data TestError : Type 0 where
  status : ℕ → String → TestError
  plain : String → TestError

abbrev pub test_errors : GrpcErrors
test_errors = record {
  Err = TestError;
  text = elim [ status c m ↦ m | plain m ↦ m ];
  Status = ℕ × String;
  from_error = elim [ status c m ↦ ((c, m), true) | plain m ↦ ((2, m), false) ];
  code = λ s. s.0;
  message = λ s. s.1;
  deadline_exceeded = 4;
  unavailable = 14;
  invalid_argument = 3;
}

pub test_errors-HasDistinctCodes : HasDistinctCodes test_errors
test_errors-HasDistinctCodes = record {
  deadline_ne_unavailable = omega arith;
  deadline_ne_invalid = omega arith;
  unavailable_ne_invalid = omega arith;
}

abbrev pub setosa : IrisPredictResponse
setosa = record { class_id = pos 0; class_name = "setosa" }

abbrev pub reply : String → ℕ → ModelPredictResponse
reply text count = record {
  response = text;
  model_name = "qwen2.5:1.5b";
  prompt_eval_count = pos 4;
  eval_count = pos count;
  eval_duration = pos 2_000_000_000;
}

-- What a stream will deliver, item by item.
pub data Delivery : Type 0 where
  chunk : ModelPredictResponse → Delivery
  failure : TestError → Delivery

-- The backend fails with `failing`, if there is one; it leaves its cached size in a request.
abbrev pub test_conn : Option TestError → List Delivery → ClientConn TestError (List Delivery)
test_conn failing script = record {
  invoke_iris = λ _ _ req _. (failing, record req { size_cache = pos 20 }, setosa);
  invoke_model = λ _ _ _ _. (failing, reply "hello" 3);
  new_stream = λ _ _. elim failing [ none ↦ ok script | some e ↦ err e ];
  send_msg = λ s _. (none, s);
  close_send = λ s. (none, s);
}

abbrev pub anonymous : Context
anonymous = record { x_request_id = ""; new_uuid = "6ba7b810" }

-- `Recv` on a script: its items in turn, then io.EOF.
abbrev pub next : List Delivery → Received TestError × List Delivery
next [] = (eof, [])
next (chunk resp ∷ s) = (Received.chunk resp, s)
next (failure e ∷ s) = (failed e, s)

-- A loop with the behaviour that gin documents: the client stays for a number of rounds.
abbrev pub loop : {S : Type 0} → ℕ → StepFunction S → S → List Event × Bool
loop zero f s = ([], true)
loop (suc n) f s =
    let (events, goes, s') = f s in
    let (rest, left) = loop n f s' in
    elim goes [ true ↦ (events ++ rest, left) | false ↦ (events, false) ]

pub loop-Rounds :
    {S : Type 0} (n : ℕ) (f : StepFunction S) (s : S) → Rounds f s (loop n f s).0 (loop n f s).1
loop-Rounds zero f s = gone
loop-Rounds (suc n) f s = elim (Bool-cases (f s).1) [
  | inl goes ↦ rw (goes, loop) (more s (loop n f (f s).2).0 goes (loop-Rounds n f (f s).2) refl)
  | inr stops ↦ rw (stops, loop) (last s stops refl)
]

-- 5.5 is 0x40B00000: exponent 129, fraction 0x300000.
abbrev pub five_and_a_half : Float32
five_and_a_half = record { negative = false; exponent = 129; fraction = 0x300000 }

-- 50 itself, and the next float32 above it.
abbrev pub fifty : ℕ → Float32
fifty above = record { negative = false; exponent = 132; fraction = 4718592 + above }

abbrev pub flower : Features
flower = record {
  sepal_length = five_and_a_half;
  sepal_width = zero_f32;
  petal_length = five_and_a_half;
  petal_width = fifty 0;
}

abbrev pub flower_body : IrisBody
flower_body = record {
  sepal_length = some five_and_a_half;
  sepal_width = some zero_f32;
  petal_length = some five_and_a_half;
  petal_width = some (fifty 0);
}

abbrev pub as_written : List (String × Float32) → List (String × Float32)
as_written es = es

abbrev pub connectivity : Connectivity
connectivity = record { idle = 0; ready = 2; text = λ _. "" }

abbrev pub provider : ConnStateProvider ℕ
provider = record { get_state = λ s. s; connect = λ _. 1 }

abbrev pub incoming : Incoming ℕ
incoming = record {
  context = anonymous;
  iris_body = ok flower_body;
  prompt_body = ok "Hi";
  pool = [];
  picked = 0;
  channel = some 2;
}

abbrev pub refused : Incoming ℕ
refused = record incoming { prompt_body = err "prompt is required" }

-- Python exceptions of four kinds.
pub data TestException : Type 0 where
  read_timeout : TestException
  connect_error : TestException
  response_error : String → TestException
  value_error : ℤ → TestException

abbrev pub test_exceptions : Exceptions
test_exceptions = record {
  Exception = TestException;
  text = elim [ response_error s ↦ s | _ ↦ "" ];
  is_timeout = elim [ read_timeout ↦ true | _ ↦ false ];
  is_transport_error = elim [ read_timeout ↦ true | connect_error ↦ true | _ ↦ false ];
  is_response_error = elim [ response_error _ ↦ true | _ ↦ false ];
  out_of_range = value_error;
}

abbrev pub generated_text : String → ℕ → GenerateResponse
generated_text text count = record {
  response = some text;
  prompt_eval_count = some (pos 4);
  eval_count = some (pos count);
  eval_duration = some (pos 2_000_000_000);
}

-- One reply; and a stream of two replies that then times out.
abbrev pub test_ollama : Ollama TestException
test_ollama = record {
  generate = λ _ _ _. ok (generated_text "hello" 3);
  generate_stream = λ _ _ _.
      ok (stream_of (generated_text "Hel" 0 ∷ generated_text "lo" 5 ∷ []) (some read_timeout));
}

abbrev pub qwen : String
qwen = "qwen2.5:1.5b"

abbrev pub class_names : List String
class_names = "setosa" ∷ "versicolor" ∷ "virginica" ∷ []

abbrev pub first_class : List Float32 → Result TestException ℤ
first_class _ = ok (pos 0)

abbrev pub empty_heap : Heap
empty_heap _ = empty_iris_request

abbrev pub other_flower : Features
other_flower = record flower { sepal_width = five_and_a_half }

-- The first request borrows and fills a message, the second one arrives in between.
abbrev pub overlapping : (s : Shared) × Reaches (fresh_handler empty_heap) s
overlapping = (
  _,
  step
      (step
        (step
          (step
            (step (step (step done (get_new _ flower)) (assign _ 0 flower 0 [] (omega arith) here))
              (get_new _ other_flower))
            (assign _ 0 flower 1 _ (omega arith) (there here)))
          (assign _ 0 flower 2 _ (omega arith) here))
        (assign _ 0 flower 3 _ (omega arith) here))
      (rpc _ 0 flower _ (fresh_request flower) here),
)
