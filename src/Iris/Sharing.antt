-- ===== src/Iris/Sharing.antt =====
-- Requests to /predict/iris that run at the same time: the messages live in a heap, and the pool
-- holds their addresses. A step is one action of one request, with the deferred Reset and Put as one, so a
-- run is an interleaving; drops of the pool are steps as well.
pub mod Exclusive
pub mod Sequential
mod Examples
use ai_gateway_monitor.Common.{
  ℕ, zero, suc, ◌+◌, ◌<◌, ◌≡◌, String, List, [], ◌∷◌, map, ◌==◌, if◌then◌else◌,
}
use ai_gateway_monitor.Proto.{IrisPredictRequest, empty_iris_request, reset}
use ai_gateway_monitor.Iris.{Features}

abbrev pub Heap : Type 0
Heap = ℕ → IrisPredictRequest

-- A write through a pointer.
unfoldable pub write : ℕ → IrisPredictRequest → Heap → Heap
write a x h b = if b == a then x else h b

-- How far a request has come after its validation.
pub data Phase : Type 0 where
  -- it has borrowed a message and made so many of the four assignments
  assigned : ℕ → Phase
  called : Phase

-- The assignments, in the source's order.
abbrev pub assign_field : ℕ → Features → IrisPredictRequest → IrisPredictRequest
assign_field zero f req = record req { sepal_length = f.sepal_length }
assign_field (suc zero) f req = record req { sepal_width = f.sepal_width }
assign_field (suc (suc zero)) f req = record req { petal_length = f.petal_length }
assign_field (suc (suc (suc _))) f req = record req { petal_width = f.petal_width }

pub record Flight : Type 0 where
  pub address : ℕ
  pub features : Features
  pub phase : Phase

-- `sent` is what the backend was given, with the features of the request that gave it.
pub record Shared : Type 0 where
  pub heap : Heap
  pub pool : List ℕ
  pub next : ℕ
  pub flights : List Flight
  pub sent : List (Features × IrisPredictRequest)

-- `Removes x xs rest`: one x, taken out of xs, leaves rest.
pub data Removes {A : Type 0} : A → List A → List A → Type 0 where
  here : {x : A} {xs : List A} → Removes x (x ∷ xs) xs
  there : {x y : A} {xs rest : List A} → Removes x xs rest → Removes x (y ∷ xs) (y ∷ rest)

pub data Step : Shared → Shared → Type 0 where
  -- `reqPool.Get()` finds an item
  get_pooled :
      (s : Shared) (f : Features) (a : ℕ) (rest : List ℕ)
      → Removes a s.pool rest
      → Step s (record s {
        pool = rest;
        flights = record { address = a; features = f; phase = assigned 0 } ∷ s.flights;
      })
  -- `reqPool.Get()` calls `New`
  get_new :
      (s : Shared) (f : Features)
      → Step s (record s {
        heap = write s.next empty_iris_request s.heap;
        next = suc s.next;
        flights = record { address = s.next; features = f; phase = assigned 0 } ∷ s.flights;
      })
  -- one of the assignments to the borrowed message
  assign :
      (s : Shared) (a : ℕ) (f : Features) (k : ℕ) (others : List Flight)
      → k < 4
      → Removes (record { address = a; features = f; phase = assigned k }) s.flights others
      → Step s (record s {
        heap = write a (assign_field k f (s.heap a)) s.heap;
        flights = record { address = a; features = f; phase = assigned (suc k) } ∷ others;
      })
  -- the RPC, which may leave anything in the message
  rpc :
      (s : Shared) (a : ℕ) (f : Features) (others : List Flight) (left : IrisPredictRequest)
      → Removes (record { address = a; features = f; phase = assigned 4 }) s.flights others
      → Step s (record s {
        heap = write a left s.heap;
        flights = record { address = a; features = f; phase = called } ∷ others;
        sent = (f, s.heap a) ∷ s.sent;
      })
  -- the deferred `Reset` and `Put`
  put :
      (s : Shared) (a : ℕ) (f : Features) (others : List Flight)
      → Removes (record { address = a; features = f; phase = called }) s.flights others
      → Step s (record s {
        heap = write a (reset (s.heap a)) s.heap;
        pool = a ∷ s.pool;
        flights = others;
      })
  -- sync.Pool may drop an item at any time
  drop :
      (s : Shared) (a : ℕ) (rest : List ℕ)
      → Removes a s.pool rest
      → Step s (record s { pool = rest })

-- A new handler: nothing pooled, nobody served.
abbrev pub fresh_handler : Heap → Shared
fresh_handler h = record { heap = h; pool = []; next = 0; flights = []; sent = [] }

pub data Reaches : Shared → Shared → Type 0 where
  done : {s : Shared} → Reaches s s
  step : {s t u : Shared} → Reaches s t → Step t u → Reaches s u
