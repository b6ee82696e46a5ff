-- ===== src/Iris/Sharing/Sequential.antt =====
-- A request that runs alone: the sequential handler does what a run of the steps does.
use mathlib.Core.Path.{subst}
use ai_gateway_monitor.Common.{
  ℕ, zero, suc, ◌≡◌, ◌⊎◌, inl, inr, ◌∙◌, ap, sym, refl, String, List, [], ◌∷◌, map, length, All,
  arith,
}
use ai_gateway_monitor.Config.{Config}
use ai_gateway_monitor.Proto.{Float32, IrisPredictRequest, empty_iris_request}
use ai_gateway_monitor.Proto.Clients.{Result, ok, iris_predict, ClientConn, iris_predict_name}
use ai_gateway_monitor.Http.{Context, iris}
use ai_gateway_monitor.Http.Counting.{calls}
use ai_gateway_monitor.ApiError.{GrpcErrors}
use ai_gateway_monitor.Iris.{IrisBody, Features, RequestPool, pool_get, pool_put, forward, predict}
use ai_gateway_monitor.Iris.Decision.{decision, predict-act}
use ai_gateway_monitor.Iris.Reuse.{
  IsClean, fresh_request, predict_iris-IsClean, predict_iris-calls, expected_calls,
}
use ai_gateway_monitor.Iris.Sharing.{
  Heap, write, assigned, Flight, Shared, Removes, here, there, Step, get_pooled, get_new, assign,
  rpc, put, fresh_handler, Reaches, done, step,
}
use ai_gateway_monitor.Iris.Sharing.Exclusive.{Reaches-IsSound, fresh-IsSound}

same_if_clean : (xs ys : RequestPool) → IsClean xs → IsClean ys → length xs ≡ length ys → xs ≡ ys
same_if_clean [] [] p q n = refl
same_if_clean [] (y ∷ ys) p q n = absurd (omega (arith, n))
same_if_clean (x ∷ xs) [] p q n = absurd (omega (arith, n))
same_if_clean (x ∷ xs) (y ∷ ys) (p, ps) (q, qs) n =
    let same = same_if_clean xs ys ps qs (omega (arith, n)) in cc

map-IsClean :
    (h : Heap) (pool : List ℕ) → All (λ a. h a ≡ empty_iris_request) pool → IsClean (map h pool)
map-IsClean h [] p = tt
map-IsClean h (a ∷ pool) (p, ps) = (p, map-IsClean h pool ps)

length-map : (h : Heap) (pool : List ℕ) → length (map h pool) ≡ length pool
length-map h [] = refl
length-map h (a ∷ pool) = omega (arith, length-map h pool)

-- The i-th item of the messages in a pool, among the addresses of the pool.
picked :
    (h : Heap) (i : ℕ) (pool : List ℕ)
    → ((a : ℕ) × (rest : List ℕ) × Removes a pool rest
        × (length (pool_get i (map h pool)).1 ≡ length rest))
      ⊎ (length (pool_get i (map h pool)).1 ≡ length pool)
unfolding pool_get
picked h i [] = inr refl
picked h zero (a ∷ pool) = inl (a, pool, here, length-map h pool)
picked h (suc i) (a ∷ pool) = elim (picked h i pool) [
  | inl (b, rest, r, n) ↦ inl (b, a ∷ rest, there r, omega (arith, n))
  | inr n ↦ inr (omega (arith, n))
]

-- What a run from s does that serves one request besides others: these are where they were, the
-- pool has so many items, and one message was sent.
abbrev Serves : Shared → List Flight → ℕ → List (Features × IrisPredictRequest) → Features → Type 0
Serves s others items sent f =
    (t : Shared) × Reaches s t
    × (t.flights ≡ others)
    × (length t.pool ≡ items)
    × ((req : IrisPredictRequest) × (t.sent ≡ (f, req) ∷ sent))

-- The rest of a request, once it has a message: the assignments, the RPC, and the return.
rest_of_run :
    (s : Shared) (others : List Flight) (a : ℕ) (f : Features) (left : IrisPredictRequest)
    → Serves
        (record s { flights = record { address = a; features = f; phase = assigned 0 } ∷ others })
        others
        (suc (length s.pool))
        s.sent
        f
rest_of_run s others a f left = (
  _,
  step
      (step
        (step
          (step
            (step (step done (assign _ a f 0 others (omega arith) here))
              (assign _ a f 1 others (omega arith) here))
            (assign _ a f 2 others (omega arith) here))
          (assign _ a f 3 others (omega arith) here))
        (rpc _ a f others left here))
      (put _ a f others here),
  refl,
  refl,
  (_, refl),
)

step_first : {s t u : Shared} → Step s t → Reaches t u → Reaches s u
step_first first done = step done first
step_first first (step run last) = step (step_first first run) last

one_run :
    (s : Shared) (f : Features) (i : ℕ) (left : IrisPredictRequest)
    → Serves s s.flights (suc (length (pool_get i (map s.heap s.pool)).1)) s.sent f
one_run s f i left = elim (picked s.heap i s.pool) [
  | inl (a, rest, r, n) ↦
      let (t, run, kept, items, sent) = rest_of_run (record s { pool = rest }) s.flights a f left in
      (t, step_first (get_pooled s f a rest r) run, kept, omega (arith, n, items), sent)
  | inr n ↦
      let s' = record s { heap = write s.next empty_iris_request s.heap; next = suc s.next } in
      let (t, run, kept, items, sent) = rest_of_run s' s.flights s.next f left in
      (t, step_first (get_new s f) run, kept, omega (arith, n, items), sent)
]

module _ (g : GrpcErrors) {S : Type 0} (cc : ClientConn g.Err S) (cfg : Config)
    (order : List (String × Float32) → List (String × Float32)) (c : Context) where
  predict-length :
      (bound : Result String IrisBody) (f : Features) (i : ℕ) (pool : RequestPool)
      → decision order bound ≡ ok f
      → length (predict g cc cfg order c bound i pool).1 ≡ suc (length (pool_get i pool).1)
  unfolding forward pool_put
  predict-length bound f i pool accepted =
      rw (predict-act g cc cfg order c bound i pool, accepted) refl

  -- On what a new handler has come to, whatever requests it has in flight, an accepted request can
  -- be served in steps that leave the others where they were, and these steps do what the
  -- sequential handler does on the same pool: they send the one message that it sends, and leave
  -- the pool that it leaves.
  pub predict_is_a_run :
      (h : Heap) {s : Shared}
      → Reaches (fresh_handler h) s
      → (bound : Result String IrisBody) (f : Features) (i : ℕ) → decision order bound ≡ ok f
      → let out = predict g cc cfg order c bound i (map s.heap s.pool) in
        (t : Shared) × Reaches s t
        × (t.flights ≡ s.flights)
        × (map t.heap t.pool ≡ out.1)
        × ((req : IrisPredictRequest) × (t.sent ≡ (f, req) ∷ s.sent)
            × (calls out.0 ≡ (iris_predict_name, cfg.iris_timeout, iris req) ∷ []))
  predict_is_a_run h {s} before bound f i accepted =
      let left = (iris_predict cc cfg.iris_timeout (fresh_request f)).1 in
      let (t, run, kept, items, (req, sent)) = one_run s f i left in
      let sound = Reaches-IsSound before (fresh-IsSound h) in
      let sound' = Reaches-IsSound run sound in
      let pool = map s.heap s.pool in
      let clean = map-IsClean s.heap s.pool sound.clean in
      let own = (subst (All (λ u. u.1 ≡ fresh_request u.0)) sent sound'.own).0 in
      (
        t,
        run,
        kept,
        same_if_clean (map t.heap t.pool) (predict g cc cfg order c bound i pool).1
            (map-IsClean t.heap t.pool sound'.clean)
            (predict_iris-IsClean g cc cfg order c bound i pool clean)
            (length-map t.heap t.pool ∙ items ∙ sym (predict-length bound f i pool accepted)),
        (
          req,
          sent,
          predict_iris-calls g cc cfg order c bound i pool clean
              ∙ ap (expected_calls cfg) accepted
              ∙ ap (λ x. (iris_predict_name, cfg.iris_timeout, iris x) ∷ []) (sym own),
        ),
      )
