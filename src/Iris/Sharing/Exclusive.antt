-- ===== src/Iris/Sharing/Exclusive.antt =====
-- Nobody shares a message, so everybody sends their own features.
use mathlib.Core.Path.{subst}
use ai_gateway_monitor.Common.{
  sym, ◌∙◌, ap, ℕ, zero, suc, ◌+◌, ◌≤◌, ◌≡◌, refl, List, [], ◌∷◌, ◌==◌, if◌then◌else◌, All, arith,
}
use ai_gateway_monitor.Proto.{IrisPredictRequest, empty_iris_request, reset}
use ai_gateway_monitor.Iris.{Features}
use ai_gateway_monitor.Iris.Reuse.{fresh_request}
use ai_gateway_monitor.Iris.Sharing.{
  Heap, write, Phase, assigned, called, assign_field, Flight, Shared, Removes, here, there, Step,
  get_pooled, get_new, assign, rpc, put, drop, fresh_handler, Reaches, done, step,
}

pub count : ℕ → List ℕ → ℕ
count a [] = 0
count a (b ∷ xs) = (if b == a then 1 else 0) + count a xs

abbrev pub addresses : List Flight → List ℕ
addresses [] = []
addresses (fl ∷ fls) = fl.address ∷ addresses fls

-- The references to an address that are held by the pool and the requests.
abbrev pub references : Shared → ℕ → ℕ
references s a = count a s.pool + count a (addresses s.flights)

count-Removes :
    {x : ℕ} {xs rest : List ℕ}
    → Removes x xs rest
    → (a : ℕ) → count a xs ≡ (if x == a then 1 else 0) + count a rest
unfolding count
count-Removes here a = refl
count-Removes {x} (there {y = y} h) a = omega (arith, count-Removes h a)

addresses-Removes :
    {fl : Flight} {fls others : List Flight}
    → Removes fl fls others
    → Removes fl.address (addresses fls) (addresses others)
addresses-Removes here = here
addresses-Removes (there h) = there (addresses-Removes h)

All-Removes :
    {A : Type 0} (P : A → Type 0) {x : A} {xs rest : List A}
    → Removes x xs rest
    → All P xs
    → P x × All P rest
All-Removes P here h = h
All-Removes P (there r) (p, h) = let (q, k) = All-Removes P r h in (q, (p, k))

-- A new message after the first k assignments.
abbrev partly_filled : ℕ → Features → IrisPredictRequest
partly_filled zero f = empty_iris_request
partly_filled (suc k) f = assign_field k f (partly_filled k f)

-- What a request may rely on, by its phase.
abbrev Holds : Phase → Features → IrisPredictRequest → Type 0
Holds (assigned k) f req = req ≡ partly_filled k f
Holds called f req = Unit

abbrev IsServed : Heap → Flight → Type 0
IsServed h fl = Holds fl.phase fl.features (h fl.address)

write_here : (h : Heap) (a : ℕ) (x : IrisPredictRequest) → write a x h a ≡ x
unfolding write
write_here h a x = ground arith

-- A write leaves what others refer to.
write_there :
    (h : Heap) (a b : ℕ) (x : IrisPredictRequest) (xs : List ℕ)
    → count a (b ∷ xs) ≡ 0
    → write a x h b ≡ h b
unfolding write count
write_there h a b x xs n = ground arith

absent_tail : (a b : ℕ) (xs : List ℕ) → count a (b ∷ xs) ≡ 0 → count a xs ≡ 0
unfolding count
absent_tail a b xs n = omega arith

pool_kept :
    (h : Heap) (a : ℕ) (x : IrisPredictRequest) (xs : List ℕ)
    → count a xs ≡ 0
    → All (λ b. h b ≡ empty_iris_request) xs
    → All (λ b. write a x h b ≡ empty_iris_request) xs
pool_kept h a x [] n p = tt
pool_kept h a x (b ∷ xs) n (p, ps) =
    (write_there h a b x xs n ∙ p, pool_kept h a x xs (absent_tail a b xs n) ps)

flights_kept :
    (h : Heap) (a : ℕ) (x : IrisPredictRequest) (fls : List Flight)
    → count a (addresses fls) ≡ 0
    → All (IsServed h) fls
    → All (IsServed (write a x h)) fls
flights_kept h a x [] n p = tt
flights_kept h a x (fl ∷ fls) n (p, ps) = (
  subst (Holds fl.phase fl.features) (sym (write_there h a fl.address x (addresses fls) n)) p,
  flights_kept h a x fls (absent_tail a fl.address (addresses fls) n) ps,
)

pub record IsSound (s : Shared) : Type 0 where
  pub once : (a : ℕ) → references s a ≤ 1
  pub unborn : (a : ℕ) → s.next ≤ a → references s a ≡ 0
  pub clean : All (λ b. s.heap b ≡ empty_iris_request) s.pool
  pub served : All (IsServed s.heap) s.flights
  pub own : All (λ c. c.1 ≡ fresh_request c.0) s.sent

-- The message of a request is not pooled, and no other request has it.
alone :
    {s : Shared} {others : List Flight} (fl : Flight)
    → IsSound s
    → Removes fl s.flights others
    → (count fl.address s.pool ≡ 0) × (count fl.address (addresses others) ≡ 0)
alone {s} {others} fl i r =
    ground (arith, i.once fl.address, count-Removes (addresses-Removes r) fl.address)

Step-IsSound : {s t : Shared} → Step s t → IsSound s → IsSound t
unfolding count reset
Step-IsSound (get_pooled s f a rest r) i =
    let (empty_, others_) = All-Removes _ r i.clean in
    record {
      once = λ b. omega (arith, i.once b, count-Removes r b);
      unborn = λ b h. omega (arith, i.unborn b h, count-Removes r b);
      clean = others_;
      served = (empty_, i.served);
      own = i.own;
    }
Step-IsSound (get_new s f) i = record {
  once = λ b. ground (arith, i.once b, i.unborn b);
  unborn = λ b h. ground (arith, i.unborn b);
  clean =
      pool_kept s.heap s.next empty_iris_request s.pool
        (omega (arith, i.unborn s.next (omega arith))) i.clean;
  served = (
    write_here s.heap s.next empty_iris_request,
    flights_kept s.heap s.next empty_iris_request s.flights
        (omega (arith, i.unborn s.next (omega arith))) i.served,
  );
  own = i.own;
}
Step-IsSound (assign s a f k others below r) i =
    let (unpooled, unshared) =
      alone (record { address = a; features = f; phase = assigned k }) i r in
    let (mine, theirs) = All-Removes _ r i.served in
    let x = assign_field k f (s.heap a) in
    record {
      once = λ b. omega (arith, i.once b, count-Removes (addresses-Removes r) b);
      unborn = λ b h. omega (arith, i.unborn b h, count-Removes (addresses-Removes r) b);
      clean = pool_kept s.heap a x s.pool unpooled i.clean;
      served = (
        write_here s.heap a x ∙ ap (assign_field k f) mine,
        flights_kept s.heap a x others unshared theirs,
      );
      own = i.own;
    }
Step-IsSound (rpc s a f others left r) i =
    let (unpooled, unshared) =
      alone (record { address = a; features = f; phase = assigned 4 }) i r in
    let (mine, theirs) = All-Removes _ r i.served in
    record {
      once = λ b. omega (arith, i.once b, count-Removes (addresses-Removes r) b);
      unborn = λ b h. omega (arith, i.unborn b h, count-Removes (addresses-Removes r) b);
      clean = pool_kept s.heap a left s.pool unpooled i.clean;
      served = (tt, flights_kept s.heap a left others unshared theirs);
      own = (mine, i.own);
    }
Step-IsSound (put s a f others r) i =
    let (unpooled, unshared) = alone (record { address = a; features = f; phase = called }) i r in
    let (_, theirs) = All-Removes _ r i.served in
    let x = reset (s.heap a) in
    record {
      once = λ b. omega (arith, i.once b, count-Removes (addresses-Removes r) b);
      unborn = λ b h. omega (arith, i.unborn b h, count-Removes (addresses-Removes r) b);
      clean = (write_here s.heap a x, pool_kept s.heap a x s.pool unpooled i.clean);
      served = flights_kept s.heap a x others unshared theirs;
      own = i.own;
    }
Step-IsSound (drop s a rest r) i = record {
  once = λ b. omega (arith, i.once b, count-Removes r b);
  unborn = λ b h. omega (arith, i.unborn b h, count-Removes r b);
  clean = (All-Removes _ r i.clean).1;
  served = i.served;
  own = i.own;
}

pub fresh-IsSound : (h : Heap) → IsSound (fresh_handler h)
unfolding count
fresh-IsSound h = record {
  once = λ a. omega arith;
  unborn = λ a _. refl;
  clean = tt;
  served = tt;
  own = tt;
}

pub Reaches-IsSound : {s t : Shared} → Reaches s t → IsSound s → IsSound t
Reaches-IsSound done i = i
Reaches-IsSound (step run last) i = Step-IsSound last (Reaches-IsSound run i)

-- However the requests of a new handler interleave, and whatever the RPCs leave in their messages:
-- each RPC gets a message with the features of its own request and nothing else.
pub sends_own_features :
    (h : Heap) {s : Shared}
    → Reaches (fresh_handler h) s
    → All (λ c. c.1 ≡ fresh_request c.0) s.sent
sends_own_features h run = (Reaches-IsSound run (fresh-IsSound h)).own

-- However the requests of a new handler interleave, no message is referred to twice: by two
-- requests, by a request and the pool, or by the pool twice.
pub shares_nothing :
    (h : Heap) {s : Shared} → Reaches (fresh_handler h) s → (a : ℕ) → references s a ≤ 1
shares_nothing h run = (Reaches-IsSound run (fresh-IsSound h)).once
