-- ===== src/Backend/OllamaPredictor/Yields.antt =====
-- The chunks of a stream that the backend passes on, and how it stops.
use mathlib.Core.Path.{subst}
use ai_gateway_monitor.Common.{
  ℕ, suc, ◌+◌, ◌≤◌, ◌≡◌, ◌≢◌, inl, inr, ap, refl, Bool, true, false, String, Option, none, some,
  List, [], ◌∷◌, ◌++◌, map, length, All, ℤ, arith, Bool-cases,
}
use ai_gateway_monitor.Proto.{ModelPredictResponse}
use ai_gateway_monitor.Proto.Clients.{err}
use ai_gateway_monitor.Backend.{ServicerContext, Exceptions}
use ai_gateway_monitor.Backend.OllamaPredictor.{
  GenerateResponse, Chunks, exhausted, raised, chunk, set_ollama_error, message, pass_on,
}
use ai_gateway_monitor.Backend.OllamaPredictor.Messages.{
  Fits, as_message, message-Fits, message-cases,
}

-- A stream that gives these replies, and is then exhausted, or raises.
abbrev pub stream_of : {E : Type 0} → List GenerateResponse → Option E → Chunks E
stream_of [] none = exhausted
stream_of [] (some e) = raised e
stream_of (r ∷ replies) last = chunk r (stream_of replies last)

pub stream_of_all :
    {E : Type 0} (stream : Chunks E)
    → (replies : List GenerateResponse) × (last : Option E) × (stream ≡ stream_of replies last)
stream_of_all exhausted = ([], none, refl)
stream_of_all (raised e) = ([], some e, refl)
stream_of_all (chunk r rest) =
    let (replies, last, same) = stream_of_all rest in (r ∷ replies, last, ap (chunk r) same)

module _ (x : Exceptions) (model_name : String) (is_active : ℕ → Bool) where
  -- How the loop stops at its n-th chunk, with the replies that are left: the stream is exhausted,
  -- it raises, the client is no longer active, or protobuf refuses a number of the reply.
  pub data Stops (n : ℕ) (context : ServicerContext)
      : List GenerateResponse → Option x.Exception → ServicerContext → Type 0 where
    at_end : Stops n context [] none context
    at_error : (e : x.Exception) → Stops n context [] (some e) (set_ollama_error x e context)
    cancelled :
        (r : GenerateResponse) (rest : List GenerateResponse) (last : Option x.Exception)
        → is_active n ≡ false
        → Stops n context (r ∷ rest) last context
    refused :
        (r : GenerateResponse) (rest : List GenerateResponse) (last : Option x.Exception) (k : ℤ)
        → message x model_name r ≡ err (x.out_of_range k)
        → Stops n context (r ∷ rest) last (set_ollama_error x (x.out_of_range k) context)

  add_zero : (n : ℕ) → n + 0 ≡ n
  add_zero n = omega arith

  -- What the loop yields are the first replies, and it stops at the next.
  abbrev pub Passed :
      ℕ
      → List GenerateResponse
      → Option x.Exception
      → ServicerContext
      → List ModelPredictResponse × ServicerContext
      → Type 0
  Passed n replies last context (yielded, context') =
      (first rest : List GenerateResponse) × (replies ≡ first ++ rest)
      × All Fits first
      × (yielded ≡ map (as_message model_name) first)
      × Stops (n + length first) context rest last context'

  Passed-cons :
      (n : ℕ) (r : GenerateResponse) (replies : List GenerateResponse) (last : Option x.Exception)
      (context : ServicerContext) (p : List ModelPredictResponse × ServicerContext)
      → Fits r
      → Passed (suc n) replies last context p
      → Passed n (r ∷ replies) last context (as_message model_name r ∷ p.0, p.1)
  Passed-cons n r replies last context p fit (first, rest, split, fits_all, same, stops) = (
    r ∷ first,
    rest,
    ap (λ u. r ∷ u) split,
    (fit, fits_all),
    ap (λ u. as_message model_name r ∷ u) same,
    subst (λ m. Stops m context rest last p.1) (omega arith) stops,
  )

  -- Whatever the client does, and whatever Ollama reports: what the loop yields are the first
  -- replies of the stream, in order and field by field, and each of them fits its message. It stops
  -- where the stream is exhausted or the client is not active any more, without an error, or where
  -- the stream raises or a reply does not fit, with the status of that exception.
  pub pass_on-Passed :
      (n : ℕ) (replies : List GenerateResponse) (last : Option x.Exception)
      (context : ServicerContext)
      → Passed n replies last context
          (pass_on x model_name is_active n (stream_of replies last) context)
  unfolding pass_on
  pass_on-Passed n [] none context = ([], [], refl, tt, refl, at_end)
  pass_on-Passed n [] (some e) context = ([], [], refl, tt, refl, at_error e)
  pass_on-Passed n (r ∷ replies) last context = elim (Bool-cases (is_active n)) [
    | inr gone ↦
        rw (gone, pass_on)
          ([], r ∷ replies, refl, tt, refl, cancelled r replies last (rw (add_zero n) gone))
    | inl here ↦ elim (message-cases x model_name r) [
      | inr (k, large) ↦
          rw (here, large, pass_on)
            ([], r ∷ replies, refl, tt, refl, refused r replies last k large)
      | inl fit ↦
          rw (here, message-Fits x model_name r fit, pass_on)
            (Passed-cons n r replies last context
              (pass_on x model_name is_active (suc n) (stream_of replies last) context) fit
              (pass_on-Passed (suc n) replies last context))
    ]
  ]

  -- While the client stays, all replies are passed on if they fit.
  pub Stops_active :
      ((n : ℕ) → is_active n ≡ true)
      → (n : ℕ) (context : ServicerContext) {rest : List GenerateResponse}
        {last : Option x.Exception} {context' : ServicerContext}
      → All Fits rest
      → Stops n context rest last context'
      → rest ≡ []
  Stops_active stays n context h at_end = refl
  Stops_active stays n context h (at_error e) = refl
  Stops_active stays n context h (cancelled r rest last gone) = absurd (let here = stays n in cc)
  Stops_active stays n context h (refused r rest last k large) =
      absurd (let fit = message-Fits x model_name r h.0 in cc)

  active_apart : (m n : ℕ) → is_active m ≡ true → is_active n ≡ false → m ≢ n
  active_apart m n here gone same = cc

  -- If the n-th check finds the client gone, at most n messages are yielded.
  pub pass_on_before :
      (n : ℕ)
      → is_active n ≡ false
      → (m : ℕ) (stream : Chunks x.Exception) (context : ServicerContext) → m ≤ n
      → m + length (pass_on x model_name is_active m stream context).0 ≤ n
  unfolding pass_on
  pass_on_before n gone m exhausted context le = omega arith
  pass_on_before n gone m (raised e) context le = omega arith
  pass_on_before n gone m (chunk r rest) context le = elim (Bool-cases (is_active m)) [
    | inr left ↦ rw (left, pass_on) (omega arith)
    | inl here ↦
        let after =
          pass_on_before n gone (suc m) rest context (omega (arith, active_apart m n here gone)) in
        elim (message-cases x model_name r) [
          | inr (k, large) ↦ rw (here, large, pass_on) (omega arith)
          | inl fit ↦ rw (here, message-Fits x model_name r fit, pass_on) (omega (arith, after))
        ]
  ]
