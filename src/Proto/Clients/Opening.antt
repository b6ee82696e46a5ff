-- ===== src/Proto/Clients/Opening.antt =====
-- How the generated client opens a stream: three calls on the connection, each after the last.
use mathlib.Core.Path.{subst}
use ai_gateway_monitor.Common.{◌≡◌, ◌↔◌, inl, inr, refl, ap, ◌∙◌, sym, none, some, ℤ, Option-cases}
use ai_gateway_monitor.Proto.{ModelPredictRequest}
use ai_gateway_monitor.Proto.Clients.{
  Result, ok, err, ClientConn, model_predict_stream, model_predict_stream_name, send_request,
  close_stream,
}

module _ {E S : Type 0} (cc : ClientConn E S) (timeout : ℤ) (in_ : ModelPredictRequest) where
  -- The outcome of the three calls: the first error, or the stream as the last call leaves it.
  data Opens : Result E S → Type 0 where
    not_created : (e : E) → cc.new_stream timeout model_predict_stream_name ≡ err e → Opens (err e)
    not_sent :
        (s s' : S) (e : E)
        → cc.new_stream timeout model_predict_stream_name ≡ ok s
        → cc.send_msg s in_ ≡ (some e, s')
        → Opens (err e)
    not_closed :
        (s s' s'' : S) (e : E)
        → cc.new_stream timeout model_predict_stream_name ≡ ok s
        → cc.send_msg s in_ ≡ (none, s')
        → cc.close_send s' ≡ (some e, s'')
        → Opens (err e)
    opened :
        (s s' s'' : S)
        → cc.new_stream timeout model_predict_stream_name ≡ ok s
        → cc.send_msg s in_ ≡ (none, s')
        → cc.close_send s' ≡ (none, s'')
        → Opens (ok s'')

  created_lem :
      (s : S)
      → cc.new_stream timeout model_predict_stream_name ≡ ok s
      → model_predict_stream cc timeout in_ ≡ send_request cc s in_
  unfolding model_predict_stream
  created_lem s h = rw (h, model_predict_stream) refl

  sent_lem :
      (s s' : S) → cc.send_msg s in_ ≡ (none, s') → send_request cc s in_ ≡ close_stream cc s'
  unfolding send_request
  sent_lem s s' k = rw (k, send_request) (ap (λ o. close_stream cc o.1) k)

  Opens-model_predict_stream : {r : Result E S} → Opens r → model_predict_stream cc timeout in_ ≡ r
  unfolding model_predict_stream send_request close_stream
  Opens-model_predict_stream (not_created e h) = rw (h, model_predict_stream) refl
  Opens-model_predict_stream (not_sent s s' e h k) = created_lem s h ∙ rw (k, send_request) refl
  Opens-model_predict_stream (not_closed s s' s'' e h k l) =
      created_lem s h ∙ sent_lem s s' k ∙ rw (l, close_stream) refl
  Opens-model_predict_stream (opened s s' s'' h k l) =
      created_lem s h ∙ sent_lem s s' k ∙ rw (l, close_stream) (ap (λ o. ok o.1) l)

  closing_cases :
      (s s' : S)
      → cc.new_stream timeout model_predict_stream_name ≡ ok s
      → cc.send_msg s in_ ≡ (none, s')
      → (r : Result E S) × Opens r
  closing_cases s s' h k = elim (Option-cases (cc.close_send s').0) [
    | inl closed ↦
        (_, opened s s' (cc.close_send s').1 h k (ap (λ o. (o, (cc.close_send s').1)) closed))
    | inr (e, fails) ↦
        (_, not_closed s s' (cc.close_send s').1 e h k (ap (λ o. (o, (cc.close_send s').1)) fails))
  ]

  sending_cases :
      (s : S) → cc.new_stream timeout model_predict_stream_name ≡ ok s → (r : Result E S) × Opens r
  sending_cases s h = elim (Option-cases (cc.send_msg s in_).0) [
    | inl sent ↦ closing_cases s (cc.send_msg s in_).1 h (ap (λ o. (o, (cc.send_msg s in_).1)) sent)
    | inr (e, fails) ↦
        (_, not_sent s (cc.send_msg s in_).1 e h (ap (λ o. (o, (cc.send_msg s in_).1)) fails))
  ]

  creating_cases :
      (r : Result E S)
      → cc.new_stream timeout model_predict_stream_name ≡ r
      → (r' : Result E S) × Opens r'
  creating_cases (err e) h = (_, not_created e h)
  creating_cases (ok s) h = sending_cases s h

  -- `ModelPredictStream` creates a stream with the deadline, sends the request on it and closes the
  -- sending side, in this order: it returns the first error, or the stream as the last call leaves
  -- it.
  model_predict_stream_iff_Opens :
      (r : Result E S) → Opens r ↔ (model_predict_stream cc timeout in_ ≡ r)
  model_predict_stream_iff_Opens r = (
    Opens-model_predict_stream,
    λ same.
        let (r', run) = creating_cases (cc.new_stream timeout model_predict_stream_name) refl in
        subst Opens (sym (Opens-model_predict_stream run) ∙ same) run,
  )
