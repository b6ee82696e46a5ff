-- ===== src/Proto/Clients.antt =====
-- The generated gRPC clients over an abstract connection (`grpc.ClientConnInterface`).
pub mod Opening
use ai_gateway_monitor.Common.{String, Option, none, some, ℤ}
use ai_gateway_monitor.Proto.{
  IrisPredictRequest, IrisPredictResponse, ModelPredictRequest, ModelPredictResponse,
  empty_iris_response, empty_model_response,
}

abbrev pub iris_predict_name : String
iris_predict_name = "/iris.v1.IrisPredictor/IrisPredict"

abbrev pub model_predict_name : String
model_predict_name = "/model.v1.ModelPredictor/ModelPredict"

abbrev pub model_predict_stream_name : String
model_predict_stream_name = "/model.v1.ModelPredictor/ModelPredictStream"

-- A Go result `(T, error)`.
pub data Result (E A : Type 0) : Type 0 where
  ok : A → Result E A
  err : E → Result E A

-- The connection, which is third-party code. `invoke` gets the time left to the deadline, the
-- method, the request and the response to fill; it returns the error, the request as it left it,
-- and the response. `S` is an opened stream.
pub record ClientConn (E S : Type 0) : Type 0 where
  pub invoke_iris :
      ℤ
      → String
      → IrisPredictRequest
      → IrisPredictResponse
      → Option E × IrisPredictRequest × IrisPredictResponse
  pub invoke_model :
      ℤ → String → ModelPredictRequest → ModelPredictResponse → Option E × ModelPredictResponse
  pub new_stream : ℤ → String → Result E S
  pub send_msg : S → ModelPredictRequest → Option E × S
  pub close_send : S → Option E × S

module _ {E S : Type 0} (cc : ClientConn E S) where
  -- `(*irisPredictorClient).IrisPredict`, with the request as the call leaves it.
  unfoldable pub iris_predict :
      ℤ → IrisPredictRequest → Result E IrisPredictResponse × IrisPredictRequest
  iris_predict timeout in_ =
      let (failure, sent, out) = cc.invoke_iris timeout iris_predict_name in_ empty_iris_response in
      (elim failure [ some e ↦ err e | none ↦ ok out ], sent)

  -- `(*modelPredictorClient).ModelPredict`
  unfoldable pub model_predict : ℤ → ModelPredictRequest → Result E ModelPredictResponse
  model_predict timeout in_ =
      let (failure, out) = cc.invoke_model timeout model_predict_name in_ empty_model_response in
      elim failure [ some e ↦ err e | none ↦ ok out ]

  pub close_stream : S → Result E S
  close_stream stream =
      let (failure, closed) = cc.close_send stream in
      elim failure [ some e ↦ err e | none ↦ ok closed ]

  pub send_request : S → ModelPredictRequest → Result E S
  unfolding close_stream
  send_request stream in_ =
      let (failure, sent) = cc.send_msg stream in_ in
      let closed = close_stream sent in elim failure [ some e ↦ err e | none ↦ closed ]

  -- `(*modelPredictorClient).ModelPredictStream`: open, send the request, close the sending side.
  unfoldable pub model_predict_stream : ℤ → ModelPredictRequest → Result E S
  unfolding send_request
  model_predict_stream timeout in_ = elim (cc.new_stream timeout model_predict_stream_name) [
    | err e ↦ err e
    | ok stream ↦ send_request stream in_
  ]
