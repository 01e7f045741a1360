-- ===== src/Pbft/Wire/BatchMessageField.antt =====
-- The field `payload` of `BatchMessage` (pbft/messages.go) on the wire.
use spree.Base.{ℕ, Option, none, some, [], Bytes, ◌==◌, nat_eq, cond}
use spree.Pbft.Messages.{BatchPayload}
use spree.Pbft.Messages.BatchPayload.{request, request_batch, pbft_message, complaint}
use spree.Pbft.Wire.{
  Proto, Unmarshaled, marshal_case, size_case, unmarshal_case, unmarshal_default, raw_bytes,
}

module _ (p : Proto) where
  -- `_BatchMessage_OneofMarshaler`
  unfoldable pub batch_message_oneof_marshaler : Option BatchPayload → Option Bytes
  batch_message_oneof_marshaler none = some []
  batch_message_oneof_marshaler (some (request x)) = marshal_case p p.request 1 x
  batch_message_oneof_marshaler (some (request_batch x)) = marshal_case p p.request_batch 2 x
  batch_message_oneof_marshaler (some (pbft_message x)) = marshal_case p (raw_bytes p) 3 x
  batch_message_oneof_marshaler (some (complaint x)) = marshal_case p p.request 4 x

  -- `_BatchMessage_OneofSizer`
  unfoldable pub batch_message_oneof_sizer : Option BatchPayload → ℕ
  batch_message_oneof_sizer none = 0
  batch_message_oneof_sizer (some (request x)) = size_case p p.request 1 x
  batch_message_oneof_sizer (some (request_batch x)) = size_case p p.request_batch 2 x
  batch_message_oneof_sizer (some (pbft_message x)) = size_case p (raw_bytes p) 3 x
  batch_message_oneof_sizer (some (complaint x)) = size_case p p.request 4 x

  -- `_BatchMessage_OneofUnmarshaler`
  unfoldable pub batch_message_oneof_unmarshaler :
      ℕ → ℕ → Bytes → Option BatchPayload → Unmarshaled BatchPayload
  batch_message_oneof_unmarshaler tag wire b m =
      cond (tag == 1) (unmarshal_case p.request.decode request wire b m) (
        cond (tag == 2) (unmarshal_case p.request_batch.decode request_batch wire b m) (
          cond (tag == 3) (unmarshal_case p.decode_raw_bytes pbft_message wire b m) (
            cond (tag == 4) (unmarshal_case p.request.decode complaint wire b m)
              (unmarshal_default b m))))
