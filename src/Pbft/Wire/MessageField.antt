-- ===== src/Pbft/Wire/MessageField.antt =====
-- The field `payload` of `Message` (pbft/messages.go) on the wire. A payload that is nil is `none`;
-- the pointer inside a payload is not nil wherever the code builds one.
use spree.Base.{ℕ, Option, none, some, [], Bytes, ◌==◌, nat_eq, cond}
use spree.Pbft.Messages.{
  Message, request_batch, pre_prepare, prepare, commit, checkpoint, view_change, new_view,
  fetch_request_batch, return_request_batch,
}
use spree.Pbft.Wire.{Proto, Unmarshaled, marshal_case, size_case, unmarshal_case, unmarshal_default}

module _ (p : Proto) where
  -- `_Message_OneofMarshaler`: what it adds to the buffer, or an error
  unfoldable pub message_oneof_marshaler : Option Message → Option Bytes
  message_oneof_marshaler none = some []
  message_oneof_marshaler (some (request_batch x)) = marshal_case p p.request_batch 1 x
  message_oneof_marshaler (some (pre_prepare x)) = marshal_case p p.pre_prepare 2 x
  message_oneof_marshaler (some (prepare x)) = marshal_case p p.prepare 3 x
  message_oneof_marshaler (some (commit x)) = marshal_case p p.commit 4 x
  message_oneof_marshaler (some (checkpoint x)) = marshal_case p p.checkpoint 5 x
  message_oneof_marshaler (some (view_change x)) = marshal_case p p.view_change 6 x
  message_oneof_marshaler (some (new_view x)) = marshal_case p p.new_view 7 x
  message_oneof_marshaler (some (fetch_request_batch x)) = marshal_case p p.fetch_request_batch 8 x
  message_oneof_marshaler (some (return_request_batch x)) = marshal_case p p.request_batch 9 x

  -- `_Message_OneofSizer`
  unfoldable pub message_oneof_sizer : Option Message → ℕ
  message_oneof_sizer none = 0
  message_oneof_sizer (some (request_batch x)) = size_case p p.request_batch 1 x
  message_oneof_sizer (some (pre_prepare x)) = size_case p p.pre_prepare 2 x
  message_oneof_sizer (some (prepare x)) = size_case p p.prepare 3 x
  message_oneof_sizer (some (commit x)) = size_case p p.commit 4 x
  message_oneof_sizer (some (checkpoint x)) = size_case p p.checkpoint 5 x
  message_oneof_sizer (some (view_change x)) = size_case p p.view_change 6 x
  message_oneof_sizer (some (new_view x)) = size_case p p.new_view 7 x
  message_oneof_sizer (some (fetch_request_batch x)) = size_case p p.fetch_request_batch 8 x
  message_oneof_sizer (some (return_request_batch x)) = size_case p p.request_batch 9 x

  -- `_Message_OneofUnmarshaler`
  unfoldable pub message_oneof_unmarshaler : ℕ → ℕ → Bytes → Option Message → Unmarshaled Message
  message_oneof_unmarshaler tag wire b m =
      cond (tag == 1) (unmarshal_case p.request_batch.decode request_batch wire b m) (
        cond (tag == 2) (unmarshal_case p.pre_prepare.decode pre_prepare wire b m) (
          cond (tag == 3) (unmarshal_case p.prepare.decode prepare wire b m) (
            cond (tag == 4) (unmarshal_case p.commit.decode commit wire b m) (
              cond (tag == 5) (unmarshal_case p.checkpoint.decode checkpoint wire b m) (
                cond (tag == 6) (unmarshal_case p.view_change.decode view_change wire b m) (
                  cond (tag == 7) (unmarshal_case p.new_view.decode new_view wire b m) (
                    cond (tag == 8)
                      (unmarshal_case p.fetch_request_batch.decode fetch_request_batch wire b m)
                      (cond (tag == 9)
                        (unmarshal_case p.request_batch.decode return_request_batch wire b m)
                        (unmarshal_default b m)))))))))
