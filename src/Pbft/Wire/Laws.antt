-- ===== src/Pbft/Wire/Laws.antt =====
-- What the marshalers of pbft/messages.go write, their unmarshalers read, and their sizers count.
use spree.Base.{◌≡◌, refl, Option, none, some, Bytes, length, some_inj, ap}
use spree.Pbft.Messages.{
  Message, request_batch, pre_prepare, prepare, commit, checkpoint, view_change, new_view,
  fetch_request_batch, return_request_batch, BatchPayload,
}
use spree.Pbft.Wire.{Proto, IsProto, raw_bytes, raw_bytes-IsCodec}
use spree.Pbft.Wire.Case.{ReadsBack, marshal_case-size_case, case-ReadsBack}
use spree.Pbft.Wire.MessageField.{
  message_oneof_marshaler, message_oneof_sizer, message_oneof_unmarshaler,
}
use spree.Pbft.Wire.BatchMessageField.{
  batch_message_oneof_marshaler, batch_message_oneof_sizer, batch_message_oneof_unmarshaler,
}

module _ (p : Proto) (q : IsProto p) where
  -- The payload is read back.
  message_oneof_unmarshaler-marshaler :
      (m : Message) (old : Option Message) (bytes rest : Bytes)
      → message_oneof_marshaler p (some m) ≡ some bytes
      → ReadsBack p (message_oneof_unmarshaler p) m old bytes rest
  unfolding message_oneof_marshaler message_oneof_unmarshaler
  message_oneof_unmarshaler-marshaler (request_batch x) old bytes rest h =
      case-ReadsBack p p.request_batch (message_oneof_unmarshaler p) 1 request_batch x old bytes
        rest (λ b. refl) q q.request_batch h
  message_oneof_unmarshaler-marshaler (pre_prepare x) old bytes rest h =
      case-ReadsBack p p.pre_prepare (message_oneof_unmarshaler p) 2 pre_prepare x old bytes rest
        (λ b. refl) q q.pre_prepare h
  message_oneof_unmarshaler-marshaler (prepare x) old bytes rest h =
      case-ReadsBack p p.prepare (message_oneof_unmarshaler p) 3 prepare x old bytes rest
        (λ b. refl) q q.prepare h
  message_oneof_unmarshaler-marshaler (commit x) old bytes rest h =
      case-ReadsBack p p.commit (message_oneof_unmarshaler p) 4 commit x old bytes rest (λ b. refl)
        q q.commit h
  message_oneof_unmarshaler-marshaler (checkpoint x) old bytes rest h =
      case-ReadsBack p p.checkpoint (message_oneof_unmarshaler p) 5 checkpoint x old bytes rest
        (λ b. refl) q q.checkpoint h
  message_oneof_unmarshaler-marshaler (view_change x) old bytes rest h =
      case-ReadsBack p p.view_change (message_oneof_unmarshaler p) 6 view_change x old bytes rest
        (λ b. refl) q q.view_change h
  message_oneof_unmarshaler-marshaler (new_view x) old bytes rest h =
      case-ReadsBack p p.new_view (message_oneof_unmarshaler p) 7 new_view x old bytes rest
        (λ b. refl) q q.new_view h
  message_oneof_unmarshaler-marshaler (fetch_request_batch x) old bytes rest h =
      case-ReadsBack p p.fetch_request_batch (message_oneof_unmarshaler p) 8 fetch_request_batch x
        old bytes rest (λ b. refl) q q.fetch_request_batch h
  message_oneof_unmarshaler-marshaler (return_request_batch x) old bytes rest h =
      case-ReadsBack p p.request_batch (message_oneof_unmarshaler p) 9 return_request_batch x old
        bytes rest (λ b. refl) q q.request_batch h

  -- The sizer counts what is written, also for a payload that is nil.
  message_oneof_sizer_lem :
      (m : Option Message) (bytes : Bytes)
      → message_oneof_marshaler p m ≡ some bytes
      → message_oneof_sizer p m ≡ length bytes
  unfolding message_oneof_marshaler message_oneof_sizer
  message_oneof_sizer_lem none bytes h = ap length (some_inj h)
  message_oneof_sizer_lem (some (request_batch x)) bytes h =
      marshal_case-size_case p p.request_batch 1 x bytes q q.request_batch h
  message_oneof_sizer_lem (some (pre_prepare x)) bytes h =
      marshal_case-size_case p p.pre_prepare 2 x bytes q q.pre_prepare h
  message_oneof_sizer_lem (some (prepare x)) bytes h =
      marshal_case-size_case p p.prepare 3 x bytes q q.prepare h
  message_oneof_sizer_lem (some (commit x)) bytes h =
      marshal_case-size_case p p.commit 4 x bytes q q.commit h
  message_oneof_sizer_lem (some (checkpoint x)) bytes h =
      marshal_case-size_case p p.checkpoint 5 x bytes q q.checkpoint h
  message_oneof_sizer_lem (some (view_change x)) bytes h =
      marshal_case-size_case p p.view_change 6 x bytes q q.view_change h
  message_oneof_sizer_lem (some (new_view x)) bytes h =
      marshal_case-size_case p p.new_view 7 x bytes q q.new_view h
  message_oneof_sizer_lem (some (fetch_request_batch x)) bytes h =
      marshal_case-size_case p p.fetch_request_batch 8 x bytes q q.fetch_request_batch h
  message_oneof_sizer_lem (some (return_request_batch x)) bytes h =
      marshal_case-size_case p p.request_batch 9 x bytes q q.request_batch h

  -- Whatever payload `_Message_OneofMarshaler` has written without an error, and whatever comes
  -- behind it in the buffer: at the key and the wire type in front, `_Message_OneofUnmarshaler`
  -- reads the payload back without an error and leaves what comes behind, whatever the field held;
  -- and `_Message_OneofSizer` is the number of bytes written.
  pub message_oneof_lem :
      (m : Message) (old : Option Message) (bytes rest : Bytes)
      → message_oneof_marshaler p (some m) ≡ some bytes
      → ReadsBack p (message_oneof_unmarshaler p) m old bytes rest
        × (message_oneof_sizer p (some m) ≡ length bytes)
  message_oneof_lem m old bytes rest h = (
    message_oneof_unmarshaler-marshaler m old bytes rest h,
    message_oneof_sizer_lem (some m) bytes h,
  )

  -- The same of `_BatchMessage_OneofMarshaler`, its unmarshaler and its sizer.
  pub batch_message_oneof_lem :
      (m : BatchPayload) (old : Option BatchPayload) (bytes rest : Bytes)
      → batch_message_oneof_marshaler p (some m) ≡ some bytes
      → ReadsBack p (batch_message_oneof_unmarshaler p) m old bytes rest
        × (batch_message_oneof_sizer p (some m) ≡ length bytes)
  unfolding batch_message_oneof_marshaler batch_message_oneof_unmarshaler batch_message_oneof_sizer
  batch_message_oneof_lem (BatchPayload.request x) old bytes rest h = (
    case-ReadsBack p p.request (batch_message_oneof_unmarshaler p) 1 BatchPayload.request x old
        bytes rest (λ b. refl) q q.request h,
    marshal_case-size_case p p.request 1 x bytes q q.request h,
  )
  batch_message_oneof_lem (BatchPayload.request_batch x) old bytes rest h = (
    case-ReadsBack p p.request_batch (batch_message_oneof_unmarshaler p) 2
        BatchPayload.request_batch x old bytes rest (λ b. refl) q q.request_batch h,
    marshal_case-size_case p p.request_batch 2 x bytes q q.request_batch h,
  )
  batch_message_oneof_lem (BatchPayload.pbft_message x) old bytes rest h = (
    case-ReadsBack p (raw_bytes p) (batch_message_oneof_unmarshaler p) 3 BatchPayload.pbft_message x
        old bytes rest (λ b. refl) q (raw_bytes-IsCodec p q) h,
    marshal_case-size_case p (raw_bytes p) 3 x bytes q (raw_bytes-IsCodec p q) h,
  )
  batch_message_oneof_lem (BatchPayload.complaint x) old bytes rest h = (
    case-ReadsBack p p.request (batch_message_oneof_unmarshaler p) 4 BatchPayload.complaint x old
        bytes rest (λ b. refl) q q.request h,
    marshal_case-size_case p p.request 4 x bytes q q.request h,
  )
