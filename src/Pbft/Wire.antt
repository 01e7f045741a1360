-- ===== src/Pbft/Wire.antt =====
-- The wire format of pbft/messages.go: how the field that is a `oneof` goes into a protobuf buffer
-- and comes out of it. The buffer and the codecs of the messages inside are the protobuf library's.
pub mod Case
pub mod MessageField
pub mod BatchMessageField
pub mod Getters
pub mod Laws
mod Tests
use spree.Base.{
  ℕ, ◌+◌, ◌*◌, ◌≡◌, Bool, true, false, Option, none, some, List, ◌++◌, Bytes, length, ◌==◌, nat_eq,
  cond, ap, sym, ◌∙◌, some_inj,
}
use spree.Pbft.Messages.{
  Request, RequestBatch, PrePrepare, Prepare, Commit, Checkpoint, ViewChange, NewView,
  FetchRequestBatch,
}

-- What `DecodeMessage` and `DecodeRawBytes` give: the value, whether there is an error, and what of
-- the buffer is still to be read.
pub record Decoded (A : Type 0) : Type 0 where
  pub value : A
  pub failed : Bool
  pub rest : Bytes

-- `EncodeMessage` on an empty buffer (`none` is an error), `DecodeMessage`, and `proto.Size`, for one
-- type of messages.
pub record Codec (A : Type 0) : Type 0 where
  pub encode : A → Option Bytes
  pub decode : Bytes → Decoded A
  pub size : A → ℕ

-- What the code uses of github.com/golang/protobuf/proto.
pub record Proto : Type 0 where
  pub encode_varint : ℕ → Bytes
  pub decode_varint : Bytes → Option (ℕ × Bytes)
  pub size_varint : ℕ → ℕ
  -- `EncodeRawBytes` and `DecodeRawBytes`, with their length in front
  pub encode_raw_bytes : Bytes → Bytes
  pub decode_raw_bytes : Bytes → Decoded Bytes
  pub request : Codec Request
  pub request_batch : Codec RequestBatch
  pub pre_prepare : Codec PrePrepare
  pub prepare : Codec Prepare
  pub commit : Codec Commit
  pub checkpoint : Codec Checkpoint
  pub view_change : Codec ViewChange
  pub new_view : Codec NewView
  pub fetch_request_batch : Codec FetchRequestBatch

-- The documented behaviour of a codec: what is encoded is read back, with the rest of the buffer
-- left, and its length is that of the size before it and of the size.
pub record IsCodec (p : Proto) {A : Type 0} (c : Codec A) : Type 0 where
  pub decode-encode :
      (a : A) (frame rest : Bytes)
      → c.encode a ≡ some frame
      → c.decode (frame ++ rest) ≡ record { value = a; failed = false; rest = rest }
  pub length-encode :
      (a : A) (frame : Bytes)
      → c.encode a ≡ some frame
      → length frame ≡ p.size_varint (c.size a) + c.size a

-- The documented behaviour of the library.
pub record IsProto (p : Proto) : Type 0 where
  pub decode_varint-encode :
      (n : ℕ) (rest : Bytes) → p.decode_varint (p.encode_varint n ++ rest) ≡ some (n, rest)
  pub length-encode_varint : (n : ℕ) → length (p.encode_varint n) ≡ p.size_varint n
  pub decode_raw_bytes-encode :
      (x rest : Bytes)
      → p.decode_raw_bytes (p.encode_raw_bytes x ++ rest)
        ≡ record { value = x; failed = false; rest = rest }
  pub length-encode_raw_bytes :
      (x : Bytes) → length (p.encode_raw_bytes x) ≡ p.size_varint (length x) + length x
  pub request : IsCodec p p.request
  pub request_batch : IsCodec p p.request_batch
  pub pre_prepare : IsCodec p p.pre_prepare
  pub prepare : IsCodec p p.prepare
  pub commit : IsCodec p p.commit
  pub checkpoint : IsCodec p p.checkpoint
  pub view_change : IsCodec p p.view_change
  pub new_view : IsCodec p p.new_view
  pub fetch_request_batch : IsCodec p p.fetch_request_batch

-- `proto.WireBytes`, and `tag<<3 | proto.WireBytes`
abbrev pub wire_bytes : ℕ
wire_bytes = 2

abbrev pub key : ℕ → ℕ
key tag = tag * 8 + wire_bytes

pub data UnmarshalError : Type 0 where
  bad_wire_type decode_failed : UnmarshalError

-- What an unmarshaler returns and leaves: whether the tag is one of the field's, the error, the
-- field, and the buffer.
pub record Unmarshaled (P : Type 0) : Type 0 where
  pub handled : Bool
  pub error : Option UnmarshalError
  pub payload : Option P
  pub rest : Bytes

abbrev pub add_key : Proto → ℕ → Option Bytes → Option Bytes
add_key p tag none = none
add_key p tag (some frame) = some (p.encode_varint (key tag) ++ frame)

-- One case of a marshaler: the key, then the message.
unfoldable pub marshal_case : {A : Type 0} → Proto → Codec A → ℕ → A → Option Bytes
marshal_case p c tag a = add_key p tag (c.encode a)

-- One case of a sizer.
abbrev pub size_case : {A : Type 0} → Proto → Codec A → ℕ → A → ℕ
size_case p c tag a = p.size_varint (key tag) + p.size_varint (c.size a) + c.size a

-- The end of a case of an unmarshaler: the field is set even where the message is not sound.
abbrev pub store_decoded : {A P : Type 0} → (A → P) → Decoded A → Unmarshaled P
store_decoded wrap d = record {
  handled = true;
  error = cond d.failed (some decode_failed) none;
  payload = some (wrap d.value);
  rest = d.rest;
}

-- One case of an unmarshaler.
unfoldable pub unmarshal_case :
    {A P : Type 0} → (Bytes → Decoded A) → (A → P) → ℕ → Bytes → Option P → Unmarshaled P
unmarshal_case decode wrap wire b payload =
    cond (wire == wire_bytes) (store_decoded wrap (decode b))
      (record { handled = true; error = some bad_wire_type; payload = payload; rest = b })

-- The last case: the tag is of another field.
unfoldable pub unmarshal_default : {P : Type 0} → Bytes → Option P → Unmarshaled P
unmarshal_default b payload = record { handled = false; error = none; payload = payload; rest = b }

-- A byte slice as the message inside: `EncodeRawBytes`, `DecodeRawBytes(true)` and `len`.
abbrev pub raw_bytes : Proto → Codec Bytes
raw_bytes p = record {
  encode = λ x. some (p.encode_raw_bytes x);
  decode = p.decode_raw_bytes;
  size = λ x. length x;
}

pub raw_bytes-IsCodec : (p : Proto) → IsProto p → IsCodec p (raw_bytes p)
raw_bytes-IsCodec p q = record {
  decode-encode = λ a frame rest e.
      ap (λ b. p.decode_raw_bytes (b ++ rest)) (sym (some_inj e))
      ∙ q.decode_raw_bytes-encode a rest;
  length-encode = λ a frame e. ap length (sym (some_inj e)) ∙ q.length-encode_raw_bytes a;
}
