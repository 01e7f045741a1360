-- ===== src/Pbft/Messages.antt =====
-- The messages of pbft/messages.go, and the index types of pbft/pbft.go. Pointers to a message are
-- never written through once it is sent, so a message is its value; a pointer that may be nil is an
-- `Option`. Numbers are `uint64`.
use spree.Base.{
  ℕ, ◌≡◌, ◌↔◌, Bool, true, ◌&&◌, Option, List, arith, Bytes, Eq, nat_eq, list_eq, ◌==◌,
}
use spree.Base.{list_beq_iff}
use spree.Base.Map.{Map}

pub record Timestamp : Type 0 where
  pub seconds : ℕ
  pub nanos : ℕ

pub record Request : Type 0 where
  pub timestamp : Option Timestamp
  pub payload : Bytes
  pub replica_id : ℕ
  pub signature : Bytes

pub record RequestBatch : Type 0 where
  pub batch : List Request

pub record PrePrepare : Type 0 where
  pub view : ℕ
  pub sequence_number : ℕ
  pub batch_digest : Bytes
  pub request_batch : Option RequestBatch
  pub replica_id : ℕ

pub record Prepare : Type 0 where
  pub view : ℕ
  pub sequence_number : ℕ
  pub batch_digest : Bytes
  pub replica_id : ℕ

pub record Commit : Type 0 where
  pub view : ℕ
  pub sequence_number : ℕ
  pub batch_digest : Bytes
  pub replica_id : ℕ

pub record Checkpoint : Type 0 where
  pub sequence_number : ℕ
  pub replica_id : ℕ
  pub id : Bytes

-- `ViewChange_C`
pub record CEntry : Type 0 where
  pub sequence_number : ℕ
  pub id : Bytes

-- `ViewChange_PQ`
pub record PqEntry : Type 0 where
  pub sequence_number : ℕ
  pub batch_digest : Bytes
  pub view : ℕ

pub record ViewChange : Type 0 where
  pub view : ℕ
  pub h : ℕ
  pub cset : List CEntry
  pub pset : List PqEntry
  pub qset : List PqEntry
  pub replica_id : ℕ
  pub signature : Bytes

pub record NewView : Type 0 where
  pub view : ℕ
  pub vset : List ViewChange
  pub xset : Map ℕ Bytes
  pub replica_id : ℕ

pub record FetchRequestBatch : Type 0 where
  pub batch_digest : Bytes
  pub replica_id : ℕ

-- The payloads of `Message`.
pub data Message : Type 0 where
  request_batch : RequestBatch → Message
  pre_prepare : PrePrepare → Message
  prepare : Prepare → Message
  commit : Commit → Message
  checkpoint : Checkpoint → Message
  view_change : ViewChange → Message
  new_view : NewView → Message
  fetch_request_batch : FetchRequestBatch → Message
  return_request_batch : RequestBatch → Message

-- `qidx`
pub record Qidx : Type 0 where
  pub d : Bytes
  pub n : ℕ

-- `msgID`
pub record MsgId : Type 0 where
  pub v : ℕ
  pub n : ℕ

-- `vcidx`
pub record Vcidx : Type 0 where
  pub v : ℕ
  pub id : ℕ

abbrev qidx_beq : Qidx → Qidx → Bool
qidx_beq a b = a.d == b.d && a.n == b.n

pub qidx_beq_iff : (a b : Qidx) → (qidx_beq a b ≡ true) ↔ (a ≡ b)
qidx_beq_iff a b = ground (arith, list_beq_iff a.d b.d)

abbrev msg_id_beq : MsgId → MsgId → Bool
msg_id_beq a b = a.v == b.v && a.n == b.n

pub msg_id_beq_iff : (a b : MsgId) → (msg_id_beq a b ≡ true) ↔ (a ≡ b)
msg_id_beq_iff a b = ground arith

abbrev vcidx_beq : Vcidx → Vcidx → Bool
vcidx_beq a b = a.v == b.v && a.id == b.id

pub vcidx_beq_iff : (a b : Vcidx) → (vcidx_beq a b ≡ true) ↔ (a ≡ b)
vcidx_beq_iff a b = ground arith

abbrev checkpoint_beq : Checkpoint → Checkpoint → Bool
checkpoint_beq a b =
    a.sequence_number == b.sequence_number && (a.replica_id == b.replica_id && a.id == b.id)

pub checkpoint_beq_iff : (a b : Checkpoint) → (checkpoint_beq a b ≡ true) ↔ (a ≡ b)
checkpoint_beq_iff a b = ground (arith, list_beq_iff a.id b.id)

abbrev c_entry_beq : CEntry → CEntry → Bool
c_entry_beq a b = a.sequence_number == b.sequence_number && a.id == b.id

pub c_entry_beq_iff : (a b : CEntry) → (c_entry_beq a b ≡ true) ↔ (a ≡ b)
c_entry_beq_iff a b = ground (arith, list_beq_iff a.id b.id)

instance abbrev pub qidx_eq : Eq Qidx
qidx_eq = record { equals = qidx_beq; equals_iff = qidx_beq_iff }

instance abbrev pub msg_id_eq : Eq MsgId
msg_id_eq = record { equals = msg_id_beq; equals_iff = msg_id_beq_iff }

instance abbrev pub vcidx_eq : Eq Vcidx
vcidx_eq = record { equals = vcidx_beq; equals_iff = vcidx_beq_iff }

instance abbrev pub checkpoint_eq : Eq Checkpoint
checkpoint_eq = record { equals = checkpoint_beq; equals_iff = checkpoint_beq_iff }

instance abbrev pub c_entry_eq : Eq CEntry
c_entry_eq = record { equals = c_entry_beq; equals_iff = c_entry_beq_iff }

-- The payloads of `BatchMessage`.
pub data BatchPayload : Type 0 where
  request : Request → BatchPayload
  request_batch : RequestBatch → BatchPayload
  pbft_message : Bytes → BatchPayload
  complaint : Request → BatchPayload
