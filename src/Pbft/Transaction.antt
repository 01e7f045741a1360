-- ===== src/Pbft/Transaction.antt =====
-- The transactions of pbft/types, and the requests that pbft/mock_utils.go makes of them.
use spree.Base.{ℕ, Option, some, [], ◌∷◌, Bytes, get_or}
use spree.Base.Text.{decimal}
use spree.Pbft.Messages.{Timestamp, Request, RequestBatch, Message, request_batch}

-- `Transaction_Type`
pub data TransactionType : Type 0 where
  undefined chaincode_deploy chaincode_invoke chaincode_query chaincode_terminate : TransactionType

-- `Transaction`; `ConfidentialityLevel` is an int32
pub record Transaction : Type 0 where
  pub type : TransactionType
  pub chaincode_id : Bytes
  pub payload : Bytes
  pub metadata : Bytes
  pub txid : Bytes
  pub timestamp : Option Timestamp
  pub confidentiality_level : ℕ
  pub confidentiality_protocol_version : Bytes
  pub nonce : Bytes
  pub to_validators : Bytes
  pub cert : Bytes
  pub signature : Bytes

-- `GetTimestamp`; the transaction is not nil
abbrev pub get_timestamp : Transaction → Option Timestamp
get_timestamp tx = tx.timestamp

-- `createTx`, for a tag that is not negative
unfoldable pub create_tx : ℕ → Transaction
create_tx tag = record {
  type = chaincode_deploy;
  chaincode_id = [];
  payload = decimal tag;
  metadata = [];
  txid = [];
  timestamp = some (record { seconds = tag; nanos = 0 });
  confidentiality_level = 0;
  confidentiality_protocol_version = [];
  nonce = [];
  to_validators = [];
  cert = [];
  signature = [];
}

-- `marshal` is `proto.Marshal` of a transaction; `none` is an error.
module _ (marshal : Transaction → Option Bytes) where
  -- `marshalTx` drops the error
  unfoldable pub marshal_tx : Transaction → Bytes
  marshal_tx tx = get_or (marshal tx) []

  -- `createPbftReq`
  unfoldable pub create_pbft_req : ℕ → ℕ → Request
  unfolding create_tx
  create_pbft_req tag replica = record {
    timestamp = get_timestamp (create_tx tag);
    payload = marshal_tx (create_tx tag);
    replica_id = replica;
    signature = [];
  }

  -- `CreatePbftReqBatch`
  unfoldable pub create_pbft_req_batch : ℕ → ℕ → RequestBatch
  unfolding create_pbft_req
  create_pbft_req_batch tag replica = record { batch = create_pbft_req tag replica ∷ [] }

  -- `CreatePbftReqBatchMsg`
  unfoldable pub create_pbft_req_batch_msg : ℕ → ℕ → Message
  create_pbft_req_batch_msg tag replica = request_batch (create_pbft_req_batch tag replica)
