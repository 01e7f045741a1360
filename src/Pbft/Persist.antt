-- ===== src/Pbft/Persist.antt =====
-- Hashing, signing, persistence and broadcasting: pbft/utils.go, pbft/sign.go and the `persist`
-- methods and `innerBroadcast` of pbft/core.go. An error is only logged by every caller, so a
-- method that returns one is left where the code returns.
use spree.Base.{
  ℕ, zero, suc, Bool, false, not, ◌&&◌, Option, none, some, List, [], ◌∷◌, ◌++◌, Bytes, codes, ◌==◌,
  nat_eq, list_eq, get_or, cond,
}
use spree.Base.Map.{Map, lookup, keys, values}
use spree.Base.Text.{base64_encode, decimal}
use spree.Pbft.Messages.{RequestBatch, PqEntry, Message, ViewChange}
use spree.Pbft.Core.{
  Env, Effect, broadcast, unicast, store_state, del_state, M, emit, get, skip, for_each, ◌>>=◌,
  if◌then◌else◌,
}
use spree.Pbft.PqSets.{calc_pset, calc_qset}

abbrev pub bytes_or_nil : Option Bytes → Bytes
bytes_or_nil none = []
bytes_or_nil (some raw) = raw

-- `i = 0, 1, …` below the bound
abbrev below : ℕ → List ℕ
below zero = []
below (suc n) = below n ++ (n ∷ [])

abbrev pub store_marshalled : Bytes → Option Bytes → M (Unit {0})
store_marshalled key none = skip
store_marshalled key (some raw) = emit (store_state key raw)

abbrev pub delete_all : Option (Map Bytes Bytes) → M (Unit {0})
delete_all none = skip
delete_all (some batches) = for_each (keys batches) (λ k. emit (del_state k))

module _ (env : Env) where
  -- `Hash` of a request batch, with its ignored error
  unfoldable pub hash : Option RequestBatch → Bytes
  hash batch = base64_encode (env.shake_sum256 (bytes_or_nil (env.marshal_request_batch batch)))

  -- `(*pbftCore).verify`: true when it returns no error
  unfoldable pub verify : List Effect → ViewChange → Bool
  verify out vc = elim (env.marshal_view_change (record vc { signature = [] })) [
    | none ↦ false
    | some raw ↦ env.verify out vc.replica_id vc.signature raw
  ]

  -- `(*pbftCore).sign`: where it fails the signature stays cleared
  unfoldable pub sign : List Effect → ViewChange → ViewChange
  sign out vc = elim (env.marshal_view_change (record vc { signature = [] })) [
    | none ↦ record vc { signature = [] }
    | some raw ↦ record vc { signature = bytes_or_nil (env.sign out raw) }
  ]

  -- What is sent when the replica goes byzantine: the message to all but one.
  abbrev pub unicast_but : ℕ → Bytes → ℕ → M (Unit {0})
  unicast_but ignored raw i = do
    s ← get
    if not (i == ignored) && not (i == s.id) then emit (unicast raw i) else skip

  abbrev pub send_raw : Bytes → Option ℕ → M (Unit {0})
  send_raw raw none = emit (broadcast raw)
  send_raw raw (some ignored) = do s ← get; for_each (below s.n) (unicast_but ignored raw)

  abbrev pub send_marshalled : Option Bytes → M (Unit {0})
  send_marshalled none = skip
  send_marshalled (some raw) = do
    s ← get
    send_raw raw (cond s.byzantine (env.go_byzantine s.out) none)

  -- `innerBroadcast`
  unfoldable pub inner_broadcast : Message → M (Unit {0})
  inner_broadcast msg = send_marshalled (env.marshal_message msg)

  -- `persistRequestBatch`
  unfoldable pub persist_request_batch : Bytes → M (Unit {0})
  persist_request_batch digest = do
    s ← get
    store_marshalled (codes "reqBatch." ++ digest)
        (env.marshal_request_batch (get_or (lookup digest s.req_batch_store) none))

  -- `persistPQSet`
  unfoldable pub persist_pq_set : Bytes → List PqEntry → M (Unit {0})
  persist_pq_set key set = store_marshalled key (env.marshal_pq_set set)

  -- `persistQSet`
  unfoldable pub persist_qset : M (Unit {0})
  persist_qset = do s ← get; persist_pq_set (codes "qset") (values (calc_qset s))

  -- `persistPSet`
  unfoldable pub persist_pset : M (Unit {0})
  persist_pset = do s ← get; persist_pq_set (codes "pset") (values (calc_pset s))

  -- `persistDelAllRequestBatches`
  unfoldable pub persist_del_all_request_batches : M (Unit {0})
  persist_del_all_request_batches = do
    s ← get
    delete_all (env.read_state_set s.out (codes "reqBatch."))

abbrev pub checkpoint_key : ℕ → Bytes
checkpoint_key seq_no = codes "chkpt." ++ decimal seq_no

-- `persistCheckpoint`
unfoldable pub persist_checkpoint : ℕ → Bytes → M (Unit {0})
persist_checkpoint seq_no id = emit (store_state (checkpoint_key seq_no) id)

-- `persistDelRequestBatch`
unfoldable pub persist_del_request_batch : Bytes → M (Unit {0})
persist_del_request_batch digest = emit (del_state (codes "reqBatch." ++ digest))

-- `persistDelCheckpoint`
unfoldable pub persist_del_checkpoint : ℕ → M (Unit {0})
persist_del_checkpoint seq_no = emit (del_state (checkpoint_key seq_no))
