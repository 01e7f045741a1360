-- ===== src/Pbft/Watermarks.antt =====
-- `moveWatermarks` and `resubmitRequestBatches` of pbft/core.go.
use spree.Base.{
  ℕ, ◌*◌, ◌/◌, not, Option, List, [], ◌∷◌, Bytes, leb, ltb, any, ◌==◌, nat_eq, list_eq, cond,
}
use spree.Base.Map.{Map, keys, values, keep_if, delete}
use spree.Pbft.Messages.{RequestBatch, MsgId, Checkpoint, Qidx, msg_id_eq, qidx_eq, checkpoint_eq}
use spree.Pbft.Core.{Core, MsgCert, M, modify, get, skip, for_each, ◌>>=◌, ◌>>◌, if◌then◌else◌}
use spree.Pbft.Quorum.{primary}
use spree.Pbft.Persist.{persist_del_request_batch, persist_del_checkpoint}
use spree.Pbft.Calls.{Calls}

-- The outstanding batches that no certificate has, `submissionOrder`.
abbrev pub uncertified :
    Map MsgId MsgCert → Map Bytes (Option RequestBatch) → List (Option RequestBatch)
uncertified certs [] = []
uncertified certs ((d, batch) ∷ rest) =
    let others = uncertified certs rest in
    cond (any (λ (cert : MsgCert). cert.digest == d) (values certs)) others (batch ∷ others)

-- The stores without what lies at or below the watermark `h`, and with `h` raised to it.
unfoldable pub clean_stores : ℕ → Core → Core
clean_stores h s = record s {
  cert_store = keep_if (λ (idx : MsgId). ltb h idx.n) s.cert_store;
  checkpoint_store = keep_if (λ (c : Checkpoint). ltb h c.sequence_number) s.checkpoint_store;
  pset = keep_if (λ (n : ℕ). ltb h n) s.pset;
  qset = keep_if (λ (q : Qidx). ltb h q.n) s.qset;
  chkpts = keep_if (λ (n : ℕ). leb h n) s.chkpts;
  h = h;
}

-- One round of the loop over `certStore`, but for the deletion of the certificate.
unfoldable pub drop_batch : ℕ → MsgId × MsgCert → M (Unit {0})
drop_batch h (idx, cert) =
    if leb idx.n h
    then (do
      persist_del_request_batch cert.digest
      modify (λ s. record s { req_batch_store = delete cert.digest s.req_batch_store }))
    else skip

unfoldable pub drop_checkpoint : ℕ → ℕ → M (Unit {0})
drop_checkpoint h n = if ltb n h then persist_del_checkpoint n else skip

module _ (calls : Calls) where
  -- `resubmitRequestBatches`
  unfoldable pub resubmit_request_batches : M (Unit {0})
  resubmit_request_batches = do
    s ← get
    if not (primary s.config s.view == s.id)
        then skip
        else for_each (uncertified s.cert_store s.outstanding_req_batches) calls.recv_request_batch

  -- `moveWatermarks`: `n` is rounded down to a multiple of the checkpoint period
  unfoldable pub move_watermarks : ℕ → M (Unit {0})
  move_watermarks n = do
    s ← get
    let h = n / s.k * s.k
    for_each s.cert_store (drop_batch h)
    for_each (keys s.chkpts) (drop_checkpoint h)
    modify (clean_stores h)
    resubmit_request_batches
