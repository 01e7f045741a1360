-- ===== src/Pbft/Hashes/Normal.antt =====
-- Normal operation leaves every stored batch under its hash.
use spree.Base.{ℕ, Option, refl, Bytes, list_eq}
use spree.Base.Map.{put, All-put}
use spree.Pbft.Messages.{RequestBatch, PrePrepare, Prepare, Commit}
use spree.Pbft.Core.{Env, modify, ◌>>=◌}
use spree.Pbft.Calls.{Calls}
use spree.Pbft.Persist.{hash}
use spree.Pbft.Hashes.{IsHashed, KeepsHashes, CallsKeep, hash_rules}
use spree.Pbft.Hashes.Helpers.{
  stop_timer-KeepsHashes, soft_start_timer-KeepsHashes, update_cert-KeepsHashes,
  persist_request_batch-KeepsHashes, persist_qset-KeepsHashes, persist_pset-KeepsHashes,
  inner_broadcast-KeepsHashes,
}
use spree.Pbft.Normal.{
  on_committed, recv_commit, maybe_send_commit, recv_prepare, send_pre_prepare, recv_request_batch,
  follow_pre_prepare, store_pre_prepared, recv_pre_prepare,
}
use spree.Pbft.Hashes.Views.{send_view_change-KeepsHashes}

module _ (env : Env) {c : Calls} (w : CallsKeep env c) where
  on_committed-KeepsHashes : (m : Commit) → KeepsHashes env (on_committed env c m)
  unfolding on_committed
  on_committed-KeepsHashes m =
      search
        (
          hash_rules, stop_timer-KeepsHashes, CallsKeep.execute_outstanding,
          send_view_change-KeepsHashes,
        )
        depth 14

  pub recv_commit-KeepsHashes : (m : Commit) → KeepsHashes env (recv_commit env c m)
  unfolding recv_commit
  recv_commit-KeepsHashes m =
      search (hash_rules, update_cert-KeepsHashes, on_committed-KeepsHashes) depth 14

  maybe_send_commit-KeepsHashes :
      (digest : Bytes) (v : ℕ) (n : ℕ) → KeepsHashes env (maybe_send_commit env c digest v n)
  unfolding maybe_send_commit
  maybe_send_commit-KeepsHashes digest v n =
      search
        (hash_rules, update_cert-KeepsHashes, recv_commit-KeepsHashes, inner_broadcast-KeepsHashes)
        depth 14

  pub recv_prepare-KeepsHashes : (p : Prepare) → KeepsHashes env (recv_prepare env c p)
  unfolding recv_prepare
  recv_prepare-KeepsHashes p =
      search
        (
          hash_rules, update_cert-KeepsHashes, persist_pset-KeepsHashes,
          maybe_send_commit-KeepsHashes,
        )
        depth 14

  send_pre_prepare-KeepsHashes :
      (batch : Option RequestBatch) (digest : Bytes)
      → KeepsHashes env (send_pre_prepare env c batch digest)
  unfolding send_pre_prepare
  send_pre_prepare-KeepsHashes batch digest =
      search
        (
          hash_rules, update_cert-KeepsHashes, persist_qset-KeepsHashes,
          inner_broadcast-KeepsHashes, maybe_send_commit-KeepsHashes,
        )
        depth 14

  put-KeepsHashes :
      (batch : Option RequestBatch)
      → KeepsHashes env (
          modify (λ s. record s {
            req_batch_store = put (hash env batch) batch s.req_batch_store;
            outstanding_req_batches = put (hash env batch) batch s.outstanding_req_batches;
          }))
  unfolding ◌>>=◌
  put-KeepsHashes batch = record {
    keeps = λ s h. record {
      hashed = All-put (IsHashed env) (hash env batch) batch s.req_batch_store refl h.hashed;
    };
  }

  pub recv_request_batch-KeepsHashes :
      (batch : Option RequestBatch) → KeepsHashes env (recv_request_batch env c batch)
  unfolding recv_request_batch
  recv_request_batch-KeepsHashes batch =
      search
        (
          hash_rules, put-KeepsHashes, persist_request_batch-KeepsHashes,
          soft_start_timer-KeepsHashes, send_pre_prepare-KeepsHashes,
        )
        depth 14

  follow_pre_prepare-KeepsHashes : (pp : PrePrepare) → KeepsHashes env (follow_pre_prepare env c pp)
  unfolding follow_pre_prepare
  follow_pre_prepare-KeepsHashes pp =
      search
        (
          hash_rules, soft_start_timer-KeepsHashes, update_cert-KeepsHashes,
          persist_qset-KeepsHashes, recv_prepare-KeepsHashes, inner_broadcast-KeepsHashes,
        )
        depth 14

  store_pre_prepared-KeepsHashes : (pp : PrePrepare) → KeepsHashes env (store_pre_prepared env c pp)
  unfolding store_pre_prepared
  store_pre_prepared-KeepsHashes pp =
      search
        (
          hash_rules, put-KeepsHashes, persist_request_batch-KeepsHashes,
          follow_pre_prepare-KeepsHashes,
        )
        depth 14

  pub recv_pre_prepare-KeepsHashes : (pp : PrePrepare) → KeepsHashes env (recv_pre_prepare env c pp)
  unfolding recv_pre_prepare
  recv_pre_prepare-KeepsHashes pp =
      search
        (
          hash_rules, send_view_change-KeepsHashes, update_cert-KeepsHashes,
          store_pre_prepared-KeepsHashes,
        )
        depth 14
