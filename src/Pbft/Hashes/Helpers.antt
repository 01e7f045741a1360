-- ===== src/Pbft/Hashes/Helpers.antt =====
-- The helpers leave every stored batch under its hash.
use spree.Base.{ℕ, ◌≡◌, Option, none, some, Bytes, list_eq, arith}
use spree.Base.Map.{Map, keep_if-All, delete}
use spree.Pbft.Messages.{Message, MsgId}
use spree.Pbft.Core.{Core, Env, MsgCert, StateUpdateTarget, modify, ◌>>=◌}
use spree.Pbft.Quorum.{update_view_change_seq_no}
use spree.Pbft.Cert.{update_cert}
use spree.Pbft.Timers.{
  stop_timer, start_timer, soft_start_timer, start_timer_if_outstanding_requests,
}
use spree.Pbft.Persist.{
  store_marshalled, delete_all, send_raw, send_marshalled, inner_broadcast, persist_request_batch,
  persist_pq_set, persist_qset, persist_pset, persist_checkpoint, persist_del_request_batch,
  persist_del_checkpoint, persist_del_all_request_batches,
}
use spree.Pbft.Watermarks.{clean_stores, drop_batch, drop_checkpoint}
use spree.Pbft.Transfer.{
  update_high_state_target, transfer_to, retry_state_transfer, state_transfer,
}
use spree.Pbft.Views.{enter_next_view}
use spree.Pbft.Hashes.{
  IsHashed, KeepsHashes, modify-KeepsHashes, skip-KeepsHashes, if-KeepsHashes, bind-KeepsHashes,
  hash_rules,
}

store-kept : (s : Core) → (update_view_change_seq_no s).req_batch_store ≡ s.req_batch_store
unfolding update_view_change_seq_no
store-kept s = ground arith

module _ (env : Env) where
  pub stop_timer-KeepsHashes : KeepsHashes env (stop_timer)
  unfolding stop_timer
  stop_timer-KeepsHashes = search hash_rules depth 10

  pub start_timer-KeepsHashes : (timeout : ℕ) → KeepsHashes env (start_timer timeout)
  unfolding start_timer
  start_timer-KeepsHashes timeout = search hash_rules depth 10

  pub soft_start_timer-KeepsHashes :
      (timeout : ℕ) (reason : Bytes) → KeepsHashes env (soft_start_timer timeout reason)
  unfolding soft_start_timer
  soft_start_timer-KeepsHashes timeout reason = search hash_rules depth 10

  pub start_timer_if_outstanding_requests-KeepsHashes :
      KeepsHashes env (start_timer_if_outstanding_requests)
  unfolding start_timer_if_outstanding_requests
  start_timer_if_outstanding_requests-KeepsHashes =
      search (hash_rules, soft_start_timer-KeepsHashes) depth 10

  pub update_cert-KeepsHashes :
      (idx : MsgId) (f : MsgCert → MsgCert) → KeepsHashes env (modify (update_cert idx f))
  unfolding update_cert
  update_cert-KeepsHashes idx f = search hash_rules depth 10

  pub update_view_change_seq_no-KeepsHashes : KeepsHashes env (modify update_view_change_seq_no)
  update_view_change_seq_no-KeepsHashes = modify-KeepsHashes _ store-kept

  pub enter_next_view-KeepsHashes : KeepsHashes env (modify enter_next_view)
  unfolding enter_next_view
  enter_next_view-KeepsHashes = search hash_rules depth 10

  pub clean_stores-KeepsHashes : (h : ℕ) → KeepsHashes env (modify (clean_stores h))
  unfolding clean_stores
  clean_stores-KeepsHashes h = search hash_rules depth 10

  store_marshalled-KeepsHashes :
      (key : Bytes) (raw : Option Bytes) → KeepsHashes env (store_marshalled key raw)
  store_marshalled-KeepsHashes key none = search hash_rules depth 10
  store_marshalled-KeepsHashes key (some raw) = search hash_rules depth 10

  pub persist_request_batch-KeepsHashes :
      (digest : Bytes) → KeepsHashes env (persist_request_batch env digest)
  unfolding persist_request_batch
  persist_request_batch-KeepsHashes digest =
      search (hash_rules, store_marshalled-KeepsHashes) depth 10

  pub persist_qset-KeepsHashes : KeepsHashes env (persist_qset env)
  unfolding persist_qset persist_pq_set
  persist_qset-KeepsHashes = search (hash_rules, store_marshalled-KeepsHashes) depth 10

  pub persist_pset-KeepsHashes : KeepsHashes env (persist_pset env)
  unfolding persist_pset persist_pq_set
  persist_pset-KeepsHashes = search (hash_rules, store_marshalled-KeepsHashes) depth 10

  pub persist_checkpoint-KeepsHashes :
      (n : ℕ) (id : Bytes) → KeepsHashes env (persist_checkpoint n id)
  unfolding persist_checkpoint
  persist_checkpoint-KeepsHashes n id = search hash_rules depth 10

  persist_del_request_batch-KeepsHashes :
      (digest : Bytes) → KeepsHashes env (persist_del_request_batch digest)
  unfolding persist_del_request_batch
  persist_del_request_batch-KeepsHashes digest = search hash_rules depth 10

  persist_del_checkpoint-KeepsHashes : (n : ℕ) → KeepsHashes env (persist_del_checkpoint n)
  unfolding persist_del_checkpoint
  persist_del_checkpoint-KeepsHashes n = search hash_rules depth 10

  delete_all-KeepsHashes : (b : Option (Map Bytes Bytes)) → KeepsHashes env (delete_all b)
  delete_all-KeepsHashes none = search hash_rules depth 10
  delete_all-KeepsHashes (some b) = search hash_rules depth 10

  pub persist_del_all_request_batches-KeepsHashes :
      KeepsHashes env (persist_del_all_request_batches env)
  unfolding persist_del_all_request_batches
  persist_del_all_request_batches-KeepsHashes = search (hash_rules, delete_all-KeepsHashes) depth 10

  send_raw-KeepsHashes : (raw : Bytes) (b : Option ℕ) → KeepsHashes env (send_raw env raw b)
  send_raw-KeepsHashes raw none = search hash_rules depth 10
  send_raw-KeepsHashes raw (some ignored) = search hash_rules depth 10

  send_marshalled-KeepsHashes : (raw : Option Bytes) → KeepsHashes env (send_marshalled env raw)
  send_marshalled-KeepsHashes none = search hash_rules depth 10
  send_marshalled-KeepsHashes (some raw) = search (hash_rules, send_raw-KeepsHashes) depth 10

  pub inner_broadcast-KeepsHashes : (msg : Message) → KeepsHashes env (inner_broadcast env msg)
  unfolding inner_broadcast
  inner_broadcast-KeepsHashes msg = search (hash_rules, send_marshalled-KeepsHashes) depth 10

  pub update_high_state_target-KeepsHashes :
      (t : StateUpdateTarget) → KeepsHashes env (update_high_state_target t)
  unfolding update_high_state_target
  update_high_state_target-KeepsHashes t = search hash_rules depth 10

  transfer_to-KeepsHashes : (t : Option StateUpdateTarget) → KeepsHashes env (transfer_to t)
  transfer_to-KeepsHashes none = search hash_rules depth 10
  transfer_to-KeepsHashes (some t) = search hash_rules depth 10

  pub retry_state_transfer-KeepsHashes :
      (t : Option StateUpdateTarget) → KeepsHashes env (retry_state_transfer t)
  unfolding retry_state_transfer
  retry_state_transfer-KeepsHashes t = search (hash_rules, transfer_to-KeepsHashes) depth 10

  pub state_transfer-KeepsHashes :
      (t : Option StateUpdateTarget) → KeepsHashes env (state_transfer t)
  unfolding state_transfer
  state_transfer-KeepsHashes t = search (hash_rules, retry_state_transfer-KeepsHashes) depth 10

  pub drop_checkpoint-KeepsHashes : (h : ℕ) (n : ℕ) → KeepsHashes env (drop_checkpoint h n)
  unfolding drop_checkpoint
  drop_checkpoint-KeepsHashes h n = search (hash_rules, persist_del_checkpoint-KeepsHashes) depth 10

  delete-KeepsHashes :
      (digest : Bytes)
      → KeepsHashes env
          (modify (λ s. record s { req_batch_store = delete digest s.req_batch_store }))
  unfolding delete ◌>>=◌
  delete-KeepsHashes digest = record {
    keeps = λ s h. record { hashed = keep_if-All (IsHashed env) _ s.req_batch_store h.hashed };
  }

  pub drop_batch-KeepsHashes : (h : ℕ) (e : MsgId × MsgCert) → KeepsHashes env (drop_batch h e)
  unfolding drop_batch
  drop_batch-KeepsHashes h (idx, cert) =
      if-KeepsHashes _ _ _
        (bind-KeepsHashes _ _ (persist_del_request_batch-KeepsHashes cert.digest)
          (λ _. delete-KeepsHashes cert.digest))
        skip-KeepsHashes
