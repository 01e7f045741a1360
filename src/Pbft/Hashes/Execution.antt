-- ===== src/Pbft/Hashes/Execution.antt =====
-- Checkpoints and execution leave every stored batch under its hash.
use spree.Base.{List, ℕ, List, Option, none, some, [], ◌∷◌, Bytes, list_eq}
use spree.Pbft.Messages.{Checkpoint, MsgId}
use spree.Pbft.Core.{Env, MsgCert, modify, ◌>>=◌}
use spree.Pbft.Calls.{Calls}
use spree.Pbft.Hashes.{
  KeepsHashes, CallsKeep, pure-KeepsHashes, skip-KeepsHashes, raise-KeepsHashes, bind-KeepsHashes,
  if-KeepsHashes, hash_rules,
}
use spree.Pbft.Hashes.Helpers.{
  stop_timer-KeepsHashes, start_timer_if_outstanding_requests-KeepsHashes,
  persist_checkpoint-KeepsHashes, persist_del_all_request_batches-KeepsHashes,
  inner_broadcast-KeepsHashes, update_high_state_target-KeepsHashes,
  retry_state_transfer-KeepsHashes,
}
use spree.Pbft.Checkpoints.{
  fall_behind, check_out_of_date, weak_checkpoint_set_out_of_range, witness_target, witness_filled,
  witness_checkpoint_weak_cert, on_checkpoint_quorum, count_checkpoints, recv_checkpoint,
  take_checkpoint,
}
use spree.Pbft.Execution.{
  finish_exec, exec_done_sync, start_execution, execute_cert, execute_one, try_each,
  execute_outstanding,
}
use spree.Pbft.Hashes.NewView.{move_watermarks-KeepsHashes, process_new_view-KeepsHashes}

module _ (env : Env) {c : Calls} (w : CallsKeep env c) where
  clear-KeepsHashes : KeepsHashes env (modify (λ s. record s { req_batch_store = [] }))
  unfolding ◌>>=◌
  clear-KeepsHashes = record { keeps = λ s h. record { hashed = tt } }

  fall_behind-KeepsHashes : (m : ℕ) → KeepsHashes env (fall_behind env c m)
  unfolding fall_behind
  fall_behind-KeepsHashes m =
      search
        (
          hash_rules, clear-KeepsHashes, persist_del_all_request_batches-KeepsHashes,
          move_watermarks-KeepsHashes, stop_timer-KeepsHashes,
        )
        depth 14

  check_out_of_date-KeepsHashes :
      (high : ℕ) (m : Option ℕ) → KeepsHashes env (check_out_of_date env c high m)
  check_out_of_date-KeepsHashes high none = raise-KeepsHashes _
  check_out_of_date-KeepsHashes high (some m) =
      search (hash_rules, fall_behind-KeepsHashes) depth 14

  weak_checkpoint_set_out_of_range-KeepsHashes :
      (m : Checkpoint) → KeepsHashes env (weak_checkpoint_set_out_of_range env c m)
  unfolding weak_checkpoint_set_out_of_range
  weak_checkpoint_set_out_of_range-KeepsHashes m =
      search (hash_rules, check_out_of_date-KeepsHashes) depth 14

  witness_target-KeepsHashes :
      (m : Checkpoint) (replicas : List ℕ) (id : Option Bytes)
      → KeepsHashes env (witness_target env c m replicas id)
  witness_target-KeepsHashes m replicas none = skip-KeepsHashes
  witness_target-KeepsHashes m replicas (some id) =
      search (hash_rules, update_high_state_target-KeepsHashes, retry_state_transfer-KeepsHashes)
        depth 14

  witness_filled-KeepsHashes :
      (m : Checkpoint) (filled : Option (List ℕ)) → KeepsHashes env (witness_filled env c m filled)
  witness_filled-KeepsHashes m none = raise-KeepsHashes _
  witness_filled-KeepsHashes m (some replicas) = witness_target-KeepsHashes m replicas _

  witness_checkpoint_weak_cert-KeepsHashes :
      (m : Checkpoint) → KeepsHashes env (witness_checkpoint_weak_cert env c m)
  unfolding witness_checkpoint_weak_cert
  witness_checkpoint_weak_cert-KeepsHashes m =
      search (hash_rules, witness_filled-KeepsHashes) depth 14

  on_checkpoint_quorum-KeepsHashes :
      (m : Checkpoint) → KeepsHashes env (on_checkpoint_quorum env c m)
  unfolding on_checkpoint_quorum
  on_checkpoint_quorum-KeepsHashes m =
      search (hash_rules, move_watermarks-KeepsHashes, process_new_view-KeepsHashes) depth 14

  count_checkpoints-KeepsHashes : (m : Checkpoint) → KeepsHashes env (count_checkpoints env c m)
  unfolding count_checkpoints
  count_checkpoints-KeepsHashes m =
      search
        (hash_rules, on_checkpoint_quorum-KeepsHashes, witness_checkpoint_weak_cert-KeepsHashes)
        depth 14

  pub recv_checkpoint-KeepsHashes : (m : Checkpoint) → KeepsHashes env (recv_checkpoint env c m)
  unfolding recv_checkpoint
  recv_checkpoint-KeepsHashes m =
      search
        (hash_rules, weak_checkpoint_set_out_of_range-KeepsHashes, count_checkpoints-KeepsHashes)
        depth 14

  take_checkpoint-KeepsHashes : (n : ℕ) (id : Bytes) → KeepsHashes env (take_checkpoint env c n id)
  unfolding take_checkpoint
  take_checkpoint-KeepsHashes n id =
      search
        (
          hash_rules, persist_checkpoint-KeepsHashes, recv_checkpoint-KeepsHashes,
          inner_broadcast-KeepsHashes,
        )
        depth 14

  finish_exec-KeepsHashes : (o : Option ℕ) → KeepsHashes env (finish_exec env c o)
  finish_exec-KeepsHashes none = search hash_rules
  finish_exec-KeepsHashes (some n) = search (hash_rules, take_checkpoint-KeepsHashes) depth 14

  exec_done_sync-KeepsHashes : KeepsHashes env (exec_done_sync env c)
  unfolding exec_done_sync
  exec_done_sync-KeepsHashes =
      search (hash_rules, finish_exec-KeepsHashes, CallsKeep.execute_outstanding) depth 14

  start_execution-KeepsHashes :
      (idx : MsgId) (cert : MsgCert) → KeepsHashes env (start_execution env c idx cert)
  unfolding start_execution
  start_execution-KeepsHashes idx cert = search (hash_rules, exec_done_sync-KeepsHashes) depth 14

  execute_cert-KeepsHashes :
      (idx : MsgId) (o : Option MsgCert) → KeepsHashes env (execute_cert env c idx o)
  execute_cert-KeepsHashes idx none = pure-KeepsHashes _
  execute_cert-KeepsHashes idx (some cert) =
      search (hash_rules, start_execution-KeepsHashes) depth 14

  execute_one-KeepsHashes : (idx : MsgId) → KeepsHashes env (execute_one env c idx)
  unfolding execute_one
  execute_one-KeepsHashes idx = search (hash_rules, execute_cert-KeepsHashes) depth 14

  try_each-KeepsHashes : (idxs : List MsgId) → KeepsHashes env (try_each env c idxs)
  unfolding try_each
  try_each-KeepsHashes [] = skip-KeepsHashes
  try_each-KeepsHashes (idx ∷ rest) =
      bind-KeepsHashes _ _ (execute_one-KeepsHashes idx)
        (λ done. if-KeepsHashes done _ _ skip-KeepsHashes (try_each-KeepsHashes rest))

  pub execute_outstanding-KeepsHashes : KeepsHashes env (execute_outstanding env c)
  unfolding execute_outstanding
  execute_outstanding-KeepsHashes =
      search (hash_rules, try_each-KeepsHashes, start_timer_if_outstanding_requests-KeepsHashes)
        depth 14
