-- ===== src/Pbft/Hashes/NewView.antt =====
-- The methods that enter a new view leave every stored batch under its hash.
use spree.Base.{ℕ, List, Option, none, some, Bytes, list_eq}
use spree.Base.Map.{Map}
use spree.Pbft.Messages.{CEntry, NewView}
use spree.Pbft.Core.{Env}
use spree.Pbft.Calls.{Calls}
use spree.Pbft.Hashes.{KeepsHashes, CallsKeep, pure-KeepsHashes, hash_rules}
use spree.Pbft.Hashes.Helpers.{
  stop_timer-KeepsHashes, start_timer_if_outstanding_requests-KeepsHashes, update_cert-KeepsHashes,
  update_view_change_seq_no-KeepsHashes, clean_stores-KeepsHashes, persist_qset-KeepsHashes,
  inner_broadcast-KeepsHashes, update_high_state_target-KeepsHashes, state_transfer-KeepsHashes,
  drop_checkpoint-KeepsHashes, drop_batch-KeepsHashes,
}
use spree.Pbft.Select.{Choice}
use spree.Pbft.Watermarks.{resubmit_request_batches, move_watermarks}
use spree.Pbft.NewView.{
  assign_pre_prepare, prepare_assigned, process_new_view2, fetch_request_batches, request_missing,
  transfer_decoded, transfer_to_checkpoint, adopt_new_view, check_assignment, process_stored,
  process_new_view, recv_new_view,
}
use spree.Pbft.Hashes.Views.{send_view_change-KeepsHashes}
use spree.Pbft.Hashes.Normal.{recv_prepare-KeepsHashes}

module _ (env : Env) {c : Calls} (w : CallsKeep env c) where
  resubmit_request_batches-KeepsHashes : KeepsHashes env (resubmit_request_batches c)
  unfolding resubmit_request_batches
  resubmit_request_batches-KeepsHashes = search (hash_rules, CallsKeep.recv_request_batch) depth 14

  pub move_watermarks-KeepsHashes : (n : ℕ) → KeepsHashes env (move_watermarks c n)
  unfolding move_watermarks
  move_watermarks-KeepsHashes n =
      search
        (
          hash_rules, drop_batch-KeepsHashes, drop_checkpoint-KeepsHashes, clean_stores-KeepsHashes,
          resubmit_request_batches-KeepsHashes,
        )
        depth 14

  assign_pre_prepare-KeepsHashes : (e : ℕ × Bytes) → KeepsHashes env (assign_pre_prepare env c e)
  unfolding assign_pre_prepare
  assign_pre_prepare-KeepsHashes (n, digest) =
      search (hash_rules, update_cert-KeepsHashes, persist_qset-KeepsHashes) depth 14

  prepare_assigned-KeepsHashes : (e : ℕ × Bytes) → KeepsHashes env (prepare_assigned env c e)
  unfolding prepare_assigned
  prepare_assigned-KeepsHashes (n, digest) =
      search
        (hash_rules, update_cert-KeepsHashes, recv_prepare-KeepsHashes, inner_broadcast-KeepsHashes)
        depth 14

  process_new_view2-KeepsHashes : (nv : NewView) → KeepsHashes env (process_new_view2 env c nv)
  unfolding process_new_view2
  process_new_view2-KeepsHashes nv =
      search
        (
          hash_rules, stop_timer-KeepsHashes, assign_pre_prepare-KeepsHashes,
          prepare_assigned-KeepsHashes, update_view_change_seq_no-KeepsHashes,
          resubmit_request_batches-KeepsHashes, start_timer_if_outstanding_requests-KeepsHashes,
        )
        depth 14

  fetch_request_batches-KeepsHashes : KeepsHashes env (fetch_request_batches env c)
  unfolding fetch_request_batches
  fetch_request_batches-KeepsHashes = search (hash_rules, inner_broadcast-KeepsHashes) depth 14

  request_missing-KeepsHashes : (nv : NewView) → KeepsHashes env (request_missing env c nv)
  unfolding request_missing
  request_missing-KeepsHashes nv =
      search (hash_rules, process_new_view2-KeepsHashes, fetch_request_batches-KeepsHashes) depth 14

  transfer_decoded-KeepsHashes :
      (nv : NewView) (cp : CEntry) (replicas : List ℕ) (id : Option Bytes)
      → KeepsHashes env (transfer_decoded env c nv cp replicas id)
  transfer_decoded-KeepsHashes nv cp replicas none = pure-KeepsHashes _
  transfer_decoded-KeepsHashes nv cp replicas (some id) =
      search
        (
          hash_rules, update_high_state_target-KeepsHashes, state_transfer-KeepsHashes,
          request_missing-KeepsHashes,
        )
        depth 14

  transfer_to_checkpoint-KeepsHashes :
      (nv : NewView) (cp : CEntry) (replicas : List ℕ)
      → KeepsHashes env (transfer_to_checkpoint env c nv cp replicas)
  unfolding transfer_to_checkpoint
  transfer_to_checkpoint-KeepsHashes nv cp replicas =
      search (hash_rules, transfer_decoded-KeepsHashes) depth 14

  adopt_new_view-KeepsHashes :
      (nv : NewView) (cp : CEntry) (replicas : List ℕ)
      → KeepsHashes env (adopt_new_view env c nv cp replicas)
  unfolding adopt_new_view
  adopt_new_view-KeepsHashes nv cp replicas =
      search
        (
          hash_rules, move_watermarks-KeepsHashes, transfer_to_checkpoint-KeepsHashes,
          request_missing-KeepsHashes,
        )
        depth 14

  check_assignment-KeepsHashes :
      (nv : NewView) (ch : Choice) (o : Option (Map ℕ Bytes))
      → KeepsHashes env (check_assignment env c nv ch o)
  check_assignment-KeepsHashes nv ch none = search send_view_change-KeepsHashes
  check_assignment-KeepsHashes nv ch (some msg_list) =
      search (hash_rules, adopt_new_view-KeepsHashes, send_view_change-KeepsHashes) depth 14

  process_stored-KeepsHashes : (o : Option NewView) → KeepsHashes env (process_stored env c o)
  process_stored-KeepsHashes none = pure-KeepsHashes _
  process_stored-KeepsHashes (some nv) =
      search (hash_rules, check_assignment-KeepsHashes, send_view_change-KeepsHashes) depth 14

  pub process_new_view-KeepsHashes : KeepsHashes env (process_new_view env c)
  unfolding process_new_view
  process_new_view-KeepsHashes = search (hash_rules, process_stored-KeepsHashes) depth 14

  pub recv_new_view-KeepsHashes : (nv : NewView) → KeepsHashes env (recv_new_view env c nv)
  unfolding recv_new_view
  recv_new_view-KeepsHashes nv = search (hash_rules, process_new_view-KeepsHashes) depth 14
