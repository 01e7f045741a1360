-- ===== src/Pbft/Steps/Helpers.antt =====
-- The helpers that only touch timers, the store and the network make quiet moves.
use spree.Base.{ℕ, refl, Option, none, some, Bytes}
use spree.Base.Map.{Map}
use spree.Pbft.Messages.{Message}
use spree.Pbft.Core.{Core, Env, StateUpdateTarget}
use spree.Pbft.Timers.{
  soft_start_timer, start_timer, stop_timer, start_timer_if_outstanding_requests,
}
use spree.Pbft.Persist.{
  send_raw, send_marshalled, inner_broadcast, store_marshalled, persist_request_batch,
  persist_pq_set, persist_qset, persist_pset, delete_all, persist_del_all_request_batches,
  persist_checkpoint, persist_del_request_batch, persist_del_checkpoint,
}
use spree.Pbft.Transfer.{
  update_high_state_target, transfer_to, retry_state_transfer, state_transfer,
}
use spree.Pbft.Steps.{quiet}
use spree.Pbft.Steps.Rules.{
  Runs, runs_skip, runs_if, runs_get, runs_bind, runs_move, runs_modify, runs_for_each,
}

module _ {s : Core} where
  pub soft_start_timer-runs :
      (timeout : ℕ) (reason : Bytes) → Runs s (soft_start_timer timeout reason)
  unfolding soft_start_timer
  soft_start_timer-runs timeout reason =
      runs_move _ _ (quiet (assumption refl)) (runs_modify _ (quiet (assumption refl)))

  pub start_timer-runs : (timeout : ℕ) → Runs s (start_timer timeout)
  unfolding start_timer
  start_timer-runs timeout =
      runs_move _ _ (quiet (assumption refl)) (runs_modify _ (quiet (assumption refl)))

  pub stop_timer-runs : Runs s stop_timer
  unfolding stop_timer
  stop_timer-runs =
      runs_move _ _ (quiet (assumption refl)) (runs_modify _ (quiet (assumption refl)))

  pub start_timer_if-runs : Runs s start_timer_if_outstanding_requests
  unfolding start_timer_if_outstanding_requests
  start_timer_if-runs = runs_get _ (
      runs_if _ _ _ (λ _. runs_skip)
        λ _.
          runs_if _ _ _ (λ _. soft_start_timer-runs _ _)
            λ _. runs_if _ _ _ (λ _. runs_modify _ (quiet (assumption refl))) (λ _. runs_skip))

  store_marshalled-runs : (key : Bytes) (raw : Option Bytes) → Runs s (store_marshalled key raw)
  store_marshalled-runs key none = runs_skip
  store_marshalled-runs key (some raw) = runs_modify _ (quiet (assumption refl))

  pub persist_checkpoint-runs : (n : ℕ) (id : Bytes) → Runs s (persist_checkpoint n id)
  unfolding persist_checkpoint
  persist_checkpoint-runs n id = runs_modify _ (quiet (assumption refl))

  pub persist_del_request_batch-runs : (d : Bytes) → Runs s (persist_del_request_batch d)
  unfolding persist_del_request_batch
  persist_del_request_batch-runs d = runs_modify _ (quiet (assumption refl))

  pub persist_del_checkpoint-runs : (n : ℕ) → Runs s (persist_del_checkpoint n)
  unfolding persist_del_checkpoint
  persist_del_checkpoint-runs n = runs_modify _ (quiet (assumption refl))

  pub update_high_state_target-runs : (t : StateUpdateTarget) → Runs s (update_high_state_target t)
  unfolding update_high_state_target
  update_high_state_target-runs t =
      runs_get _ (runs_if _ _ _ (λ _. runs_skip) (λ _. runs_modify _ (quiet (assumption refl))))

  transfer_to-runs : (t : Option StateUpdateTarget) → Runs s (transfer_to t)
  transfer_to-runs none = runs_skip
  transfer_to-runs (some t) =
      runs_move _ _ (quiet (assumption refl)) (runs_modify _ (quiet (assumption refl)))

  pub retry_state_transfer-runs : (t : Option StateUpdateTarget) → Runs s (retry_state_transfer t)
  unfolding retry_state_transfer
  retry_state_transfer-runs t =
      runs_get _ (
        runs_if _ _ _ (λ _. runs_skip)
          λ _. runs_if _ _ _ (λ _. runs_skip) (λ _. transfer_to-runs _))

pub state_transfer-runs : {s : Core} (t : Option StateUpdateTarget) → Runs s (state_transfer t)
unfolding state_transfer
state_transfer-runs t = runs_get _ (
    runs_bind _ _
      (runs_if _ _ _
        (λ _. runs_move _ _ (quiet (assumption refl)) (runs_modify _ (quiet (assumption refl))))
        (λ _. runs_skip))
      (λ _ u. retry_state_transfer-runs t))

module _ (env : Env) where
  send_raw-runs : {s : Core} (raw : Bytes) (b : Option ℕ) → Runs s (send_raw env raw b)
  send_raw-runs raw none = runs_modify _ (quiet (assumption refl))
  send_raw-runs raw (some ignored) = runs_get _ (
      runs_for_each _ _ λ i t.
        runs_get _ (runs_if _ _ _ (λ _. runs_modify _ (quiet (assumption refl))) (λ _. runs_skip)))

  send_marshalled-runs : {s : Core} (raw : Option Bytes) → Runs s (send_marshalled env raw)
  send_marshalled-runs none = runs_skip
  send_marshalled-runs (some raw) = runs_get _ (send_raw-runs raw _)

  pub inner_broadcast-runs : {s : Core} (msg : Message) → Runs s (inner_broadcast env msg)
  unfolding inner_broadcast
  inner_broadcast-runs msg = send_marshalled-runs (env.marshal_message msg)

  pub persist_request_batch-runs : {s : Core} (d : Bytes) → Runs s (persist_request_batch env d)
  unfolding persist_request_batch
  persist_request_batch-runs d = runs_get _ (store_marshalled-runs _ _)

  pub persist_qset-runs : {s : Core} → Runs s (persist_qset env)
  unfolding persist_qset persist_pq_set
  persist_qset-runs = runs_get _ (store_marshalled-runs _ _)

  pub persist_pset-runs : {s : Core} → Runs s (persist_pset env)
  unfolding persist_pset persist_pq_set
  persist_pset-runs = runs_get _ (store_marshalled-runs _ _)

  delete_all-runs : {s : Core} (b : Option (Map Bytes Bytes)) → Runs s (delete_all b)
  delete_all-runs none = runs_skip
  delete_all-runs (some b) = runs_for_each _ _ (λ k t. runs_modify _ (quiet (assumption refl)))

  pub persist_del_all-runs : {s : Core} → Runs s (persist_del_all_request_batches env)
  unfolding persist_del_all_request_batches
  persist_del_all-runs = runs_get _ (delete_all-runs _)
