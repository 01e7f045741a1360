-- ===== src/Pbft/Steps/Checkpoints.antt =====
-- The handlers of checkpoints make moves only.
use spree.Base.{List, add64, ℕ, refl, Option, none, some, Bytes}
use spree.Base.Text.{base64_decode}
use spree.Pbft.Messages.{Checkpoint}
use spree.Pbft.Core.{Core, Env}
use spree.Pbft.Calls.{Calls}
use spree.Pbft.Checkpoints.{
  fall_behind, check_out_of_date, weak_checkpoint_set_out_of_range, witness_target, witness_filled,
  witness_checkpoint_weak_cert, on_checkpoint_quorum, count_checkpoints, recv_checkpoint,
  take_checkpoint,
}
use spree.Pbft.Steps.{quiet, own_checkpoint, store_checkpoint}
use spree.Pbft.Steps.Rules.{
  Runs, runs_pure, runs_skip, runs_raise, runs_if, runs_get, runs_bind, runs_move, not-false,
}
use spree.Pbft.Steps.Helpers.{
  stop_timer-runs, inner_broadcast-runs, persist_checkpoint-runs, persist_del_all-runs,
  update_high_state_target-runs, retry_state_transfer-runs,
}
use spree.Pbft.Steps.Views.{CallsRun}
use spree.Pbft.Steps.NewView.{move_watermarks-runs, process_new_view-runs}

module _ (env : Env) {calls : Calls} (run : CallsRun calls) where
  fall_behind-runs : {s : Core} (m : ℕ) → Runs s (fall_behind env calls m)
  unfolding fall_behind
  fall_behind-runs m = runs_move _ _ (quiet (assumption refl)) (
      runs_bind _ _ (persist_del_all-runs env) λ _ t.
        runs_bind _ _ (move_watermarks-runs run m) λ _ u.
          runs_move _ _ (quiet (assumption refl))
            (runs_move _ _ (quiet (assumption refl)) stop_timer-runs))

  check_out_of_date-runs :
      {s : Core} (m : Option ℕ) → Runs s (check_out_of_date env calls (add64 s.h s.l) m)
  check_out_of_date-runs none = runs_raise _
  check_out_of_date-runs (some m) =
      runs_if _ _ _ (λ _. runs_bind _ _ (fall_behind-runs m) (λ _ t. runs_pure _))
        (λ _. runs_pure _)

  weak_set-runs :
      {s : Core} (c : Checkpoint) → Runs s (weak_checkpoint_set_out_of_range env calls c)
  unfolding weak_checkpoint_set_out_of_range
  weak_set-runs c = runs_get _ (
      runs_if _ _ _ (λ _. runs_move _ _ (quiet (assumption refl)) (runs_pure _))
        λ _. runs_move _ _ (quiet (assumption refl)) (
          runs_get _ (
            runs_if _ _ _ (λ _. runs_pure _)
              λ _. runs_move _ _ (quiet (assumption refl)) (check_out_of_date-runs _))))

  witness_target-runs :
      {s : Core} (c : Checkpoint) (replicas : List ℕ) (id : Option Bytes)
      → Runs s (witness_target env calls c replicas id)
  witness_target-runs c replicas none = runs_skip
  witness_target-runs c replicas (some id) =
      runs_bind _ _ (update_high_state_target-runs _)
        λ _ t. runs_get _ (runs_if _ _ _ (λ _. retry_state_transfer-runs _) (λ _. runs_skip))

  witness_filled-runs :
      {s : Core} (c : Checkpoint) (filled : Option (List ℕ))
      → Runs s (witness_filled env calls c filled)
  witness_filled-runs c none = runs_raise _
  witness_filled-runs c (some replicas) = witness_target-runs c replicas (base64_decode c.id)

  on_checkpoint_quorum-runs :
      {s : Core} (c : Checkpoint) → Runs s (on_checkpoint_quorum env calls c)
  unfolding on_checkpoint_quorum
  on_checkpoint_quorum-runs c = runs_get _ (
      runs_if _ _ _
        (λ _. runs_bind _ _ (move_watermarks-runs run _) (λ _ t. process_new_view-runs env run))
        λ _.
          runs_bind _ _ (runs_if _ _ _ (λ _. move_watermarks-runs run _) (λ _. runs_skip))
            (λ _ t. runs_pure _))

  count_checkpoints-runs : {s : Core} (c : Checkpoint) → Runs s (count_checkpoints env calls c)
  unfolding count_checkpoints witness_checkpoint_weak_cert
  count_checkpoints-runs c = runs_get _ (
      runs_if _ _ _ (λ _. runs_raise _)
        λ _.
          runs_bind _ _
            (runs_if _ _ _
              (λ _. runs_if _ _ _ (λ _. runs_raise _) (λ _. runs_get _ (witness_filled-runs c _)))
              (λ _. runs_skip))
            λ _ t. runs_if _ _ _ (λ _. runs_pure _) (λ _. on_checkpoint_quorum-runs c))

  pub recv_checkpoint-runs : {s : Core} (c : Checkpoint) → Runs s (recv_checkpoint env calls c)
  unfolding recv_checkpoint
  recv_checkpoint-runs c = runs_bind _ _ (weak_set-runs c) λ out t. runs_get _ (
      runs_if _ _ _ (λ _. runs_pure _)
        λ _.
          runs_if _ _ _ (λ _. runs_pure _)
            λ fits. runs_move _ _ (store_checkpoint c (not-false fits)) (count_checkpoints-runs c))

  pub take_checkpoint-runs :
      {s : Core} (n : ℕ) (id : Bytes) → Runs s (take_checkpoint env calls n id)
  unfolding take_checkpoint
  take_checkpoint-runs n id = runs_get _ (
      runs_if _ _ _ (λ _. runs_skip)
        λ _. runs_move _ _ (own_checkpoint _ _) (
          runs_bind _ _ (persist_checkpoint-runs _ _)
            λ _ t. runs_bind _ _ (recv_checkpoint-runs _) (λ _ u. inner_broadcast-runs env _)))
