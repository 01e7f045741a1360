-- ===== src/Pbft/Steps/NewView.antt =====
-- The handlers that enter a view, and those that move the watermarks, make moves only.
use spree.Base.{ℕ, refl, sym, ap, arith, Option, none, some, List, Bytes}
use spree.Base.Map.{Map}
use spree.Base.Text.{base64_decode}
use spree.Pbft.Messages.{CEntry, NewView, MsgId}
use spree.Pbft.Core.{Core, Env, MsgCert}
use spree.Pbft.Quorum.{update_view_change_seq_no}
use spree.Pbft.Calls.{Calls}
use spree.Pbft.Watermarks.{drop_batch, drop_checkpoint, resubmit_request_batches, move_watermarks}
use spree.Pbft.Select.{Choice, select_initial_checkpoint}
use spree.Pbft.NewView.{
  assign_pre_prepare, prepare_assigned, process_new_view2, fetch_request_batches, request_missing,
  transfer_decoded, transfer_to_checkpoint, adopt_new_view, check_assignment, process_stored,
  process_new_view, recv_new_view,
}
use spree.Pbft.Steps.{Step, quiet, activate, assign, mark_prepare, clean}
use spree.Pbft.Steps.Rules.{
  Runs, runs_pure, runs_skip, runs_raise, runs_if, runs_get, runs_bind, runs_move, runs_modify,
  runs_for_each, runs_bind_ok, after,
}
use spree.Pbft.Steps.Settings.{Reach-config}
use spree.Pbft.Steps.Helpers.{
  stop_timer-runs, start_timer_if-runs, inner_broadcast-runs, persist_qset-runs,
  persist_del_request_batch-runs, persist_del_checkpoint-runs, update_high_state_target-runs,
  state_transfer-runs,
}
use spree.Pbft.Steps.Views.{CallsRun, send_view_change-runs}
use spree.Pbft.Steps.Normal.{recv_prepare-runs}

update_view_change_seq_no-step : (s : Core) → Step s (update_view_change_seq_no s)
unfolding update_view_change_seq_no
update_view_change_seq_no-step s = quiet (ground arith)

drop_batch-runs : {s : Core} (h : ℕ) (e : MsgId × MsgCert) → Runs s (drop_batch h e)
unfolding drop_batch
drop_batch-runs h (idx, cert) =
    runs_if _ _ _
      (λ _.
        runs_bind _ _ (persist_del_request_batch-runs _)
          (λ _ t. runs_modify _ (quiet (assumption refl))))
      (λ _. runs_skip)

drop_checkpoint-runs : {s : Core} (h n : ℕ) → Runs s (drop_checkpoint h n)
unfolding drop_checkpoint
drop_checkpoint-runs h n = runs_if _ _ _ (λ _. persist_del_checkpoint-runs _) (λ _. runs_skip)

module _ {calls : Calls} (run : CallsRun calls) where
  resubmit_request_batches-runs : {s : Core} → Runs s (resubmit_request_batches calls)
  unfolding resubmit_request_batches
  resubmit_request_batches-runs =
      runs_get _ (
        runs_if _ _ _ (λ _. runs_skip) (λ _. runs_for_each _ _ (λ b t. run.recv_request_batch b t)))

  pub move_watermarks-runs : {s : Core} (n : ℕ) → Runs s (move_watermarks calls n)
  unfolding move_watermarks
  move_watermarks-runs n = runs_get _ (
      runs_bind_ok _ _ (runs_for_each _ _ (λ e t. drop_batch-runs _ e)) λ _ t d p.
        runs_bind_ok _ _ (runs_for_each _ _ (λ m u. drop_checkpoint-runs _ m)) λ _ u e q.
          runs_move _ _ (clean n _ (ap (λ c. c.k) (sym (Reach-config (after p q)))))
            resubmit_request_batches-runs)

module _ (env : Env) {calls : Calls} (run : CallsRun calls) where
  assign_pre_prepare-runs : {s : Core} (e : ℕ × Bytes) → Runs s (assign_pre_prepare env calls e)
  unfolding assign_pre_prepare
  assign_pre_prepare-runs (n, d) = runs_get _ (
      runs_if _ _ _ (λ _. runs_skip)
        λ _.
          runs_if _ _ _ (λ _. runs_raise _)
            λ _.
              runs_move _ _ (assign _ _ _ refl refl)
                (runs_move _ _ (quiet (assumption refl)) (persist_qset-runs env)))

  prepare_assigned-runs : {s : Core} (e : ℕ × Bytes) → Runs s (prepare_assigned env calls e)
  unfolding prepare_assigned
  prepare_assigned-runs (n, d) = runs_get _ (
      runs_bind _ _
        (runs_if _ _ _ (λ _. runs_move _ _ (mark_prepare _) (recv_prepare-runs env run _))
          (λ _. runs_skip))
        (λ _ t. inner_broadcast-runs env _))

  process_new_view2-runs : {s : Core} (nv : NewView) → Runs s (process_new_view2 env calls nv)
  unfolding process_new_view2
  process_new_view2-runs nv = runs_bind _ _ stop_timer-runs λ _ t.
      runs_move _ _ (quiet (assumption refl)) (
        runs_move _ _ (activate (assumption refl)) (
          runs_bind _ _ (runs_for_each _ _ (λ e u. assign_pre_prepare-runs e)) λ _ u.
            runs_move _ _ (update_view_change_seq_no-step u) (
              runs_get _ (
                runs_bind _ _
                  (runs_if _ _ _ (λ _. runs_for_each _ _ (λ e w. prepare_assigned-runs e))
                    (λ _. resubmit_request_batches-runs run))
                  λ _ w. runs_bind _ _ start_timer_if-runs (λ _ x. runs_pure _)))))

  fetch_request_batches-runs : {s : Core} → Runs s (fetch_request_batches env calls)
  unfolding fetch_request_batches
  fetch_request_batches-runs = runs_get _ (runs_for_each _ _ (λ d t. inner_broadcast-runs env _))

  request_missing-runs : {s : Core} (nv : NewView) → Runs s (request_missing env calls nv)
  unfolding request_missing
  request_missing-runs nv = runs_get _ (
      runs_move _ _ (quiet (assumption refl)) (
        runs_if _ _ _ (λ _. process_new_view2-runs nv)
          λ _.
            runs_bind _ _ (runs_if _ _ _ (λ _. fetch_request_batches-runs) (λ _. runs_skip))
              (λ _ t. runs_pure _)))

  transfer_decoded-runs :
      {s : Core} (nv : NewView) (cp : CEntry) (replicas : List ℕ) (id : Option Bytes)
      → Runs s (transfer_decoded env calls nv cp replicas id)
  transfer_decoded-runs nv cp replicas none = runs_pure _
  transfer_decoded-runs nv cp replicas (some id) =
      runs_bind _ _ (update_high_state_target-runs _)
        λ _ t. runs_bind _ _ (state_transfer-runs _) (λ _ u. request_missing-runs nv)

  adopt_new_view-runs :
      {s : Core} (nv : NewView) (cp : CEntry) (replicas : List ℕ)
      → Runs s (adopt_new_view env calls nv cp replicas)
  unfolding adopt_new_view transfer_to_checkpoint
  adopt_new_view-runs nv cp replicas = runs_get _ (
      runs_bind _ _ (runs_if _ _ _ (λ _. move_watermarks-runs run _) (λ _. runs_skip)) λ _ t.
        runs_if _ _ _ (λ _. transfer_decoded-runs nv cp replicas (base64_decode cp.id))
          (λ _. request_missing-runs nv))

  check_assignment-runs :
      {s : Core} (nv : NewView) (ch : Choice) (m : Option (Map ℕ Bytes))
      → Runs s (check_assignment env calls nv ch m)
  check_assignment-runs nv ch none = send_view_change-runs env run
  check_assignment-runs nv ch (some m) =
      runs_if _ _ _ (λ _. send_view_change-runs env run) (λ _. adopt_new_view-runs nv _ _)

  process_stored-runs : {s : Core} (nv : Option NewView) → Runs s (process_stored env calls nv)
  process_stored-runs none = runs_pure _
  process_stored-runs {s} (some nv) = runs_get _ (
      runs_if _ _ _ (λ _. runs_pure _)
        λ _.
          runs_if _ _ _ (λ _. send_view_change-runs env run)
            λ _.
              runs_if _ _ _ (λ _. runs_pure _)
                (λ _. check_assignment-runs nv (select_initial_checkpoint s.config nv.vset) _))

  pub process_new_view-runs : {s : Core} → Runs s (process_new_view env calls)
  unfolding process_new_view
  process_new_view-runs = runs_get _ (process_stored-runs _)

  pub recv_new_view-runs : {s : Core} (nv : NewView) → Runs s (recv_new_view env calls nv)
  unfolding recv_new_view
  recv_new_view-runs nv = runs_get _ (
      runs_if _ _ _ (λ _. runs_pure _)
        λ _.
          runs_if _ _ _ (λ _. runs_pure _)
            λ _. runs_move _ _ (quiet (assumption refl)) process_new_view-runs)
