-- ===== src/Pbft/Steps/Views.antt =====
-- The handlers that leave a view make moves only.
use spree.Base.{refl, Option}
use spree.Pbft.Messages.{RequestBatch, ViewChange}
use spree.Pbft.Core.{Core, Env}
use spree.Pbft.Calls.{Calls}
use spree.Pbft.Views.{
  jump_to_view, report_quorum, count_view_changes, recv_view_change, send_view_change,
}
use spree.Pbft.Steps.{quiet, leave_view, jump, store_view_change}
use spree.Pbft.Steps.Rules.{Runs, runs_pure, runs_if, runs_get, runs_bind, runs_move, not-false}
use spree.Pbft.Steps.Helpers.{start_timer-runs, stop_timer-runs, inner_broadcast-runs}

-- The methods behind the interface make moves only.
pub record CallsRun (calls : Calls) : Type 0 where
  pub execute_outstanding : (s : Core) → Runs s calls.execute_outstanding
  pub recv_request_batch :
      (batch : Option RequestBatch) (s : Core) → Runs s (calls.recv_request_batch batch)
  pub send_view_change : (s : Core) → Runs s calls.send_view_change

module _ (env : Env) {calls : Calls} (run : CallsRun calls) where
  count_view_changes-runs : {s : Core} (vc : ViewChange) → Runs s (count_view_changes env calls vc)
  unfolding count_view_changes jump_to_view report_quorum
  count_view_changes-runs vc = runs_get _ (
      runs_if _ _ _ (λ _. runs_move _ _ (jump _) (run.send_view_change _))
        λ _.
          runs_if _ _ _
            (λ _. runs_get _ (
              runs_move _ _ (quiet (assumption refl)) (
                runs_bind _ _ (start_timer-runs _)
                  λ _ t. runs_move _ _ (quiet (assumption refl)) (runs_pure _))))
            (λ _. runs_pure _))

  pub recv_view_change-runs : {s : Core} (vc : ViewChange) → Runs s (recv_view_change env calls vc)
  unfolding recv_view_change
  recv_view_change-runs vc = runs_get _ (
      runs_if _ _ _ (λ _. runs_pure _)
        λ _.
          runs_if _ _ _ (λ _. runs_pure _)
            λ _.
              runs_if _ _ _ (λ _. runs_pure _)
                λ right.
                  runs_if _ _ _ (λ _. runs_pure _)
                    λ _.
                      runs_move _ _ (store_view_change _ _ (not-false right))
                        (count_view_changes-runs vc))

  pub send_view_change-runs : {s : Core} → Runs s (send_view_change env calls)
  unfolding send_view_change
  send_view_change-runs = runs_bind _ _ stop_timer-runs λ _ t. runs_move _ _ leave_view (
      runs_get _ (
        runs_bind _ _ (inner_broadcast-runs env _)
          λ _ u. runs_move _ _ (quiet (assumption refl)) (recv_view_change-runs _)))
