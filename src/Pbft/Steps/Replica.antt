-- ===== src/Pbft/Steps/Replica.antt =====
-- Whatever the event and the fuel, `ProcessEvent` and `SendEvent` make moves only.
use spree.Base.{ℕ, zero, suc}
use spree.Pbft.Core.{Core, Env, final}
use spree.Pbft.Replica.{
  Event, request_batch, pre_prepare, prepare, commit, checkpoint, view_change, new_view, internal,
  calls, process_event,
}
use spree.Pbft.Steps.{Reach}
use spree.Pbft.Steps.Rules.{Runs, runs_pure, runs_raise, runs_bind}
use spree.Pbft.Steps.Views.{CallsRun, recv_view_change-runs, send_view_change-runs}
use spree.Pbft.Steps.Normal.{
  recv_request_batch-runs, recv_pre_prepare-runs, recv_prepare-runs, recv_commit-runs,
}
use spree.Pbft.Steps.NewView.{recv_new_view-runs}
use spree.Pbft.Steps.Checkpoints.{recv_checkpoint-runs}
use spree.Pbft.Steps.Execution.{execute_outstanding-runs}

module _ (env : Env) where
  pub calls-run : (fuel : ℕ) → CallsRun (calls env fuel)
  unfolding calls
  calls-run zero = record {
    execute_outstanding = λ s. runs_raise _;
    recv_request_batch = λ b s. runs_raise _;
    send_view_change = λ s. runs_raise _;
  }
  calls-run (suc fuel) =
      let below = calls-run fuel in
      record {
        execute_outstanding = λ s. execute_outstanding-runs env below;
        recv_request_batch = λ b s. recv_request_batch-runs env below b;
        send_view_change = λ s. send_view_change-runs env below;
      }

  pub process_event-runs : {s : Core} (fuel : ℕ) (e : Event) → Runs s (process_event env fuel e)
  unfolding process_event
  process_event-runs fuel (request_batch b) =
      runs_bind _ _ (recv_request_batch-runs env (calls-run fuel) _) (λ _ t. runs_pure _)
  process_event-runs fuel (pre_prepare p) =
      runs_bind _ _ (recv_pre_prepare-runs env (calls-run fuel) _) (λ _ t. runs_pure _)
  process_event-runs fuel (prepare p) =
      runs_bind _ _ (recv_prepare-runs env (calls-run fuel) _) (λ _ t. runs_pure _)
  process_event-runs fuel (commit c) =
      runs_bind _ _ (recv_commit-runs env (calls-run fuel) _) (λ _ t. runs_pure _)
  process_event-runs fuel (checkpoint c) = recv_checkpoint-runs env (calls-run fuel) c
  process_event-runs fuel (view_change vc) = recv_view_change-runs env (calls-run fuel) vc
  process_event-runs fuel (new_view nv) = recv_new_view-runs env (calls-run fuel) nv
  process_event-runs fuel (internal e) = runs_pure _

  -- For every event, fuel and state, all that `ProcessEvent` does up to its end or to a fault is a
  -- sequence of the moves of `Step`.
  pub process_event-Reach :
      (fuel : ℕ) (e : Event) (s : Core) → Reach s (final (process_event env fuel e s))
  process_event-Reach fuel e s = (process_event-runs fuel e).reach
