-- ===== src/Pbft/Replica.antt =====
-- The replica as a whole: `ProcessEvent` of pbft/core.go, and the loop `SendEvent` of
-- pbft/tools/events.go that runs it.
pub mod Rounds
pub mod Ignored
mod Tests
use spree.Base.{ℕ, zero, suc, Option, none, some}
use spree.Pbft.Messages.{RequestBatch, PrePrepare, Prepare, Commit, Checkpoint, ViewChange, NewView}
use spree.Pbft.Core.{Env, InternalEvent, out_of_fuel, M, raise, pure, skip, ◌>>=◌, ◌>>◌}
use spree.Pbft.Calls.{Calls}
use spree.Pbft.Views.{send_view_change, recv_view_change}
use spree.Pbft.Normal.{recv_request_batch, recv_pre_prepare, recv_prepare, recv_commit}
use spree.Pbft.NewView.{recv_new_view}
use spree.Pbft.Checkpoints.{recv_checkpoint}
use spree.Pbft.Execution.{execute_outstanding}

-- What `ProcessEvent` is called with. The last case is every event that it has no case for, such as
-- the timers' events and those that its own handlers return.
pub data Event : Type 0 where
  request_batch : RequestBatch → Event
  pre_prepare : PrePrepare → Event
  prepare : Prepare → Event
  commit : Commit → Event
  checkpoint : Checkpoint → Event
  view_change : ViewChange → Event
  new_view : NewView → Event
  internal : InternalEvent → Event

module _ (env : Env) where
  -- The methods with `fuel` levels of calls below them.
  unfoldable pub calls : ℕ → Calls
  calls zero = record {
    execute_outstanding = raise out_of_fuel;
    recv_request_batch = λ batch. raise out_of_fuel;
    send_view_change = raise out_of_fuel;
  }
  calls (suc fuel) =
      let below = calls fuel in
      record {
        execute_outstanding = execute_outstanding env below;
        recv_request_batch = recv_request_batch env below;
        send_view_change = send_view_change env below;
      }

  -- `ProcessEvent`
  unfoldable pub process_event : ℕ → Event → M (Option InternalEvent)
  process_event fuel (request_batch b) = do recv_request_batch env (calls fuel) (some b); pure none
  process_event fuel (pre_prepare p) = do recv_pre_prepare env (calls fuel) p; pure none
  process_event fuel (prepare p) = do recv_prepare env (calls fuel) p; pure none
  process_event fuel (commit c) = do recv_commit env (calls fuel) c; pure none
  process_event fuel (checkpoint c) = recv_checkpoint env (calls fuel) c
  process_event fuel (view_change vc) = recv_view_change env (calls fuel) vc
  process_event fuel (new_view nv) = recv_new_view env (calls fuel) nv
  process_event fuel (internal e) = pure none

  -- `SendEvent`: the result of an event is the next event, for `rounds` rounds.
  unfoldable pub send_event : ℕ → ℕ → Event → M (Unit {0})
  send_event fuel zero e = raise out_of_fuel
  send_event fuel (suc rounds) e = do
    next ← process_event fuel e
    elim next [ none ↦ skip | some i ↦ send_event fuel rounds (internal i) ]

  -- `SendEvent` run to its end, with the fuel of the event: two rounds are enough, since an event
  -- that the replica itself returns ends the loop.
  abbrev pub send : ℕ × Event → M (Unit {0})
  send (fuel, e) = send_event fuel 2 e
