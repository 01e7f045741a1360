-- ===== src/Pbft/Hashes/Events.antt =====
-- The stored batches after any events (pbft/core.go).
use spree.Base.{ℕ, zero, suc, ◌≡◌, List, [], ◌∷◌, Option, some, Bytes, list_eq}
use spree.Base.Map.{lookup, All-lookup}
use spree.Pbft.Messages.{RequestBatch}
use spree.Pbft.Core.{Core, Env}
use spree.Pbft.Persist.{hash}
use spree.Pbft.Replica.{
  Event, request_batch, pre_prepare, prepare, commit, checkpoint, view_change, new_view, internal,
  calls, process_event,
}
use spree.Pbft.Invariants.Execution.{process_all}
use spree.Pbft.Hashes.{
  IsHashed, AreHashed, KeepsHashes, CallsKeep, pure-KeepsHashes, raise-KeepsHashes, hash_rules,
}
use spree.Pbft.Hashes.Views.{recv_view_change-KeepsHashes, send_view_change-KeepsHashes}
use spree.Pbft.Hashes.Normal.{
  recv_request_batch-KeepsHashes, recv_pre_prepare-KeepsHashes, recv_prepare-KeepsHashes,
  recv_commit-KeepsHashes,
}
use spree.Pbft.Hashes.NewView.{recv_new_view-KeepsHashes}
use spree.Pbft.Hashes.Execution.{recv_checkpoint-KeepsHashes, execute_outstanding-KeepsHashes}

module _ (env : Env) where
  pub calls-keep : (fuel : ℕ) → CallsKeep env (calls env fuel)
  unfolding calls
  calls-keep zero = record {
    execute_outstanding = raise-KeepsHashes _;
    recv_request_batch = λ batch. raise-KeepsHashes _;
    send_view_change = raise-KeepsHashes _;
  }
  calls-keep (suc fuel) =
      let below = calls-keep fuel in
      record {
        execute_outstanding = execute_outstanding-KeepsHashes env below;
        recv_request_batch = recv_request_batch-KeepsHashes env below;
        send_view_change = send_view_change-KeepsHashes env below;
      }

  process_event-KeepsHashes : (fuel : ℕ) (e : Event) → KeepsHashes env (process_event env fuel e)
  unfolding process_event
  process_event-KeepsHashes fuel (request_batch b) =
      search (hash_rules, recv_request_batch-KeepsHashes, calls-keep)
  process_event-KeepsHashes fuel (pre_prepare p) =
      search (hash_rules, recv_pre_prepare-KeepsHashes, calls-keep)
  process_event-KeepsHashes fuel (prepare p) =
      search (hash_rules, recv_prepare-KeepsHashes, calls-keep)
  process_event-KeepsHashes fuel (commit m) =
      search (hash_rules, recv_commit-KeepsHashes, calls-keep)
  process_event-KeepsHashes fuel (checkpoint m) =
      recv_checkpoint-KeepsHashes env (calls-keep fuel) m
  process_event-KeepsHashes fuel (view_change vc) =
      recv_view_change-KeepsHashes env (calls-keep fuel) vc
  process_event-KeepsHashes fuel (new_view nv) = recv_new_view-KeepsHashes env (calls-keep fuel) nv
  process_event-KeepsHashes fuel (internal i) = pure-KeepsHashes _

  process_all-keeps :
      (es : List (ℕ × Event)) (s : Core) → AreHashed env s → AreHashed env (process_all env es s)
  unfolding process_all
  process_all-keeps [] s h = h
  process_all-keeps ((fuel, e) ∷ es) s h =
      process_all-keeps es _ ((process_event-KeepsHashes fuel e).keeps s h)

-- Whatever events are processed, with whatever fuel, if every stored batch was under its hash, then
-- a batch that is found afterwards under a digest, as `executeOne` finds the one it hands over, has
-- that digest as its hash.
pub process_all-hashed :
    (env : Env) (es : List (ℕ × Event)) (s : Core) (digest : Bytes) (batch : Option RequestBatch)
    → AreHashed env s
    → lookup digest (process_all env es s).req_batch_store ≡ some batch
    → hash env batch ≡ digest
process_all-hashed env es s digest batch h found =
    All-lookup (IsHashed env) digest batch (process_all env es s).req_batch_store found
      (process_all-keeps env es s h).hashed
