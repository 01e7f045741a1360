-- ===== src/Pbft/Invariants/Tests.antt =====
-- Runs of a replica that the invariants are applied to.
use spree.Base.{none, ◌≡◌, refl, true, false, some, [], ◌∷◌, any, list_eq, ◌==◌, nat_eq, arith}
use spree.Base.Map.{keys, lookup}
use spree.Pbft.Messages.{RequestBatch, MsgId, msg_id_eq}
use spree.Pbft.Core.{Core, final, ◌>>=◌}
use spree.Pbft.Cert.{get_cert, committed}
use spree.Pbft.Execution.{execute_outstanding, try_each, execute_one, start_execution}
use spree.Pbft.Replica.{calls}
use spree.Pbft.Steps.{executions}
use spree.Pbft.Invariants.Liveness.{is_ready, batch_of, execute_outstanding-executes}
use spree.Pbft.Timers.{start_timer_if_outstanding_requests}
use spree.Pbft.Tests.{third_commit-AreSound}
use spree.Pbft.Invariants.Handovers.{IsBacked, execute_outstanding-IsBacked}
use spree.Pbft.Fixtures.{mute, third_commit}

abbrev seven_batch : RequestBatch
seven_batch = record { batch = [] }

-- The batch with its third commit, in the store.
abbrev with_batch : Core
with_batch = record third_commit { req_batch_store = (7 ∷ [], some seven_batch) ∷ [] }

third_commit_full :
    (idx : MsgId)
    → is_ready with_batch idx ≡ true
    → ((get_cert with_batch idx).digest == []) ≡ false
unfolding lookup get_cert
third_commit_full idx h = ground arith

third_commit_ready : any (is_ready with_batch) (keys with_batch.cert_store) ≡ true
unfolding lookup committed
third_commit_ready = refl

execute_outstanding-executes_example :
    let t = final (execute_outstanding mute (calls mute 5) with_batch) in
    (idx : MsgId) × (is_ready with_batch idx ≡ true)
    × (t.current_exec ≡ some idx.n)
    × (executions t.out ≡ (idx.n, batch_of with_batch idx) ∷ [])
execute_outstanding-executes_example =
    execute_outstanding-executes mute (calls mute 5) with_batch refl third_commit_full
      third_commit_ready

third_commit_hands_over :
    executions (final (execute_outstanding mute (calls mute 5) with_batch)).out
    ≡ (1, some seven_batch) ∷ []
unfolding execute_outstanding try_each execute_one start_execution
    start_timer_if_outstanding_requests committed get_cert lookup ◌>>=◌
third_commit_hands_over = refl

execute_outstanding-IsBacked_example :
    (with_batch.current_exec ≡ none) × IsBacked with_batch 1 (some seven_batch)
execute_outstanding-IsBacked_example =
    execute_outstanding-IsBacked mute (calls mute 5) with_batch 1 (some seven_batch)
      third_commit-AreSound third_commit_full third_commit_hands_over
