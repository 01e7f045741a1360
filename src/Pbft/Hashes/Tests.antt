-- ===== src/Pbft/Hashes/Tests.antt =====
-- A primary that receives a request batch, where the hash is the identity and batches are encoded
-- by their number.
use spree.Base.{
  none, ◌==◌, nat_eq, if◌then◌else◌, ℕ, ◌≡◌, refl, some, List, [], ◌∷◌, list_eq, codes,
}
use spree.Base.Map.{lookup, put, keep_if}
use spree.Base.Text.{base64_encode}
use spree.Pbft.Messages.{RequestBatch}
use spree.Pbft.Core.{Env, Outcome, final, modify, for_each, ◌>>=◌, ◌>>◌}
use spree.Pbft.Quorum.{primary, update_view_change_seq_no}
use spree.Pbft.Timers.{soft_start_timer}
use spree.Pbft.Normal.{recv_request_batch}
use spree.Pbft.Persist.{hash, persist_request_batch, persist_del_checkpoint}
use spree.Pbft.Replica.{Event, request_batch, process_event, calls}
use spree.Pbft.Invariants.Execution.{process_all}
use spree.Pbft.Watermarks.{clean_stores, move_watermarks, resubmit_request_batches, drop_checkpoint}
use spree.Pbft.Init.{
  Stored, infinity, configure, fresh, update_seq_view, put_chkpts, restore_pq_set, restore_sets,
  restore_batches, restore_before_chkpts, restore_state, new_pbft_core,
}
use spree.Pbft.Hashes.Restored.{new_pbft_core-hashed}
use spree.Pbft.Hashes.Events.{process_all-hashed}
use spree.Pbft.Fixtures.{idle, mute, four, settings_of_four}

abbrev sevens : Env
sevens = record mute { marshal_request_batch = λ b. some (7 ∷ []) }

abbrev no_requests : RequestBatch
no_requests = record { batch = [] }

abbrev one_batch : List (ℕ × Event)
one_batch = (3, request_batch no_requests) ∷ []

is_stored :
    lookup (codes "Bw==") (process_all sevens one_batch idle).req_batch_store
    ≡ some (some no_requests)
unfolding process_all process_event recv_request_batch hash persist_request_batch soft_start_timer
    primary base64_encode lookup put ◌>>=◌
is_stored = refl

process_all-hashed_example : hash sevens (some no_requests) ≡ codes "Bw=="
process_all-hashed_example =
    process_all-hashed sevens one_batch idle (codes "Bw==") (some no_requests)
      (record { hashed = tt }) is_stored

-- A store with one request batch.
abbrev with_stored_batch : Stored
with_stored_batch = record {
  read_state = λ key. none;
  read_state_set = λ prefix.
      some (if prefix == codes "reqBatch." then (codes "reqBatch.x", 7 ∷ []) ∷ [] else []);
  last_seq_no = none;
  unmarshal_pq_set = λ raw. none;
  unmarshal_request_batch = λ raw. some no_requests;
}

abbrev restarted : Outcome (Unit {0})
restarted =
    (restore_state sevens with_stored_batch (calls sevens 5)
        >> modify (λ s. update_view_change_seq_no (record s { view_change_seq_no = infinity })))
      (fresh four)

four_configured : configure 1 settings_of_four ≡ some four
unfolding configure
four_configured = refl

restarted_made :
    new_pbft_core sevens with_stored_batch (calls sevens 5) 1 settings_of_four ≡ some restarted
unfolding new_pbft_core configure
restarted_made = refl

is_restored :
    lookup (codes "Bw==") (process_all sevens [] (final restarted)).req_batch_store
    ≡ some (some no_requests)
unfolding process_all restore_state restore_before_chkpts restore_sets restore_batches
    restore_pq_set fresh update_seq_view put_chkpts put lookup move_watermarks
    resubmit_request_batches drop_checkpoint persist_del_checkpoint clean_stores keep_if
    update_view_change_seq_no primary hash base64_encode for_each ◌>>=◌
is_restored = refl

new_pbft_core-hashed_example : hash sevens (some no_requests) ≡ codes "Bw=="
new_pbft_core-hashed_example =
    new_pbft_core-hashed sevens with_stored_batch 5 1 settings_of_four four restarted []
      (codes "Bw==") (some no_requests) four_configured restarted_made is_restored
