-- ===== src/Pbft/Init/Tests.antt =====
-- A replica that restarts with a stored checkpoint.
use spree.Base.{
  mul64, ◌*◌, codes, if◌then◌else◌, list_eq, ◌+◌, ◌≤◌, ◌≡◌, refl, none, some, [], ◌∷◌, Bytes, arith,
  nat_eq, ◌==◌,
}
use spree.Base.Map.{Map, keep_if, lookup, put}
use spree.Pbft.Messages.{msg_id_eq}
use spree.Pbft.Core.{◌>>=◌, ◌>>◌, for_each, modify, Outcome, final}
use spree.Pbft.Quorum.{primary}
use spree.Pbft.Replica.{calls}
use spree.Pbft.Invariants.Execution.{process_all}
use spree.Pbft.Watermarks.{clean_stores, move_watermarks, resubmit_request_batches, drop_checkpoint}
use spree.Pbft.Init.{
  Stored, infinity, configure, fresh, update_seq_view, put_chkpts, restore_pq_set,
  restore_before_chkpts, restore_state, new_pbft_core,
}
use spree.Pbft.Init.Sound.{IsProper, new_pbft_core-IsProper}
use spree.Pbft.Init.Restored.{restore_state-persisted}
use spree.Base.Scan.{scan_after}
use spree.Base.Text.{decimal, base64_encode}
use spree.Pbft.Persist.{checkpoint_key, persist_del_checkpoint}
use spree.Pbft.Quorum.{update_view_change_seq_no}
use spree.Pbft.Fixtures.{four, mute, last_commit, settings_of_four}

-- A checkpoint at 10 is stored, and the last execution.
abbrev saved_chkpts : Map Bytes Bytes
saved_chkpts = (codes "chkpt.10", 1 ∷ []) ∷ []

abbrev stored_chkpt : Stored
stored_chkpt = record {
  read_state = λ key. none;
  read_state_set = λ prefix. some (if prefix == codes "chkpt." then saved_chkpts else []);
  last_seq_no = some 13;
  unmarshal_pq_set = λ raw. none;
  unmarshal_request_batch = λ raw. none;
}

abbrev new_four : Outcome (Unit {0})
new_four =
    (restore_state mute stored_chkpt (calls mute 5)
        >> modify (λ s. update_view_change_seq_no (record s { view_change_seq_no = infinity })))
      (fresh four)

four_configured : configure 1 settings_of_four ≡ some four
unfolding configure
four_configured = refl

new_four_made : new_pbft_core mute stored_chkpt (calls mute 5) 1 settings_of_four ≡ some new_four
unfolding new_pbft_core configure
new_four_made = refl

-- The new replica is at the watermark of the checkpoint.
new_four_at_ten : (final new_four).h ≡ 10
unfolding restore_state restore_before_chkpts fresh update_seq_view put_chkpts scan_after put lookup
    move_watermarks resubmit_request_batches drop_checkpoint clean_stores keep_if
    update_view_change_seq_no primary base64_encode restore_pq_set persist_del_checkpoint ◌>>=◌
    for_each
new_four_at_ten = refl

new_pbft_core-IsProper_example :
    (3 * four.f + 1 ≤ four.n)
    × (four.l ≡ mul64 four.log_multiplier four.k)
    × (four.replica_count ≡ four.n)
    × IsProper four (process_all mute last_commit (final new_four))
new_pbft_core-IsProper_example =
    new_pbft_core-IsProper mute stored_chkpt 5 1 settings_of_four four new_four last_commit
      four_configured new_four_made

chkpt_ten_saved : lookup (checkpoint_key 10) saved_chkpts ≡ some (1 ∷ [])
unfolding lookup decimal
chkpt_ten_saved = refl

restore_state-persisted_example :
    let t = final (restore_state mute stored_chkpt (calls mute 5) (fresh four)) in
    (lookup 10 t.chkpts ≡ some (base64_encode (1 ∷ []))) × (t.h ≤ 10)
restore_state-persisted_example =
    restore_state-persisted mute stored_chkpt (calls mute 5) four saved_chkpts 10 (1 ∷ []) refl
      (omega arith) (λ e. refl, tt) chkpt_ten_saved
