-- ===== src/Pbft/Hashes/Restored.antt =====
-- The stored batches of a replica that restarts, `restoreState` of pbft/pbft.go.
use spree.Base.{
  ℕ, ◌≡◌, refl, sym, subst, ◌∙◌, Option, none, some, List, [], ◌∷◌, Bytes, All, codes, list_eq, leb,
  if_cases,
}
use spree.Base.Map.{Map, lookup, put, All-put}
use spree.Pbft.Messages.{RequestBatch, PqEntry}
use spree.Pbft.Core.{Core, Config, Env, Outcome, ok, fault, final, and_then, modify, ◌>>=◌}
use spree.Pbft.Persist.{hash}
use spree.Pbft.Quorum.{update_view_change_seq_no}
use spree.Pbft.Calls.{Calls}
use spree.Pbft.Replica.{Event, calls}
use spree.Pbft.Invariants.Execution.{process_all}
use spree.Pbft.Init.{
  Settings, Stored, infinity, configure, fresh, put_batches, put_chkpts, update_seq_view,
  restore_sets, restore_batches, restore_before_chkpts, restore_chkpts, restore_state,
  new_pbft_core,
}
use spree.Pbft.Init.Sound.{built}
use spree.Pbft.Hashes.{IsHashed, AreHashed, CallsKeep}
use spree.Pbft.Hashes.NewView.{move_watermarks-KeepsHashes}
use spree.Pbft.Hashes.Events.{calls-keep, process_all-hashed}

update_seq_view-batches :
    (es : List PqEntry) (s : Core) → (update_seq_view es s).req_batch_store ≡ s.req_batch_store
unfolding update_seq_view
update_seq_view-batches [] s = refl
update_seq_view-batches (e ∷ es) s = update_seq_view-batches es _

module _ (env : Env) (stored : Stored) where
  -- One stored batch, and the rest of the loop.
  put_one-AreHashed :
      (o : Option RequestBatch) (rest : Map Bytes Bytes) (m : Map Bytes (Option RequestBatch))
      → ((m : Map Bytes (Option RequestBatch))
          → All (IsHashed env) m
          → All (IsHashed env) (put_batches stored env rest m))
      → All (IsHashed env) m
      → All (IsHashed env) (elim o [
        | none ↦ put_batches stored env rest m
        | some b ↦ put_batches stored env rest (put (hash env (some b)) (some b) m)
      ])
  put_one-AreHashed none rest m go h = go m h
  put_one-AreHashed (some b) rest m go h =
      go (put (hash env (some b)) (some b) m)
        (All-put (IsHashed env) (hash env (some b)) (some b) m refl h)

  put_batches-AreHashed :
      (raws : Map Bytes Bytes) (m : Map Bytes (Option RequestBatch))
      → All (IsHashed env) m
      → All (IsHashed env) (put_batches stored env raws m)
  put_batches-AreHashed [] m h = h
  put_batches-AreHashed ((k, raw) ∷ rest) m h =
      put_one-AreHashed (stored.unmarshal_request_batch raw) rest m (put_batches-AreHashed rest) h

  restore_sets-batches : (c : Config) → (restore_sets stored (fresh c)).req_batch_store ≡ []
  unfolding restore_sets fresh
  restore_sets-batches c = update_seq_view-batches _ _ ∙ update_seq_view-batches _ _

  before-AreHashed : (c : Config) → AreHashed env (restore_before_chkpts env stored (fresh c))
  unfolding restore_before_chkpts restore_batches
  before-AreHashed c = record {
    hashed =
        put_batches-AreHashed _ _ (subst (All (IsHashed env)) (sym (restore_sets-batches c)) tt);
  }

  restore_chkpts-AreHashed :
      {calls : Calls} (k : CallsKeep env calls) (o : Option (Map Bytes Bytes)) (s : Core)
      → AreHashed env s
      → AreHashed env (final (restore_chkpts env stored calls o s))
  unfolding ◌>>=◌
  restore_chkpts-AreHashed k none s h = h
  restore_chkpts-AreHashed k (some saved) s h =
      let r = put_chkpts saved s.chkpts s.last_exec in
      (move_watermarks-KeepsHashes env k r.1).keeps (record s { chkpts = r.0 })
        (record { hashed = h.hashed })

  -- The number of the next view change is set on the state that is restored.
  finish-AreHashed :
      (o : Outcome (Unit {0}))
      → AreHashed env (final o)
      → AreHashed env (
          final (
            and_then o (λ _.
              modify
                (λ s. update_view_change_seq_no (record s { view_change_seq_no = infinity })))))
  unfolding ◌>>=◌ update_view_change_seq_no
  finish-AreHashed (ok a s) h = record {
    hashed =
        if_cases (λ (t : Core). All (IsHashed env) t.req_batch_store) (leb s.view_change_period 0) _
          _ (λ off. h.hashed) (λ on. h.hashed);
  }
  finish-AreHashed (fault x s) h = h

-- Whatever the store gives back, and whatever fuel there is: where the constructor does not panic, a
-- batch that the new replica finds under a digest, after any events that it then processes, has that
-- digest as its hash, whether the batch was restored or has come with an event.
pub new_pbft_core-hashed :
    (env : Env) (stored : Stored) (fuel id : ℕ) (settings : Settings) (c : Config)
    (o : Outcome (Unit {0})) (es : List (ℕ × Event)) (digest : Bytes) (batch : Option RequestBatch)
    → configure id settings ≡ some c
    → new_pbft_core env stored (calls env fuel) id settings ≡ some o
    → lookup digest (process_all env es (final o)).req_batch_store ≡ some batch
    → hash env batch ≡ digest
unfolding new_pbft_core restore_state ◌>>=◌
new_pbft_core-hashed env stored fuel id settings c o es digest batch con new found =
    let before = before-AreHashed env stored c in
    let restored =
      restore_chkpts-AreHashed env stored (calls-keep env fuel)
        (stored.read_state_set (codes "chkpt.")) _ before in
    let made =
      subst (λ r. AreHashed env (final r)) (built _ (configure id settings) c o con new)
        (finish-AreHashed env stored (restore_state env stored (calls env fuel) (fresh c))
          restored) in
    process_all-hashed env es (final o) digest batch made found
