-- ===== src/Pbft/Steps.antt =====
-- The atomic moves of a replica, as a relation on its states: what the handlers of pbft/core.go
-- write, and the tests that stand before each write. The children put the methods together from
-- moves, one file for the methods of one component.
pub mod Rules
pub mod Settings
pub mod Helpers
pub mod Views
pub mod Normal
pub mod NewView
pub mod Checkpoints
pub mod Execution
pub mod Replica
use spree.Base.{
  ℕ, ◌+◌, ◌≤◌, ◌⊎◌, u64_mod, ◌*◌, ◌/◌, ◌≡◌, true, false, Option, none, some, List, [], ◌∷◌, ◌++◌,
  Bytes, any, add64, ◌==◌, nat_eq,
}
use spree.Base.Map.{put}
use spree.Pbft.Messages.{
  RequestBatch, PrePrepare, Prepare, Commit, Checkpoint, ViewChange, MsgId, Vcidx, checkpoint_eq,
  vcidx_eq,
}
use spree.Pbft.Core.{Core, Effect, execute}
use spree.Pbft.Quorum.{primary, in_w, in_wv}
use spree.Pbft.Cert.{get_cert, update_cert, committed}
use spree.Pbft.Watermarks.{clean_stores}
use spree.Pbft.Select.{correct_view_change}
use spree.Pbft.Views.{enter_next_view}
use spree.Pbft.Normal.{msg_id, is_same_sender_prepare, is_same_sender_commit}

-- The batches handed to the consumer, each with its number, the newest first.
abbrev pub executions : List Effect → List (ℕ × Option RequestBatch)
executions [] = []
executions (execute n b ∷ rest) = (n, b) ∷ executions rest
executions (_ ∷ rest) = executions rest

-- The two states agree on all that the protocol's rules speak of.
pub record SameLog (s t : Core) : Type 0 where
  pub config : t.config ≡ s.config
  pub active_view : t.active_view ≡ s.active_view
  pub h : t.h ≡ s.h
  pub last_exec : t.last_exec ≡ s.last_exec
  pub view : t.view ≡ s.view
  pub chkpts : t.chkpts ≡ s.chkpts
  pub pset : t.pset ≡ s.pset
  pub qset : t.qset ≡ s.qset
  pub current_exec : t.current_exec ≡ s.current_exec
  pub cert_store : t.cert_store ≡ s.cert_store
  pub checkpoint_store : t.checkpoint_store ≡ s.checkpoint_store
  pub view_change_store : t.view_change_store ≡ s.view_change_store
  pub out : executions t.out ≡ executions s.out

mutual
  pub data Step : Core → Core → Type 0 where
    quiet : {s t : Core} → SameLog s t → Step s t
    activate : {s t : Core} → SameLog (record s { active_view = true }) t → Step s t
    touch : {s : Core} (idx : MsgId) → Step s (update_cert idx (λ cert. cert) s)
    assign :
        {s : Core} (v n : ℕ) (p : PrePrepare)
        → p.view ≡ v
        → p.sequence_number ≡ n
        → Step s (
            update_cert
              (msg_id v n)
              (λ cert. record cert { pre_prepare = some p; digest = p.batch_digest })
              s)
    mark_prepare :
        {s : Core} (idx : MsgId)
        → Step s (update_cert idx (λ cert. record cert { sent_prepare = true }) s)
    mark_commit :
        {s : Core} (idx : MsgId)
        → Step s (update_cert idx (λ cert. record cert { sent_commit = true }) s)
    add_prepare :
        {s : Core} (p : Prepare)
        → (primary s.config p.view == p.replica_id) ≡ false
        → in_wv s p.view p.sequence_number ≡ true
        → any
            (is_same_sender_prepare p.replica_id)
            (get_cert s (msg_id p.view p.sequence_number)).prepare
          ≡ false
        → Step s (
            update_cert
              (msg_id p.view p.sequence_number)
              (λ cert. record cert { prepare = cert.prepare ++ (p ∷ []) })
              s)
    add_commit :
        {s : Core} (c : Commit)
        → in_wv s c.view c.sequence_number ≡ true
        → any
            (is_same_sender_commit c.replica_id)
            (get_cert s (msg_id c.view c.sequence_number)).commit
          ≡ false
        → Step s (
            update_cert
              (msg_id c.view c.sequence_number)
              (λ cert. record cert { commit = cert.commit ++ (c ∷ []) })
              s)
    own_checkpoint :
        {s : Core} (n : ℕ) (id : Bytes) → Step s (record s { chkpts = put n id s.chkpts })
    store_checkpoint :
        {s : Core} (c : Checkpoint)
        → in_w s c.sequence_number ≡ true
        → Step s (record s { checkpoint_store = put c true s.checkpoint_store })
    clean : {s : Core} (n k : ℕ) → k ≡ s.k → Step s (clean_stores (n / k * k) s)
    leave_view : {s : Core} → Step s (enter_next_view s)
    jump : {s : Core} (v : ℕ) → Step s (record s { view = v })
    store_view_change :
        {s : Core} (idx : Vcidx) (vc : ViewChange)
        → correct_view_change s.config vc ≡ true
        → Step s (record s { view_change_store = put idx vc s.view_change_store })
    -- A batch is handed to the consumer, which is to run it.
    run_batch :
        {s : Core} (v n : ℕ) (d : Bytes) (b : Option RequestBatch)
        → s.current_exec ≡ none
        → n ≡ add64 s.last_exec 1
        → committed s d v n ≡ true
        → Step s (record s { current_exec = some n; out = execute n b ∷ s.out })
    -- A null request is run at once. The moves in between are made while it counts as running.
    start_null :
        {s : Core} (n : ℕ)
        → s.current_exec ≡ none
        → n ≡ add64 s.last_exec 1
        → Step s (record s { current_exec = some n; last_exec = n })
    run_null :
        {s : Core} (n : ℕ) {t : Core}
        → s.current_exec ≡ none
        → n ≡ add64 s.last_exec 1
        → Reach (record s { current_exec = some n; last_exec = n }) t
        → Step s (record t { current_exec = none })

  pub data Reach : Core → Core → Type 0 where
    here : {s : Core} → Reach s s
    move : {s t u : Core} → Step s t → Reach t u → Reach s u
