-- ===== src/Pbft/NewView.antt =====
-- Entering a view: `recvNewView`, `processNewView` and `processNewView2` of pbft/core.go.
use spree.Base.{
  ℕ, zero, suc, ◌+◌, ◌-◌, Bool, true, not, ◌&&◌, ◌||◌, Option, none, some, List, [], ◌∷◌, Bytes,
  ltb, leb, any, count, length, sub64, ◌==◌, nat_eq, list_eq, get_or, cond,
}
use spree.Base.Map.{Map, keys, lookup, has, put, delete}
use spree.Base.Text.{base64_decode}
use spree.Pbft.Messages.{NewView, CEntry, PrePrepare, Prepare, MsgId, prepare, fetch_request_batch}
use spree.Pbft.Core.{
  Core, Env, MsgCert, StateUpdateTarget, InternalEvent, view_changed, null_request_timer, stop,
  timer, fatal, M, modify, emit, get, skip, pure, raise, for_each, ◌>>=◌, ◌>>◌, if◌then◌else◌,
}
use spree.Pbft.Quorum.{primary, intersection_quorum, update_view_change_seq_no}
use spree.Pbft.Cert.{update_cert, is_commit_for}
use spree.Pbft.Timers.{stop_timer, start_timer_if_outstanding_requests}
use spree.Pbft.Persist.{verify, persist_qset, inner_broadcast}
use spree.Pbft.Calls.{Calls}
use spree.Pbft.Watermarks.{move_watermarks, resubmit_request_batches}
use spree.Pbft.Transfer.{update_high_state_target, state_transfer}
use spree.Pbft.Select.{Choice, every, select_initial_checkpoint, assign_sequence_numbers}
use spree.Pbft.Views.{send_view_change}
use spree.Pbft.Normal.{msg_id, recv_prepare}

-- `reflect.DeepEqual` of two maps that are not nil.
abbrev pub xset_equal : Map ℕ Bytes → Map ℕ Bytes → Bool
xset_equal a b =
    length a == length b
    && every (λ (e : ℕ × Bytes). has e.0 b && get_or (lookup e.0 b) [] == e.1) a

-- A certificate for `seq_no` with a commit quorum of its own view.
abbrev pub is_certificate_for : Core → ℕ → MsgId × MsgCert → Bool
is_certificate_for s seq_no e =
    e.0.n == seq_no
    && leb (intersection_quorum s.config) (count (is_commit_for e.0.v seq_no) e.1.commit)

-- The outer loop of `processNewView`, for `rounds` numbers from `seq_no` on.
unfoldable pub can_execute_to : Core → ℕ → ℕ → Bool
can_execute_to s zero seq_no = true
can_execute_to s (suc rounds) seq_no =
    any (is_certificate_for s seq_no) s.cert_store && can_execute_to s rounds (seq_no + 1)

-- `speculativeLastExec`
abbrev pub speculative_last_exec : Core → ℕ
speculative_last_exec s = get_or s.current_exec s.last_exec

module _ (env : Env) (calls : Calls) where
  -- One round of the first loop of `processNewView2`.
  unfoldable pub assign_pre_prepare : ℕ × Bytes → M (Unit {0})
  assign_pre_prepare (n, d) = do
    s ← get
    if leb n s.h
        then skip
        else if not (has d s.req_batch_store) && not (d == [])
        then raise fatal
        else do
          let pp : PrePrepare = record {
            view = s.view;
            sequence_number = n;
            batch_digest = d;
            request_batch = get_or (lookup d s.req_batch_store) none;
            replica_id = s.id;
          }
          modify (
              update_cert (msg_id s.view n)
                (λ cert. record cert { pre_prepare = some pp; digest = d }))
          modify (λ s. record s { seq_no = cond (ltb s.seq_no n) n s.seq_no })
          persist_qset env

  -- One round of the second loop, on a backup.
  unfoldable pub prepare_assigned : ℕ × Bytes → M (Unit {0})
  prepare_assigned (n, d) = do
    s ← get
    let p : Prepare = record {
      view = s.view;
      sequence_number = n;
      batch_digest = d;
      replica_id = s.id;
    }
    (if ltb s.h n
        then (do
          modify (update_cert (msg_id s.view n) (λ cert. record cert { sent_prepare = true }))
          recv_prepare env calls p)
        else skip)
    inner_broadcast env (prepare p)

  abbrev pub activate : Core → Core
  activate s = record s {
    active_view = true;
    new_view_store = delete (sub64 s.view 1) s.new_view_store;
    seq_no = s.h;
  }

  -- `processNewView2`
  unfoldable pub process_new_view2 : NewView → M (Option InternalEvent)
  process_new_view2 nv = do
    stop_timer
    emit (timer null_request_timer stop)
    modify activate
    for_each nv.xset assign_pre_prepare
    modify update_view_change_seq_no
    s ← get
    (if not (primary s.config s.view == s.id)
        then for_each nv.xset prepare_assigned
        else resubmit_request_batches calls)
    start_timer_if_outstanding_requests
    pure (some view_changed)

  -- `fetchRequestBatches`
  unfoldable pub fetch_request_batches : M (Unit {0})
  fetch_request_batches = do
    s ← get
    for_each (keys s.missing_req_batches) (λ digest.
        inner_broadcast env
          (fetch_request_batch (record { batch_digest = digest; replica_id = s.id })))

  -- The assigned batches that are neither stored nor known to be missing.
  abbrev pub newly_missing : Core → Map ℕ Bytes → Map Bytes Bool → Map Bytes Bool
  newly_missing s [] missing = missing
  newly_missing s ((n, d) ∷ rest) missing = newly_missing s rest (
      cond (leb n s.h || (d == [] || (has d s.req_batch_store || has d missing))) missing
        (put d true missing))

  -- The last part of `processNewView`, from the loop over `Xset` on.
  unfoldable pub request_missing : NewView → M (Option InternalEvent)
  request_missing nv = do
    s ← get
    let missing = newly_missing s nv.xset s.missing_req_batches
    modify (λ s. record s { missing_req_batches = missing })
    if length missing == 0 then process_new_view2 nv else do
      (if ltb (length s.missing_req_batches) (length missing) then fetch_request_batches else skip)
      pure none

  abbrev pub transfer_decoded : NewView → CEntry → List ℕ → Option Bytes → M (Option InternalEvent)
  transfer_decoded nv cp replicas none = pure none
  transfer_decoded nv cp replicas (some snapshot_id) = do
    let target : StateUpdateTarget = record {
      seq_no = cp.sequence_number;
      id = snapshot_id;
      replicas = replicas;
    }
    update_high_state_target target
    state_transfer (some target)
    request_missing nv

  -- The middle part: the replica has not executed up to the checkpoint that the view starts from.
  unfoldable pub transfer_to_checkpoint : NewView → CEntry → List ℕ → M (Option InternalEvent)
  transfer_to_checkpoint nv cp replicas = transfer_decoded nv cp replicas (base64_decode cp.id)

  -- What `processNewView` does once the new view's assignments are found to be right.
  unfoldable pub adopt_new_view : NewView → CEntry → List ℕ → M (Option InternalEvent)
  adopt_new_view nv cp replicas = do
    s ← get
    (if ltb s.h cp.sequence_number then move_watermarks calls cp.sequence_number else skip)
    if ltb (speculative_last_exec s) cp.sequence_number
        then transfer_to_checkpoint nv cp replicas
        else request_missing nv

  abbrev pub is_right_xset : NewView → Map ℕ Bytes → Bool
  is_right_xset nv msg_list =
      (length msg_list == 0 && length nv.xset == 0) || xset_equal msg_list nv.xset

  abbrev pub check_assignment : NewView → Choice → Option (Map ℕ Bytes) → M (Option InternalEvent)
  check_assignment nv ch none = send_view_change env calls
  check_assignment nv ch (some msg_list) =
      if not (is_right_xset nv msg_list)
      then send_view_change env calls
      else adopt_new_view nv ch.checkpoint ch.replicas

  abbrev pub process_stored : Option NewView → M (Option InternalEvent)
  process_stored none = pure none
  process_stored (some nv) = do
    s ← get
    let ch = select_initial_checkpoint s.config nv.vset
    let last = speculative_last_exec s
    let target = ch.checkpoint.sequence_number
    if s.active_view
        then pure none
        else if not ch.chosen
        then send_view_change env calls
        else if ltb last target && can_execute_to s (target - last) (last + 1)
        then pure none
        else check_assignment nv ch (assign_sequence_numbers s.config nv.vset target)

  -- `processNewView`
  unfoldable pub process_new_view : M (Option InternalEvent)
  process_new_view = do s ← get; process_stored (lookup s.view s.new_view_store)

  -- `recvNewView`
  unfoldable pub recv_new_view : NewView → M (Option InternalEvent)
  recv_new_view nv = do
    s ← get
    if not (
          ltb 0 nv.view
          && (leb s.view nv.view
              && (primary s.config nv.view == nv.replica_id && not (has nv.view s.new_view_store))))
        then pure none
        else if not (every (verify env s.out) nv.vset)
        then pure none
        else do
          modify (λ s. record s { new_view_store = put nv.view nv s.new_view_store })
          process_new_view
