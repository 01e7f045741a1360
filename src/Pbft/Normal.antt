-- ===== src/Pbft/Normal.antt =====
-- The normal case of pbft/core.go: request batches, pre-prepares, prepares and commits.
-- The handlers' error value is that of a broadcast, which the caller only logs.
pub mod Ignored
use spree.Base.{
  ℕ, ◌/◌, Bool, true, false, not, ◌&&◌, ◌||◌, Option, none, some, [], ◌∷◌, ◌++◌, Bytes, codes, ltb,
  any, add64, ◌==◌, nat_eq, list_eq,
}
use spree.Base.Map.{values, has, put, delete}
use spree.Pbft.Messages.{
  RequestBatch, PrePrepare, Prepare, Commit, MsgId, msg_id_eq, pre_prepare, prepare, commit,
}
use spree.Pbft.Core.{
  Core, Env, MsgCert, null_request_timer, stop, timer, M, modify, emit, get, skip, ◌>>=◌, ◌>>◌,
  if◌then◌else◌,
}
use spree.Pbft.Quorum.{primary, in_wv}
use spree.Pbft.Cert.{get_cert, update_cert, pre_prepared, prepared, committed}
use spree.Pbft.Timers.{soft_start_timer, stop_timer}
use spree.Pbft.Persist.{hash, persist_request_batch, persist_pset, persist_qset, inner_broadcast}
use spree.Pbft.Calls.{Calls}
use spree.Pbft.Views.{send_view_change}

abbrev pub msg_id : ℕ → ℕ → MsgId
msg_id v n = record { v = v; n = n }

-- `getCert` for its effect: the entry exists afterwards.
abbrev pub touch_cert : MsgId → M (Unit {0})
touch_cert idx = modify (update_cert idx (λ cert. cert))

abbrev pub discard : {A : Type 0} → M A → M (Unit {0})
discard m = m >>= λ _. skip

abbrev pub is_same_sender_prepare : ℕ → Prepare → Bool
is_same_sender_prepare id p = p.replica_id == id

abbrev pub is_same_sender_commit : ℕ → Commit → Bool
is_same_sender_commit id c = c.replica_id == id

-- The check of `sendPrePrepare` for another pre-prepare of the same digest.
abbrev pub is_pre_prepared_elsewhere : Core → ℕ → Bytes → MsgCert → Bool
is_pre_prepared_elsewhere s n digest cert = elim cert.pre_prepare [
  | none ↦ false
  | some p ↦
      p.view == s.view
      && (not (p.sequence_number == n) && (p.batch_digest == digest && not (digest == [])))
]

module _ (env : Env) (calls : Calls) where
  -- What `recvCommit` does once the batch is committed.
  unfoldable pub on_committed : Commit → M (Unit {0})
  on_committed c = do
    stop_timer
    modify (λ s. record s {
      last_new_view_timeout = s.new_view_timeout;
      outstanding_req_batches = delete c.batch_digest s.outstanding_req_batches;
    })
    calls.execute_outstanding
    s ← get
    if c.sequence_number == s.view_change_seq_no then discard (send_view_change env calls) else skip

  -- `recvCommit`
  unfoldable pub recv_commit : Commit → M (Unit {0})
  recv_commit c = do
    s ← get
    let idx = msg_id c.view c.sequence_number
    if not (in_wv s c.view c.sequence_number) then skip else do
      touch_cert idx
      if any (is_same_sender_commit c.replica_id) (get_cert s idx).commit then skip else do
        modify (update_cert idx (λ cert. record cert { commit = cert.commit ++ (c ∷ []) }))
        t ← get
        if committed t c.batch_digest c.view c.sequence_number then on_committed c else skip

  -- `maybeSendCommit`
  unfoldable pub maybe_send_commit : Bytes → ℕ → ℕ → M (Unit {0})
  maybe_send_commit digest v n = do
    touch_cert (msg_id v n)
    s ← get
    if not (prepared s digest v n && not (get_cert s (msg_id v n)).sent_commit) then skip else do
      let c : Commit = record {
        view = v;
        sequence_number = n;
        batch_digest = digest;
        replica_id = s.id;
      }
      modify (update_cert (msg_id v n) (λ cert. record cert { sent_commit = true }))
      recv_commit c
      inner_broadcast env (commit c)

  -- `recvPrepare`
  unfoldable pub recv_prepare : Prepare → M (Unit {0})
  recv_prepare p = do
    s ← get
    let idx = msg_id p.view p.sequence_number
    if primary s.config p.view == p.replica_id
        then skip
        else if not (in_wv s p.view p.sequence_number)
        then skip
        else do
          touch_cert idx
          if any (is_same_sender_prepare p.replica_id) (get_cert s idx).prepare then skip else do
            modify (update_cert idx (λ cert. record cert { prepare = cert.prepare ++ (p ∷ []) }))
            persist_pset env
            maybe_send_commit p.batch_digest p.view p.sequence_number

  -- `sendPrePrepare`
  unfoldable pub send_pre_prepare : Option RequestBatch → Bytes → M (Unit {0})
  send_pre_prepare batch digest = do
    s ← get
    let n = add64 s.seq_no 1
    if any (is_pre_prepared_elsewhere s n digest) (values s.cert_store)
        then skip
        else if not (in_wv s s.view n) || ltb (add64 s.h (s.l / 2)) n
        then skip
        else if ltb s.view_change_seq_no n
        then skip
        else do
          let p : PrePrepare = record {
            view = s.view;
            sequence_number = n;
            batch_digest = digest;
            request_batch = batch;
            replica_id = s.id;
          }
          modify (λ s. record s { seq_no = n })
          modify (
              update_cert (msg_id s.view n)
                (λ cert. record cert { pre_prepare = some p; digest = digest }))
          persist_qset env
          inner_broadcast env (pre_prepare p)
          maybe_send_commit digest s.view n

  -- `recvRequestBatch`
  unfoldable pub recv_request_batch : Option RequestBatch → M (Unit {0})
  recv_request_batch batch = do
    let digest = hash env batch
    modify (λ s. record s {
      req_batch_store = put digest batch s.req_batch_store;
      outstanding_req_batches = put digest batch s.outstanding_req_batches;
    })
    persist_request_batch env digest
    s ← get
    (if s.active_view
        then soft_start_timer s.request_timeout (codes "new request batch " ++ digest)
        else skip)
    if not (primary s.config s.view == s.id && s.active_view)
        then skip
        else do emit (timer null_request_timer stop); send_pre_prepare batch digest

  -- The last part of `recvPrePrepare`, from the start of the timers on.
  unfoldable pub follow_pre_prepare : PrePrepare → M (Unit {0})
  follow_pre_prepare pp = do
    s ← get
    soft_start_timer s.request_timeout
        (codes "new pre-prepare for request batch " ++ pp.batch_digest)
    emit (timer null_request_timer stop)
    t ← get
    let idx = msg_id pp.view pp.sequence_number
    if not (
          not (primary t.config t.view == t.id)
          && (pre_prepared t pp.batch_digest pp.view pp.sequence_number
              && not (get_cert t idx).sent_prepare))
        then skip
        else do
          let p : Prepare = record {
            view = pp.view;
            sequence_number = pp.sequence_number;
            batch_digest = pp.batch_digest;
            replica_id = t.id;
          }
          modify (update_cert idx (λ cert. record cert { sent_prepare = true }))
          persist_qset env
          recv_prepare p
          inner_broadcast env (prepare p)

  -- The middle part of `recvPrePrepare`, once the certificate has taken the pre-prepare: a batch that
  -- is not in the store comes with the message, if its hash is right.
  unfoldable pub store_pre_prepared : PrePrepare → M (Unit {0})
  store_pre_prepared pp = do
    s ← get
    let digest = hash env pp.request_batch
    if not (not (has pp.batch_digest s.req_batch_store) && not (pp.batch_digest == []))
        then follow_pre_prepare pp
        else if not (digest == pp.batch_digest)
        then skip
        else do
          modify (λ s. record s {
            req_batch_store = put digest pp.request_batch s.req_batch_store;
            outstanding_req_batches = put digest pp.request_batch s.outstanding_req_batches;
          })
          persist_request_batch env digest
          follow_pre_prepare pp

  -- `recvPrePrepare`
  unfoldable pub recv_pre_prepare : PrePrepare → M (Unit {0})
  recv_pre_prepare pp = do
    s ← get
    let idx = msg_id pp.view pp.sequence_number
    let cert = get_cert s idx
    if not s.active_view
        then skip
        else if not (primary s.config s.view == pp.replica_id)
        then skip
        else if not (in_wv s pp.view pp.sequence_number)
        then skip
        else if ltb s.view_change_seq_no pp.sequence_number
        then discard (send_view_change env calls)
        else do
          touch_cert idx
          if not (cert.digest == []) && not (cert.digest == pp.batch_digest)
              then discard (send_view_change env calls)
              else do
                modify (
                    update_cert idx
                      (λ cert. record cert { pre_prepare = some pp; digest = pp.batch_digest }))
                store_pre_prepared pp
