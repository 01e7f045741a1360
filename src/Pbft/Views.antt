-- ===== src/Pbft/Views.antt =====
-- Leaving a view: `sendViewChange` and `recvViewChange` of pbft/core.go.
pub mod Jump
pub mod Later
pub mod Order
mod Tests
use spree.Base.{
  ℕ, ◌+◌, ◌*◌, Bool, true, false, not, ◌&&◌, ◌||◌, Option, none, some, List, [], ◌∷◌, ltb, leb,
  length, count, add64, sub64, ◌==◌, nat_eq, cond,
}
use spree.Base.Map.{Map, keys, values, has, put, delete, keep_if}
use spree.Pbft.Messages.{CEntry, ViewChange, MsgId, Vcidx, vcidx_eq, msg_id_eq, view_change}
use spree.Pbft.Core.{
  Core, Env, InternalEvent, view_change_quorum, view_change_resend_timer, vc_resend_timer, reset,
  stop, timer, M, modify, emit, get, pure, ◌>>=◌, ◌>>◌, if◌then◌else◌,
}
use spree.Pbft.Quorum.{all_correct_replicas_quorum}
use spree.Pbft.Timers.{start_timer, stop_timer}
use spree.Pbft.PqSets.{calc_pset, calc_qset}
use spree.Pbft.Persist.{verify, sign, inner_broadcast}
use spree.Pbft.Select.{correct_view_change}
use spree.Pbft.Calls.{Calls}

-- The stored view changes for views above `view`, and the least of those views, 0 if there is none.
abbrev pub replicas_above : ℕ → List Vcidx → Map ℕ Bool
replicas_above view [] = []
replicas_above view (idx ∷ rest) =
    let others = replicas_above view rest in cond (leb idx.v view) others (put idx.id true others)

abbrev pub min_view_above : ℕ → List Vcidx → ℕ → ℕ
min_view_above view [] min_view = min_view
min_view_above view (idx ∷ rest) min_view =
    min_view_above view rest
      (cond (leb idx.v view) min_view (cond (min_view == 0 || ltb idx.v min_view) idx.v min_view))

abbrev pub is_for_view : ℕ → Vcidx → Bool
is_for_view view idx = idx.v == view

-- `view++` and what goes with it: the P and Q sets are brought up to date before the certificates
-- of the old view are dropped.
unfoldable pub enter_next_view : Core → Core
enter_next_view s = record s {
  new_view_store = delete s.view s.new_view_store;
  view = add64 s.view 1;
  active_view = false;
  pset = calc_pset s;
  qset = calc_qset (record s { pset = calc_pset s });
  cert_store = keep_if (λ (idx : MsgId). leb (add64 s.view 1) idx.v) s.cert_store;
  view_change_store = keep_if (λ (idx : Vcidx). leb (add64 s.view 1) idx.v) s.view_change_store;
}

abbrev pub c_entries : Map ℕ (List ℕ) → List CEntry
c_entries [] = []
c_entries ((n, id) ∷ rest) = record { sequence_number = n; id = id } ∷ c_entries rest

-- The view change message of the view just entered, before it is signed.
unfoldable pub own_view_change : Core → ViewChange
own_view_change s = record {
  view = s.view;
  h = s.h;
  cset = c_entries s.chkpts;
  pset = values s.pset;
  qset = values s.qset;
  replica_id = s.id;
  signature = [];
}

module _ (env : Env) (calls : Calls) where
  -- The view change is joined at the least view that is asked for.
  unfoldable pub jump_to_view : List Vcidx → M (Option InternalEvent)
  jump_to_view idxs = do
    modify (λ s. record s { view = sub64 (min_view_above s.view idxs 0) 1 })
    calls.send_view_change

  unfoldable pub report_quorum : M (Option InternalEvent)
  report_quorum = do
    s ← get
    emit (timer vc_resend_timer stop)
    start_timer s.last_new_view_timeout
    modify (λ s. record s { last_new_view_timeout = 2 * s.last_new_view_timeout })
    pure (some view_change_quorum)

  -- What `recvViewChange` does once the message is stored.
  unfoldable pub count_view_changes : ViewChange → M (Option InternalEvent)
  count_view_changes vc = do
    s ← get
    let idxs = keys s.view_change_store
    if leb (s.f + 1) (length (replicas_above s.view idxs))
        then jump_to_view idxs
        else if not s.active_view
            && (vc.view == s.view
                && leb (all_correct_replicas_quorum s.config) (count (is_for_view s.view) idxs))
        then report_quorum
        else pure none

  -- `recvViewChange`
  unfoldable pub recv_view_change : ViewChange → M (Option InternalEvent)
  recv_view_change vc = do
    s ← get
    let idx : Vcidx = record { v = vc.view; id = vc.replica_id }
    if not (verify env s.out vc)
        then pure none
        else if ltb vc.view s.view
        then pure none
        else if not (correct_view_change s.config vc)
        then pure none
        else if has idx s.view_change_store
        then pure none
        else do
          modify (λ s. record s { view_change_store = put idx vc s.view_change_store })
          count_view_changes vc

  -- `sendViewChange`
  unfoldable pub send_view_change : M (Option InternalEvent)
  send_view_change = do
    stop_timer
    modify enter_next_view
    s ← get
    let vc = sign env s.out (own_view_change s)
    inner_broadcast env (view_change vc)
    emit (timer vc_resend_timer (reset s.vc_resend_timeout view_change_resend_timer))
    recv_view_change vc
