-- ===== src/Pbft/Init.antt =====
-- The constructor `NewPbftCore` and the restoring of the state after a crash, pbft/pbft.go.
pub mod Configured
pub mod Sound
pub mod Restored
mod Tests
use spree.Base.{
  ℕ, zero, suc, ◌+◌, ◌*◌, ◌^◌, ◌-◌, Bool, true, false, Option, none, some, List, [], ◌∷◌, Bytes,
  codes, ltb, mul64, u64_mod, get_or, list_eq, nat_eq, cond,
}
use spree.Base.Map.{Map, put}
use spree.Base.Scan.{scan_after}
use spree.Base.Text.{base64_encode}
use spree.Pbft.Messages.{RequestBatch, PqEntry, Qidx, qidx_eq}
use spree.Pbft.Core.{Config, Core, Env, Outcome, M, modify, skip, ◌>>=◌, ◌>>◌}
use spree.Pbft.Quorum.{update_view_change_seq_no}
use spree.Pbft.Persist.{hash}
use spree.Pbft.Calls.{Calls}
use spree.Pbft.Watermarks.{move_watermarks}

-- The values that `NewPbftCore` takes from the configuration; a duration that does not parse is
-- `none`.
pub record Settings : Type 0 where
  pub n : ℕ
  pub f : ℕ
  pub k : ℕ
  pub log_multiplier : ℕ
  pub view_change_period : ℕ
  pub byzantine : Bool
  pub request : Option ℕ
  pub resend_view_change : Option ℕ
  pub view_change : Option ℕ
  pub null_request : Option ℕ
  pub broadcast : Option ℕ

-- What the consumer's store gives back at the start, and proto.Unmarshal; `none` is an error.
pub record Stored : Type 0 where
  pub read_state : Bytes → Option Bytes
  pub read_state_set : Bytes → Option (Map Bytes Bytes)
  pub last_seq_no : Option ℕ
  pub unmarshal_pq_set : Bytes → Option (List PqEntry)
  pub unmarshal_request_batch : Bytes → Option RequestBatch

-- `^uint64(0)`
abbrev pub infinity : ℕ
infinity = u64_mod - 1

-- The part of `NewPbftCore` that can panic; `none` is a panic.
abbrev pub with_timeouts : ℕ → Settings → Option ℕ → Option ℕ → Option ℕ → Option ℕ → Option Config
with_timeouts id c (some request) (some resend) (some new_view) (some broadcast) = some (record {
  id = id;
  n = c.n;
  f = c.f;
  k = c.k;
  log_multiplier = c.log_multiplier;
  l = mul64 c.log_multiplier c.k;
  replica_count = c.n;
  byzantine = c.byzantine;
  request_timeout = request;
  vc_resend_timeout = resend;
  new_view_timeout = new_view;
  null_request_timeout = get_or c.null_request 0;
  broadcast_timeout = broadcast;
  view_change_period = c.view_change_period;
})
with_timeouts id c _ _ _ _ = none

unfoldable pub configure : ℕ → Settings → Option Config
configure id c = cond (ltb c.n (c.f * 3 + 1)) none (
    cond (ltb c.log_multiplier 2) none
      (with_timeouts id c c.request c.resend_view_change c.view_change c.broadcast))

-- The new instance before `restoreState`.
unfoldable pub fresh : Config → Core
fresh c = record {
  config = c;
  active_view = true;
  h = 0;
  last_exec = 0;
  seq_no = 0;
  view = 0;
  chkpts = (0, codes "XXX GENESIS") ∷ [];
  pset = [];
  qset = [];
  skip_in_progress = false;
  state_transferring = false;
  high_state_target = none;
  h_chkpts = [];
  current_exec = none;
  timer_active = false;
  new_view_timer_reason = [];
  last_new_view_timeout = c.new_view_timeout;
  outstanding_req_batches = [];
  view_change_seq_no = 0;
  missing_req_batches = [];
  req_batch_store = [];
  cert_store = [];
  checkpoint_store = [];
  view_change_store = [];
  new_view_store = [];
  out = [];
}

abbrev pub higher : ℕ → ℕ → ℕ
higher a b = cond (ltb a b) b a

-- `updateSeqView`
unfoldable pub update_seq_view : List PqEntry → Core → Core
update_seq_view [] s = s
update_seq_view (e ∷ es) s =
    update_seq_view es
      (record s { view = higher s.view e.view; seq_no = higher s.seq_no e.sequence_number })

abbrev pub put_pset : List PqEntry → Map ℕ PqEntry → Map ℕ PqEntry
put_pset [] m = m
put_pset (e ∷ es) m = put_pset es (put e.sequence_number e m)

abbrev pub put_qset : List PqEntry → Map Qidx PqEntry → Map Qidx PqEntry
put_qset [] m = m
put_qset (e ∷ es) m = put_qset es (put (record { d = e.batch_digest; n = e.sequence_number }) e m)

module _ (stored : Stored) where
  -- `restorePQSet`; `nil` is the empty list
  unfoldable pub restore_pq_set : Bytes → List PqEntry
  restore_pq_set key = elim (stored.read_state key) [
    | none ↦ []
    | some raw ↦ get_or (stored.unmarshal_pq_set raw) []
  ]

  -- The first part of `restoreState`: the P and Q sets, the view and the sequence number.
  unfoldable pub restore_sets : Core → Core
  restore_sets s =
      let pset = restore_pq_set (codes "pset") in
      let t = update_seq_view pset (record s { pset = put_pset pset s.pset }) in
      let qset = restore_pq_set (codes "qset") in
      update_seq_view qset (record t { qset = put_qset qset t.qset })

  -- The request batches that can be decoded, under their hashes.
  abbrev pub put_batches :
      Env → Map Bytes Bytes → Map Bytes (Option RequestBatch) → Map Bytes (Option RequestBatch)
  put_batches env [] m = m
  put_batches env ((k, raw) ∷ rest) m = elim (stored.unmarshal_request_batch raw) [
    | none ↦ put_batches env rest m
    | some b ↦ put_batches env rest (put (hash env (some b)) (some b) m)
  ]

  -- `restoreLastSeqNo`
  abbrev pub restore_last_seq_no : Core → Core
  restore_last_seq_no s = record s { last_exec = get_or stored.last_seq_no 0 }

  unfoldable pub restore_batches : Env → Core → Core
  restore_batches env s = record s {
    req_batch_store =
        put_batches env (get_or (stored.read_state_set (codes "reqBatch.")) []) s.req_batch_store;
  }

-- The loop over the stored checkpoints: the own checkpoints and `lowWatermark`.
unfoldable pub put_chkpts : Map Bytes Bytes → Map ℕ Bytes → ℕ → Map ℕ Bytes × ℕ
put_chkpts [] m low = (m, low)
put_chkpts ((key, id) ∷ rest) m low = elim (scan_after (codes "chkpt.") key) [
  | none ↦ put_chkpts rest m low
  | some n ↦ put_chkpts rest (put n (base64_encode id) m) (cond (ltb n low) n low)
]

module _ (env : Env) (stored : Stored) where
  -- The last part of `restoreState`.
  abbrev pub restore_chkpts : Calls → Option (Map Bytes Bytes) → Core → Outcome (Unit {0})
  restore_chkpts calls none s = skip s
  restore_chkpts calls (some saved) s =
      let (m, low) = put_chkpts saved s.chkpts s.last_exec in
      move_watermarks calls low (record s { chkpts = m })

  -- `restoreState` up to the checkpoints
  unfoldable pub restore_before_chkpts : Core → Core
  unfolding restore_sets restore_batches
  restore_before_chkpts s =
      restore_last_seq_no stored (restore_batches stored env (restore_sets stored s))

  -- `restoreState`
  unfoldable pub restore_state : Calls → M (Unit {0})
  restore_state calls s =
      restore_chkpts calls (stored.read_state_set (codes "chkpt.")) (restore_before_chkpts s)

  -- `NewPbftCore`: `none` is a panic of the constructor itself
  unfoldable pub new_pbft_core : Calls → ℕ → Settings → Option (Outcome (Unit {0}))
  new_pbft_core calls id c = elim (configure id c) [
    | none ↦ none
    | some config ↦ some (
        (restore_state calls
            >> modify (λ s. update_view_change_seq_no (record s { view_change_seq_no = infinity })))
          (fresh config))
  ]
