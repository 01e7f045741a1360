-- ===== src/Pbft/Checkpoints.antt =====
-- Checkpoints: `Checkpoint`, `recvCheckpoint`, `weakCheckpointSetOutOfRange` and
-- `witnessCheckpointWeakCert` of pbft/core.go.
pub mod Weak
pub mod Transfer
mod Tests
use spree.Base.{
  ℕ, zero, suc, ◌+◌, ◌-◌, ◌/◌, ◌%◌, Bool, true, false, not, ◌&&◌, Option, none, some, List, [], ◌∷◌,
  Bytes, ltb, leb, count, filter, map, length, add64, ◌==◌, nat_eq, list_eq, cond,
}
use spree.Base.Map.{Map, keys, values, lookup, has, put, delete, keep_entries}
use spree.Base.Text.{base64_decode, base64_encode}
use spree.Pbft.Messages.{Checkpoint, checkpoint, checkpoint_eq}
use spree.Pbft.Core.{
  Core, Env, StateUpdateTarget, InternalEvent, invalidate_state, panic, M, modify, emit, get, skip,
  pure, raise, ◌>>=◌, ◌>>◌, if◌then◌else◌,
}
use spree.Pbft.Quorum.{in_w, intersection_quorum}
use spree.Pbft.Timers.{stop_timer}
use spree.Pbft.Persist.{persist_checkpoint, persist_del_all_request_batches, inner_broadcast}
use spree.Pbft.Calls.{Calls}
use spree.Pbft.Watermarks.{move_watermarks}
use spree.Pbft.Transfer.{update_high_state_target, retry_state_transfer}
use spree.Pbft.NewView.{process_new_view}

-- `sort.Sort(sortableUint64Slice(…))`
unfoldable pub insert_sorted : ℕ → List ℕ → List ℕ
insert_sorted x [] = x ∷ []
insert_sorted x (y ∷ ys) = cond (leb x y) (x ∷ y ∷ ys) (y ∷ insert_sorted x ys)

unfoldable pub sort : List ℕ → List ℕ
sort [] = []
sort (x ∷ xs) = insert_sorted x (sort xs)

abbrev pub nth : List ℕ → ℕ → Option ℕ
nth [] i = none
nth (x ∷ xs) zero = some x
nth (x ∷ xs) (suc i) = nth xs i

-- `m`: the largest number that `f + 1` of the recorded checkpoints reach.
unfoldable pub reached_by_weak_quorum : Core → Option ℕ
reached_by_weak_quorum s =
    let numbers = values s.h_chkpts in nth (sort numbers) (length numbers - (s.f + 1))

abbrev pub is_matching : Checkpoint → Checkpoint → Bool
is_matching c test = test.sequence_number == c.sequence_number && test.id == c.id

-- The replicas whose stored checkpoint matches.
abbrev pub members : Core → Checkpoint → List ℕ
members s c =
    map (λ (test : Checkpoint). test.replica_id) (filter (is_matching c) (keys s.checkpoint_store))

abbrev cons_to : ℕ → Option (List ℕ) → Option (List ℕ)
cons_to x none = none
cons_to x (some xs) = some (x ∷ xs)

-- The array `checkpointMembers` of this length with the members written into it: places that none
-- fills stay 0, and one member too many is an index out of range.
abbrev pub fill_array : ℕ → List ℕ → Option (List ℕ)
fill_array zero [] = some []
fill_array zero (x ∷ xs) = none
fill_array (suc n) [] = cons_to 0 (fill_array n [])
fill_array (suc n) (x ∷ xs) = cons_to x (fill_array n xs)

-- The keys of `diffValues`.
abbrev pub diff_values : Checkpoint → List Checkpoint → Map Bytes Bool → Map Bytes Bool
diff_values c [] acc = acc
diff_values c (test ∷ rest) acc = diff_values c rest (
    cond (test.sequence_number == c.sequence_number && not (test.id == c.id)) (put test.id true acc)
      acc)

-- The own checkpoint at this number has another id.
abbrev pub contradicts : Option Bytes → Bytes → Bool
contradicts none id = false
contradicts (some own) id = not (own == id)

module _ (env : Env) (calls : Calls) where
  -- The replica has fallen behind: everything is discarded, and state transfer is pending.
  unfoldable pub fall_behind : ℕ → M (Unit {0})
  fall_behind m = do
    modify (λ s. record s { req_batch_store = [] })
    persist_del_all_request_batches env
    move_watermarks calls m
    modify (λ s. record s { outstanding_req_batches = []; skip_in_progress = true })
    emit invalidate_state
    stop_timer

  -- The index into the array is in range wherever the code comes here.
  abbrev pub check_out_of_date : ℕ → Option ℕ → M Bool
  check_out_of_date high none = raise panic
  check_out_of_date high (some m) = if ltb high m then (do fall_behind m; pure true) else pure false

  -- `weakCheckpointSetOutOfRange`
  unfoldable pub weak_checkpoint_set_out_of_range : Checkpoint → M Bool
  weak_checkpoint_set_out_of_range c = do
    s ← get
    let high = add64 s.h s.l
    if ltb c.sequence_number high
        then (do modify (λ s. record s { h_chkpts = delete c.replica_id s.h_chkpts }); pure false)
        else do
          modify (λ s. record s { h_chkpts = put c.replica_id c.sequence_number s.h_chkpts })
          t ← get
          if not (leb (t.f + 1) (length t.h_chkpts)) then pure false else do
            modify (λ s. record s {
              h_chkpts = keep_entries (λ (e : ℕ × ℕ). not (ltb e.1 high)) s.h_chkpts;
            })
            check_out_of_date high (reached_by_weak_quorum t)

  -- `witnessCheckpointWeakCert` once the array is filled; an id that does not decode is only logged.
  abbrev pub witness_target : Checkpoint → List ℕ → Option Bytes → M (Unit {0})
  witness_target c replicas none = skip
  witness_target c replicas (some snapshot_id) = do
    let target : StateUpdateTarget = record {
      seq_no = c.sequence_number;
      id = snapshot_id;
      replicas = replicas;
    }
    update_high_state_target target
    s ← get
    if s.skip_in_progress then retry_state_transfer (some target) else skip

  abbrev pub witness_filled : Checkpoint → Option (List ℕ) → M (Unit {0})
  witness_filled c none = raise panic
  witness_filled c (some replicas) = witness_target c replicas (base64_decode c.id)

  -- `witnessCheckpointWeakCert`
  unfoldable pub witness_checkpoint_weak_cert : Checkpoint → M (Unit {0})
  witness_checkpoint_weak_cert c = do s ← get; witness_filled c (fill_array (s.f + 1) (members s c))

  -- The end of `recvCheckpoint`, with a quorum for the checkpoint.
  unfoldable pub on_checkpoint_quorum : Checkpoint → M (Option InternalEvent)
  on_checkpoint_quorum c = do
    s ← get
    if has c.sequence_number s.chkpts
        then (do move_watermarks calls c.sequence_number; process_new_view env calls)
        else do
          (if s.skip_in_progress && leb (add64 s.h (s.l / 2)) c.sequence_number
              then move_watermarks calls c.sequence_number
              else skip)
          pure none

  -- `recvCheckpoint` from the counts on.
  unfoldable pub count_checkpoints : Checkpoint → M (Option InternalEvent)
  count_checkpoints c = do
    s ← get
    let matching = count (is_matching c) (keys s.checkpoint_store)
    let values = length (diff_values c (keys s.checkpoint_store) (put c.id true []))
    if ltb (s.f + 1) values then raise panic else do
      (if matching == s.f + 1
          then (if contradicts (lookup c.sequence_number s.chkpts) c.id
              then raise panic
              else witness_checkpoint_weak_cert c)
          else skip)
      if ltb matching (intersection_quorum s.config) then pure none else on_checkpoint_quorum c

  -- `recvCheckpoint`
  unfoldable pub recv_checkpoint : Checkpoint → M (Option InternalEvent)
  recv_checkpoint c = do
    out_of_range ← weak_checkpoint_set_out_of_range c
    s ← get
    if out_of_range then pure none else if not (in_w s c.sequence_number) then pure none else do
      modify (λ s. record s { checkpoint_store = put c true s.checkpoint_store })
      count_checkpoints c

  -- `Checkpoint`
  unfoldable pub take_checkpoint : ℕ → Bytes → M (Unit {0})
  take_checkpoint seq_no id = do
    s ← get
    let id_as_string = base64_encode id
    let c : Checkpoint = record { sequence_number = seq_no; replica_id = s.id; id = id_as_string }
    if not (seq_no % s.k == 0) then skip else do
      modify (λ s. record s { chkpts = put seq_no id_as_string s.chkpts })
      persist_checkpoint seq_no id
      recv_checkpoint c
      inner_broadcast env (checkpoint c)
