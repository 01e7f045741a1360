-- ===== src/Pbft/Transfer.antt =====
-- State transfer: `updateHighStateTarget`, `stateTransfer` and `retryStateTransfer` of pbft/core.go.
use spree.Base.{Option, none, some, Bool, true, false, not, leb, is_some}
use spree.Pbft.Core.{
  StateUpdateTarget, skip_to, invalidate_state, M, modify, emit, get, skip, ◌>>=◌, ◌>>◌,
  if◌then◌else◌,
}

abbrev pub has_target_at_least : Option StateUpdateTarget → StateUpdateTarget → Bool
has_target_at_least none target = false
has_target_at_least (some t) target = leb target.seq_no t.seq_no

-- `updateHighStateTarget`
unfoldable pub update_high_state_target : StateUpdateTarget → M (Unit {0})
update_high_state_target target = do
  s ← get
  if has_target_at_least s.high_state_target target
      then skip
      else modify (λ s. record s { high_state_target = some target })

abbrev pub or_high_target :
    Option StateUpdateTarget → Option StateUpdateTarget → Option StateUpdateTarget
or_high_target none high = high
or_high_target (some target) high = some target

abbrev pub transfer_to : Option StateUpdateTarget → M (Unit {0})
transfer_to none = skip
transfer_to (some target) = do
  modify (λ s. record s { state_transferring = true })
  emit (skip_to target.seq_no target.id target.replicas)

-- `retryStateTransfer`
unfoldable pub retry_state_transfer : Option StateUpdateTarget → M (Unit {0})
retry_state_transfer optional = do
  s ← get
  if is_some s.current_exec
      then skip
      else if s.state_transferring
      then skip
      else transfer_to (or_high_target optional s.high_state_target)

-- `stateTransfer`
unfoldable pub state_transfer : Option StateUpdateTarget → M (Unit {0})
state_transfer optional = do
  s ← get
  (if not s.skip_in_progress
      then (do modify (λ s. record s { skip_in_progress = true }); emit invalidate_state)
      else skip)
  retry_state_transfer optional
