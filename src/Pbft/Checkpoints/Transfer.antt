-- ===== src/Pbft/Checkpoints/Transfer.antt =====
-- A weak certificate for a checkpoint, `witnessCheckpointWeakCert` of pbft/core.go.
use spree.Base.{Bool, true, not, ◌&&◌, some, ◌∷◌, is_some, if◌then◌else◌}
use spree.Pbft.Core.{Core, StateUpdateTarget, skip_to}
use spree.Pbft.Calls.{Calls}
use spree.Pbft.Transfer.{has_target_at_least}

-- The replica may ask for a state now.
abbrev pub is_free_to_ask : Core → Bool
is_free_to_ask s = s.skip_in_progress && (not (is_some s.current_exec) && not s.state_transferring)

-- The highest target is remembered.
abbrev pub remembering : StateUpdateTarget → Core → Core
remembering target s =
    if has_target_at_least s.high_state_target target
    then s
    else record s { high_state_target = some target }

-- The consumer is asked for the state, if the replica may ask now.
abbrev pub asking : StateUpdateTarget → Core → Core
asking target s =
    if is_free_to_ask s
    then record s {
      state_transferring = true;
      out = skip_to target.seq_no target.id target.replicas ∷ s.out;
    }
    else s
