-- ===== src/Pbft/Checkpoints/Tests.antt =====
-- A replica that catches up and finds a weak certificate.
use spree.Base.{◌≡◌, refl, true, [], ◌∷◌, Bytes}
use spree.Base.Text.{base64_encode}
use spree.Pbft.Messages.{Checkpoint}
use spree.Pbft.Core.{Core, StateUpdateTarget}
use spree.Pbft.Checkpoints.{members}
use spree.Pbft.Fixtures.{idle}

abbrev state_id : Bytes
state_id = 1 ∷ 255 ∷ []

abbrev chkpt_of_two : Checkpoint
chkpt_of_two = record { sequence_number = 20; replica_id = 2; id = base64_encode state_id }

abbrev catching_up : Core
catching_up = record idle {
  skip_in_progress = true;
  checkpoint_store = (chkpt_of_two, true) ∷ (record chkpt_of_two { replica_id = 3 }, true) ∷ [];
}

both_are_members : members catching_up chkpt_of_two ≡ 2 ∷ 3 ∷ []
unfolding base64_encode
both_are_members = refl

abbrev target_of_two : StateUpdateTarget
target_of_two = record { seq_no = 20; id = state_id; replicas = members catching_up chkpt_of_two }
