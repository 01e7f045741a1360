-- ===== src/Pbft/Replica/Tests.antt =====
-- A second commit of the same replica.
use spree.Base.{◌≡◌, refl, none, inr, list_eq, nat_eq}
use spree.Base.Map.{lookup}
use spree.Pbft.Messages.{msg_id_eq}
use spree.Pbft.Core.{ok}
use spree.Pbft.Cert.{get_cert}
use spree.Pbft.Replica.{commit, process_event}
use spree.Pbft.Replica.Ignored.{process_event-ignores}
use spree.Pbft.Fixtures.{mute, nearly, commit_of}

process_event-ignores_example : process_event mute 5 (commit (commit_of 2)) nearly ≡ ok none nearly
unfolding get_cert lookup
process_event-ignores_example =
    process_event-ignores mute 5 (commit (commit_of 2)) nearly (inr refl)
