-- ===== src/Pbft/Server/Tests.antt =====
-- Traffic on a node's port.
use spree.Base.{
  ℕ, ◌≡◌, refl, true, Option, none, some, List, [], ◌∷◌, Bytes, cond, list_eq, ◌==◌, All,
}
use spree.Pbft.Messages.{Message, PrePrepare, Commit, Checkpoint}
use spree.Pbft.Core.{◌>>=◌, Outcome, ok, final, fault, panic, pure, for_each, ◌>>◌}
use spree.Pbft.Replica.{Event, calls, send}
use spree.Pbft.Quorum.{update_view_change_seq_no}
use spree.Pbft.Init.{infinity, configure, fresh}
use spree.Pbft.Init.Sound.{IsProper}
use spree.Pbft.Node.{node_env}
use spree.Pbft.Node.Restart.{new_pbft_core-fresh}
use spree.Pbft.Server.{handle, heard, read_buffer, returned, handle_connection, server}
use spree.Pbft.Server.Laws.{IsServed, handle_connection_lem}
use spree.Pbft.Server.Running.{server-IsProper}
use spree.Pbft.Fixtures.{four, mute, idle, settings_of_four, empty_store}

abbrev some_commit : Commit
some_commit = record { view = 0; sequence_number = 1; batch_digest = 7 ∷ []; replica_id = 2 }

abbrev some_checkpoint : Checkpoint
some_checkpoint = record { sequence_number = 10; replica_id = 2; id = [] }

abbrev without_request : PrePrepare
without_request = record {
  view = 0;
  sequence_number = 1;
  batch_digest = [];
  request_batch = none;
  replica_id = 3;
}

-- Three messages, of one byte each.
abbrev unmarshal : Bytes → Option Message
unmarshal b = cond (b == 1 ∷ []) (some (Message.commit some_commit)) (
    cond (b == 2 ∷ []) (some (Message.checkpoint some_checkpoint))
      (some (Message.pre_prepare without_request)))

abbrev traffic : List (ℕ × Option Bytes)
traffic = (5, some (2 ∷ [])) ∷ (5, some (1 ∷ [])) ∷ (5, none) ∷ (5, some (1 ∷ [])) ∷ []

-- The checkpoint is dropped, and after the error nothing is read.
handle_connection_lem_example :
    (handle_connection mute unmarshal traffic idle
      ≡ (for_each ((5, Event.commit some_commit) ∷ []) (send mute) >> pure returned) idle)
    × All IsServed ((5, Event.commit some_commit) ∷ [])
unfolding heard read_buffer
handle_connection_lem_example = handle_connection_lem mute unmarshal traffic idle

-- A pre-prepare without a request ends the process.
empty_pre_prepare_panics :
    handle_connection mute unmarshal ((5, some (3 ∷ [])) ∷ traffic) idle ≡ fault panic idle
unfolding handle_connection handle heard read_buffer ◌>>=◌
empty_pre_prepare_panics = refl

four_configured : configure 1 settings_of_four ≡ some four
unfolding configure
four_configured = refl

abbrev new_four : Outcome (Unit {0})
new_four = ok tt (update_view_change_seq_no (record (fresh four) { view_change_seq_no = infinity }))

server-IsProper_example :
    IsProper four (final (server (node_env mute) unmarshal (λ url. true) traffic (final new_four)))
server-IsProper_example =
    server-IsProper mute empty_store unmarshal (λ url. true) 5 1 settings_of_four four new_four
      traffic four_configured
      (new_pbft_core-fresh mute empty_store refl (calls (node_env mute) 5) 1 settings_of_four four
        four_configured)
