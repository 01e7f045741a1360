-- ===== src/Pbft/Node/Tests.antt =====
-- A node among four.
use spree.Base.{true, not, ◌≡◌, refl, none, some, [], ◌∷◌, codes, list_eq, ◌==◌, nat_eq}
use spree.Pbft.Messages.{msg_id_eq}
use spree.Pbft.Core.{broadcast, execute, unicast, ok}
use spree.Pbft.Quorum.{update_view_change_seq_no}
use spree.Pbft.Replica.{calls}
use spree.Pbft.Init.{Stored, infinity, configure, fresh, new_pbft_core}
use spree.Pbft.Node.{
  Net, alive, exited, NodeInfo, global_node_map, node_broadcast, node_calls, node_env, node_stored,
}
use spree.Pbft.Node.Sends.{node_broadcast_lem, node_calls_lem}
use spree.Pbft.Node.Restart.{new_pbft_core-fresh}
use spree.Pbft.Fixtures.{four, mute, settings_of_four}

-- Node 2 has crashed.
abbrev two_down : Net
two_down = record { resolve = λ url. some url; dial = λ url. not (url == codes "127.0.0.1:8082") }

node_broadcast_lem_example :
    node_broadcast two_down global_node_map (7 ∷ [])
    ≡ exited ((codes "127.0.0.1:8080", 7 ∷ []) ∷ (codes "127.0.0.1:8081", 7 ∷ []) ∷ [])
node_broadcast_lem_example = node_broadcast_lem two_down global_node_map (7 ∷ [])

abbrev all_up : Net
all_up = record { resolve = λ url. some url; dial = λ url. true }

abbrev pair_of_nodes : NodeInfo
pair_of_nodes = record { id = 0; url = codes "a"; peers = (0, codes "a") ∷ (1, codes "b") ∷ [] }

node_calls_lem_example :
    node_calls all_up pair_of_nodes
      (broadcast (8 ∷ []) ∷ execute 1 none ∷ unicast (9 ∷ []) 1 ∷ broadcast (7 ∷ []) ∷ [])
    ≡ alive
        ((codes "a", 7 ∷ []) ∷ (codes "b", 7 ∷ []) ∷ (codes "a", 8 ∷ []) ∷ (codes "b", 8 ∷ []) ∷ [])
node_calls_lem_example =
    node_calls_lem all_up pair_of_nodes
      (broadcast (8 ∷ []) ∷ execute 1 none ∷ unicast (9 ∷ []) 1 ∷ broadcast (7 ∷ []) ∷ []) refl

-- A store that has batches and a P set.
abbrev stored_all : Stored
stored_all = record {
  read_state = λ key. some (1 ∷ []);
  read_state_set = λ prefix. some ((prefix, 1 ∷ []) ∷ []);
  last_seq_no = some 13;
  unmarshal_pq_set = λ raw. some [];
  unmarshal_request_batch = λ raw. some (record { batch = [] });
}

four_configured : configure 1 settings_of_four ≡ some four
unfolding configure
four_configured = refl

new_pbft_core-fresh_example :
    new_pbft_core (node_env mute) (node_stored stored_all) (calls mute 5) 1 settings_of_four
    ≡ some
        (ok tt (update_view_change_seq_no (record (fresh four) { view_change_seq_no = infinity })))
new_pbft_core-fresh_example =
    new_pbft_core-fresh mute stored_all refl (calls mute 5) 1 settings_of_four four four_configured
