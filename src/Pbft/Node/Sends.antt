-- ===== src/Pbft/Node/Sends.antt =====
-- What a node puts on the network.
use spree.Base.{
  ℕ, ◌≡◌, refl, ap, Bool, true, false, Option, none, some, List, [], ◌∷◌, ◌++◌, Bytes, cond, arith,
  ◌∙◌,
}
use mathlib.Core.List.{append-nil}
use spree.Base.Map.{Map}
use spree.Pbft.Core.{Effect, broadcast}
use spree.Pbft.Node.{
  Net, NodeInfo, alive, exited, after_writes, send_to, node_broadcast, node_call, node_calls,
  and_call,
}

-- The address of a peer that answers.
abbrev pub reach_addr : Net → Option Bytes → Option Bytes
reach_addr net none = none
reach_addr net (some addr) = cond (net.dial addr) (some addr) none

abbrev pub write_first : Option Bytes → Bytes → List (Bytes × Bytes) → List (Bytes × Bytes)
write_first none payload rest = []
write_first (some addr) payload rest = (addr, payload) ∷ rest

-- One write to each peer, up to the first that does not answer.
abbrev pub writes : Net → Map ℕ Bytes → Bytes → List (Bytes × Bytes)
writes net [] payload = []
writes net ((id, url) ∷ peers) payload =
    write_first (reach_addr net (net.resolve url)) payload (writes net peers payload)

abbrev pub is_reached : Option Bytes → Bool
is_reached none = false
is_reached (some addr) = true

abbrev pub all_answer : Net → Map ℕ Bytes → Bool
all_answer net [] = true
all_answer net ((id, url) ∷ peers) =
    cond (is_reached (reach_addr net (net.resolve url))) (all_answer net peers) false

module _ (net : Net) where
  send_to_lem :
      (o : Option Bytes) (payload : Bytes) (ws : List (Bytes × Bytes)) (b : Bool)
      → send_to net o payload (cond b (alive ws) (exited ws))
        ≡ cond
            (cond (is_reached (reach_addr net o)) b false)
            (alive (write_first (reach_addr net o) payload ws))
            (exited (write_first (reach_addr net o) payload ws))
  unfolding send_to
  send_to_lem none payload ws b = refl
  send_to_lem (some addr) payload ws true = ground arith
  send_to_lem (some addr) payload ws false = ground arith

  -- A broadcast writes the message once to each peer, up to the first that does not answer. If there
  -- is one, the process then ends.
  pub node_broadcast_lem :
      (peers : Map ℕ Bytes) (payload : Bytes)
      → node_broadcast net peers payload
        ≡ cond
            (all_answer net peers)
            (alive (writes net peers payload))
            (exited (writes net peers payload))
  unfolding node_broadcast
  node_broadcast_lem [] payload = refl
  node_broadcast_lem ((id, url) ∷ peers) payload =
      ap (send_to net (net.resolve url) payload) (node_broadcast_lem peers payload)
      ∙ send_to_lem (net.resolve url) payload (writes net peers payload) (all_answer net peers)

  -- The writes for all broadcasts of a list of calls, the newest first.
  abbrev pub writes_of : Map ℕ Bytes → List Effect → List (Bytes × Bytes)
  writes_of peers [] = []
  writes_of peers (broadcast payload ∷ earlier) =
      writes_of peers earlier ++ writes net peers payload
  writes_of peers (_ ∷ earlier) = writes_of peers earlier

  quiet_call :
      (n : NodeInfo) (earlier : List Effect) (ws : List (Bytes × Bytes))
      → node_calls net n earlier ≡ alive ws
      → and_call (node_calls net n earlier) (alive []) ≡ alive ws
  quiet_call n earlier ws h = ap (λ s. and_call s (alive [])) h ∙ ap alive (append-nil ws)

  -- While all peers answer, what a node has written to the network is, in the order of its calls,
  -- each broadcast message once to each peer. All other calls write nothing.
  pub node_calls_lem :
      (n : NodeInfo) (calls : List Effect)
      → all_answer net n.peers ≡ true
      → node_calls net n calls ≡ alive (writes_of n.peers calls)
  unfolding node_calls node_call
  node_calls_lem n [] h = refl
  node_calls_lem n (broadcast payload ∷ earlier) h =
      ap (λ s. and_call s (node_broadcast net n.peers payload)) (node_calls_lem n earlier h)
      ∙ ap (after_writes (writes_of n.peers earlier)) (
          node_broadcast_lem n.peers payload
          ∙ ap
              (λ b.
                cond b (alive (writes net n.peers payload)) (exited (writes net n.peers payload)))
              h)
  node_calls_lem n (e ∷ earlier) h = quiet_call n earlier _ (node_calls_lem n earlier h)
