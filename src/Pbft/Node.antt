-- ===== src/Pbft/Node.antt =====
-- `NodeInfo` of pbft/pbft.go: the consumer that the program gives to its replica. It sends over TCP
-- what the replica broadcasts, and its other methods are stubs.
pub mod Sends
pub mod Restart
mod Tests
use spree.Base.{ℕ, Bool, true, false, Option, none, some, List, [], ◌∷◌, ◌++◌, Bytes, codes, cond}
use spree.Base.Map.{Map}
use spree.Pbft.Core.{Effect, Env, broadcast}
use spree.Pbft.Init.{Stored}

-- `GlobalNodeMap`
abbrev pub global_node_map : Map ℕ Bytes
global_node_map =
    (0, codes "127.0.0.1:8080")
    ∷ (1, codes "127.0.0.1:8081")
    ∷ (2, codes "127.0.0.1:8082")
    ∷ (3, codes "127.0.0.1:8083")
    ∷ []

-- The part of `NodeInfo` that is a value; its listener and its sender are never set.
pub record NodeInfo : Type 0 where
  pub id : ℕ
  pub url : Bytes
  pub peers : Map ℕ Bytes

-- `NewNode`
abbrev pub new_node : ℕ → Bytes → NodeInfo
new_node id url = record { id = id; url = url; peers = global_node_map }

-- What the code uses of the package net: `ResolveTCPAddr`, and whether `DialTCP` gets a connection.
pub record Net : Type 0 where
  pub resolve : Bytes → Option Bytes
  pub dial : Bytes → Bool

-- What has been written to which address, the oldest first, and whether the process then goes on
-- or has called `os.Exit(1)`.
pub data Sent : Type 0 where
  alive : List (Bytes × Bytes) → Sent
  exited : List (Bytes × Bytes) → Sent

abbrev pub written : Sent → List (Bytes × Bytes)
written (alive ws) = ws
written (exited ws) = ws

abbrev pub after_writes : List (Bytes × Bytes) → Sent → Sent
after_writes ws (alive vs) = alive (ws ++ vs)
after_writes ws (exited vs) = exited (ws ++ vs)

abbrev pub and_call : Sent → Sent → Sent
and_call (alive ws) next = after_writes ws next
and_call (exited ws) next = exited ws

module _ (net : Net) where
  -- One round of the loop of `broadcast`, and the rest of it.
  unfoldable pub send_to : Option Bytes → Bytes → Sent → Sent
  send_to none payload rest = exited []
  send_to (some addr) payload rest =
      cond (net.dial addr) (after_writes ((addr, payload) ∷ []) rest) (exited [])

  -- `NodeInfo.broadcast`
  unfoldable pub node_broadcast : Map ℕ Bytes → Bytes → Sent
  node_broadcast [] payload = alive []
  node_broadcast ((id, url) ∷ peers) payload =
      send_to (net.resolve url) payload (node_broadcast peers payload)

  -- A call of the replica on its `NodeInfo`, or on a timer of `InertTimerFactory`. The methods
  -- `unicast`, `execute`, `skipTo`, `invalidateState`, `StoreState` and `DelState` do nothing, and
  -- nor do the methods of `inertTimer`.
  unfoldable pub node_call : NodeInfo → Effect → Sent
  node_call n (broadcast payload) = node_broadcast n.peers payload
  node_call n _ = alive []

  -- The calls one after another, the newest first as in `out` of the replica.
  unfoldable pub node_calls : NodeInfo → List Effect → Sent
  node_calls n [] = alive []
  node_calls n (e ∷ earlier) = and_call (node_calls n earlier) (node_call n e)

-- The answers of `NodeInfo`: `sign`, `getState` and `ReadStateSet` give nil and no error, and
-- `verify` accepts everything.
unfoldable pub node_env : Env → Env
node_env env = record env {
  sign = λ out raw. some [];
  verify = λ out id signature raw. true;
  get_state = λ out. [];
  read_state_set = λ out prefix. some [];
}

-- What it gives back at the start, whatever was stored: `ReadState` and `ReadStateSet` give nil and
-- no error, `getLastSeqNo` gives 0.
unfoldable pub node_stored : Stored → Stored
node_stored stored = record stored {
  read_state = λ key. some [];
  read_state_set = λ prefix. some [];
  last_seq_no = some 0;
}
