-- ===== src/Main.antt =====
-- main.go: a node makes its replica, starts its server in another thread, and goes ten rounds, in
-- which the node of the primary of view 0 sends a request batch to its own replica.
pub mod Rounds
mod Tests
use spree.Base.{ℕ, zero, suc, ◌+◌, Option, none, some, Bytes, ◌==◌, List, nat_eq, get_or, []}
use spree.Base.Map.{lookup}
use spree.Pbft.Core.{
  Env, Outcome, out_of_fuel, M, raise, skip, for_each, ◌>>=◌, ◌>>◌, if◌then◌else◌,
}
use spree.Pbft.Calls.{Calls}
use spree.Pbft.Replica.{Event, request_batch, send}
use spree.Pbft.Init.{Settings, Stored, new_pbft_core}
use spree.Pbft.Node.{global_node_map, NodeInfo, new_node, node_env, node_stored}
use spree.Pbft.Transaction.{Transaction, create_pbft_req_batch}

-- `primary` of `main`
abbrev pub main_primary : ℕ
main_primary = 0

-- `marshal` is `proto.Marshal` of a transaction; each batch of `main` has the same fuel. In the pause
-- after each round the other thread may send events to the same replica: `between` is which.
module _ (env : Env) (marshal : Transaction → Option Bytes) (fuel : ℕ)
    (between : ℕ → List (ℕ × Event)) where
  -- The round of the loop of `main` with this index, and its pause.
  unfoldable pub main_round : ℕ → ℕ → M (Unit {0})
  main_round node_id index = do
    if main_primary == node_id
        then send env (fuel, request_batch (create_pbft_req_batch marshal index 0))
        else skip
    for_each (between index) (send env)

  -- The loop of `main`, for at most `rounds` tests of the index.
  unfoldable pub main_loop : ℕ → ℕ → ℕ → M (Unit {0})
  main_loop zero node_id index = raise out_of_fuel
  main_loop (suc rounds) node_id index =
      if index == 10
      then skip
      else (do main_round node_id index; main_loop rounds node_id (index + 1))

-- The node that `main` makes, and its replica: `none` is a panic of the constructor.
abbrev pub main_node : ℕ → NodeInfo
main_node node_id = new_node node_id (get_or (lookup node_id global_node_map) [])

abbrev pub main_core : Env → Stored → Calls → ℕ → Settings → Option (Outcome (Unit {0}))
main_core env stored calls node_id settings =
    new_pbft_core (node_env env) (node_stored stored) calls (main_node node_id).id settings
