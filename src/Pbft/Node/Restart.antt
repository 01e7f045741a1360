-- ===== src/Pbft/Node/Restart.antt =====
-- What a node's replica remembers when it is started again.
use spree.Base.{ℕ, Bool, true, false, ◌*◌, ◌/◌, ◌≡◌, refl, some, [], arith, codes, Bytes}
use spree.Base.Map.{keep_if}
use spree.Pbft.Core.{Config, Core, Env, ok, skip, if◌then◌else◌, for_each, ◌>>=◌}
use spree.Pbft.Quorum.{update_view_change_seq_no}
use spree.Pbft.Calls.{Calls}
use spree.Pbft.Watermarks.{clean_stores, move_watermarks, resubmit_request_batches, drop_checkpoint}
use spree.Pbft.Init.{
  Settings, Stored, infinity, configure, fresh, update_seq_view, put_chkpts, restore_pq_set,
  restore_sets, restore_batches, restore_before_chkpts, restore_state, new_pbft_core,
}
use spree.Pbft.Node.{node_env, node_stored}

skip_either : (b : Bool) (s : Core) → (if b then skip else skip) s ≡ ok tt s
unfolding ◌>>=◌
skip_either true s = refl
skip_either false s = refl

module _ (env : Env) (stored : Stored) (empty : stored.unmarshal_pq_set [] ≡ some [])
    (calls : Calls) where
  restore_pq_set-node : (key : Bytes) → restore_pq_set (node_stored stored) key ≡ []
  unfolding restore_pq_set node_stored
  restore_pq_set-node key = rw empty

  no_sets : (c : Config) → restore_sets (node_stored stored) (fresh c) ≡ fresh c
  unfolding restore_sets update_seq_view fresh
  no_sets c = rw (restore_pq_set-node (codes "pset"), restore_pq_set-node (codes "qset")) refl

  nothing_before :
      (c : Config) → restore_before_chkpts (node_env env) (node_stored stored) (fresh c) ≡ fresh c
  unfolding restore_before_chkpts restore_batches node_stored fresh
  nothing_before c = rw (no_sets c) refl

  zero-rounded : (k : ℕ) → 0 / k * k ≡ 0
  zero-rounded k = grind arith

  kept_watermark : (c : Config) → move_watermarks calls 0 (fresh c) ≡ ok tt (fresh c)
  unfolding move_watermarks clean_stores resubmit_request_batches drop_checkpoint fresh keep_if
      for_each ◌>>=◌
  kept_watermark c = rw (zero-rounded c.k) (skip_either _ (fresh c))

  restored :
      (c : Config)
      → restore_state (node_env env) (node_stored stored) calls (fresh c) ≡ ok tt (fresh c)
  unfolding restore_state node_stored put_chkpts fresh
  restored c = rw (nothing_before c) (kept_watermark c)

  -- If the empty buffer is the empty P or Q set, a node starts its replica from nothing, whatever was
  -- stored before: no view, no sequence number, no P and Q sets, no batches and no checkpoint but
  -- that of the genesis, and nothing is sent or stored at the start.
  pub new_pbft_core-fresh :
      (id : ℕ) (c : Settings) (config : Config)
      → configure id c ≡ some config
      → new_pbft_core (node_env env) (node_stored stored) calls id c
        ≡ some (
            ok tt
              (update_view_change_seq_no (record (fresh config) { view_change_seq_no = infinity })))
  unfolding ◌>>=◌ new_pbft_core update_view_change_seq_no
  new_pbft_core-fresh id c config e = rw (e, new_pbft_core) (rw (restored config) refl)
