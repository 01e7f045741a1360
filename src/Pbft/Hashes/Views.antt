-- ===== src/Pbft/Hashes/Views.antt =====
-- The methods that leave a view leave every stored batch under its hash.
use spree.Base.{List, list_eq}
use spree.Pbft.Messages.{ViewChange, Vcidx}
use spree.Pbft.Core.{Env}
use spree.Pbft.Calls.{Calls}
use spree.Pbft.Hashes.{KeepsHashes, CallsKeep, hash_rules}
use spree.Pbft.Hashes.Helpers.{
  stop_timer-KeepsHashes, start_timer-KeepsHashes, enter_next_view-KeepsHashes,
  inner_broadcast-KeepsHashes,
}
use spree.Pbft.Views.{
  jump_to_view, report_quorum, count_view_changes, recv_view_change, send_view_change,
}

module _ (env : Env) {c : Calls} (w : CallsKeep env c) where
  jump_to_view-KeepsHashes : (idxs : List Vcidx) → KeepsHashes env (jump_to_view env c idxs)
  unfolding jump_to_view
  jump_to_view-KeepsHashes idxs = search (hash_rules, CallsKeep.send_view_change) depth 14

  count_view_changes-KeepsHashes : (vc : ViewChange) → KeepsHashes env (count_view_changes env c vc)
  unfolding count_view_changes report_quorum
  count_view_changes-KeepsHashes vc =
      search (hash_rules, jump_to_view-KeepsHashes, start_timer-KeepsHashes) depth 14

  pub recv_view_change-KeepsHashes : (vc : ViewChange) → KeepsHashes env (recv_view_change env c vc)
  unfolding recv_view_change
  recv_view_change-KeepsHashes vc = search (hash_rules, count_view_changes-KeepsHashes) depth 14

  pub send_view_change-KeepsHashes : KeepsHashes env (send_view_change env c)
  unfolding send_view_change
  send_view_change-KeepsHashes =
      search
        (
          hash_rules, stop_timer-KeepsHashes, enter_next_view-KeepsHashes,
          inner_broadcast-KeepsHashes, recv_view_change-KeepsHashes,
        )
        depth 14
