-- ===== src/Pbft/Quorum.antt =====
-- Quorum sizes, the primary of a view and the watermark tests: "helper functions for PBFT" of
-- pbft/core.go.
pub mod Laws
use spree.Base.{
  ℕ, ◌+◌, ◌-◌, ◌/◌, ◌%◌, Bool, ◌&&◌, ltb, leb, ◌==◌, nat_eq, if◌then◌else◌, add64, sub64, mul64,
}
use spree.Pbft.Core.{Config, Core}

-- `intersectionQuorum`: any two such quorums share a correct replica.
unfoldable pub intersection_quorum : Config → ℕ
intersection_quorum c = (c.n + c.f + 2) / 2

-- `allCorrectReplicasQuorum`; `NewPbftCore` makes `f` smaller than `N`.
unfoldable pub all_correct_replicas_quorum : Config → ℕ
all_correct_replicas_quorum c = c.n - c.f

-- `primary`; `NewPbftCore` makes `replicaCount` positive, so `%` is Go's.
unfoldable pub primary : Config → ℕ → ℕ
primary c n = n % c.replica_count

-- `inW`
unfoldable pub in_w : Core → ℕ → Bool
in_w s n = ltb 0 (sub64 n s.h) && leb (sub64 n s.h) s.l

-- `inWV`
unfoldable pub in_wv : Core → ℕ → ℕ → Bool
unfolding in_w
in_wv s v n = s.view == v && in_w s n

-- `updateViewChangeSeqNo`
unfoldable pub update_view_change_seq_no : Core → Core
update_view_change_seq_no s = if leb s.view_change_period 0 then s else record s {
  view_change_seq_no = sub64 (add64 s.seq_no (mul64 s.view_change_period s.k)) (s.seq_no % s.k);
}
