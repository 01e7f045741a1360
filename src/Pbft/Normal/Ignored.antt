-- ===== src/Pbft/Normal/Ignored.antt =====
-- The messages that the normal operation ignores.
use spree.Base.{◌≡◌, refl, ◌⊎◌, Bool, not, true, false, ◌==◌, nat_eq, arith}
use spree.Pbft.Messages.{PrePrepare, Prepare, Commit}
use spree.Pbft.Core.{Core, Env, M, ok, skip, if◌then◌else◌, ◌>>=◌}
use spree.Pbft.Quorum.{primary, in_wv}
use spree.Pbft.Calls.{Calls}
use spree.Pbft.Normal.{recv_pre_prepare, recv_prepare, recv_commit}

if_skip :
    (b : Bool) (m : M (Unit {0})) (s : Core)
    → (b ≡ false → m s ≡ ok tt s)
    → (if b then skip else m) s ≡ ok tt s
unfolding ◌>>=◌
if_skip true m s h = refl
if_skip false m s h = h refl

-- A prepare from the primary of its view, of another view, or outside the watermarks changes
-- nothing, and nothing is sent.
pub recv_prepare-ignores :
    (env : Env) (calls : Calls) (s : Core) (p : Prepare)
    → ((primary s.config p.view == p.replica_id) ≡ true)
      ⊎ (in_wv s p.view p.sequence_number ≡ false)
    → recv_prepare env calls p s ≡ ok tt s
unfolding recv_prepare ◌>>=◌
recv_prepare-ignores env calls s p h =
    if_skip (primary s.config p.view == p.replica_id) _ s
      (λ a. if_skip (not (in_wv s p.view p.sequence_number)) _ s (λ b. absurd (ground arith)))

-- A commit of another view or outside the watermarks changes nothing, and nothing is sent.
pub recv_commit-ignores :
    (env : Env) (calls : Calls) (s : Core) (c : Commit)
    → in_wv s c.view c.sequence_number ≡ false
    → recv_commit env calls c s ≡ ok tt s
unfolding recv_commit ◌>>=◌
recv_commit-ignores env calls s c h =
    if_skip (not (in_wv s c.view c.sequence_number)) _ s (λ a. absurd (ground arith))

-- A pre-prepare during a view change, from another replica than the primary, of another view, or
-- outside the watermarks changes nothing, and nothing is sent.
pub recv_pre_prepare-ignores :
    (env : Env) (calls : Calls) (s : Core) (p : PrePrepare)
    → (s.active_view ≡ false)
      ⊎ (((primary s.config s.view == p.replica_id) ≡ false)
          ⊎ (in_wv s p.view p.sequence_number ≡ false))
    → recv_pre_prepare env calls p s ≡ ok tt s
unfolding recv_pre_prepare ◌>>=◌
recv_pre_prepare-ignores env calls s p h = if_skip (not s.active_view) _ s (λ a.
    if_skip (not (primary s.config s.view == p.replica_id)) _ s
      (λ b. if_skip (not (in_wv s p.view p.sequence_number)) _ s (λ c. absurd (ground arith))))
