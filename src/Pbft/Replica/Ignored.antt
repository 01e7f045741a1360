-- ===== src/Pbft/Replica/Ignored.antt =====
-- The events that a replica ignores (pbft/core.go).
use spree.Base.{
  ℕ, ◌≡◌, refl, ap, ◌⊎◌, inl, inr, Bool, not, true, false, ◌&&◌, Option, none, any, leb, ltb, ◌==◌,
  nat_eq, arith,
}
use spree.Base.Map.{has}
use spree.Pbft.Messages.{Prepare, Commit, ViewChange, NewView, vcidx_eq}
use spree.Pbft.Core.{Core, Env, InternalEvent, M, Outcome, ok, and_then, pure, if◌then◌else◌, ◌>>=◌}
use spree.Pbft.Quorum.{primary, in_wv}
use spree.Pbft.Cert.{get_cert, update_cert}
use spree.Pbft.Cert.Laws.{update_cert-tested}
use spree.Pbft.Calls.{Calls}
use spree.Pbft.Persist.{verify}
use spree.Pbft.Select.{every, correct_view_change}
use spree.Pbft.Views.{recv_view_change}
use spree.Pbft.NewView.{recv_new_view}
use spree.Pbft.Normal.{
  msg_id, is_same_sender_prepare, is_same_sender_commit, recv_prepare, recv_commit,
}
use spree.Pbft.Normal.Ignored.{recv_pre_prepare-ignores, recv_prepare-ignores, recv_commit-ignores}
use spree.Pbft.Replica.{
  Event, request_batch, pre_prepare, prepare, commit, checkpoint, view_change, new_view, internal,
  calls, process_event,
}

module _ (env : Env) (s : Core) where
  -- The replica already has a message of this sender in the certificate.
  abbrev pub is_second_prepare : Prepare → Bool
  is_second_prepare p =
      any (is_same_sender_prepare p.replica_id)
        (get_cert s (msg_id p.view p.sequence_number)).prepare

  abbrev pub is_second_commit : Commit → Bool
  is_second_commit c =
      any (is_same_sender_commit c.replica_id) (get_cert s (msg_id c.view c.sequence_number)).commit

  abbrev pub is_next_new_view : NewView → Bool
  is_next_new_view nv =
      ltb 0 nv.view
      && (leb s.view nv.view
          && (primary s.config nv.view == nv.replica_id && not (has nv.view s.new_view_store)))

  -- The reasons to ignore an event; none is named for checkpoints and request batches.
  abbrev pub IsIgnored : Event → Type 0
  IsIgnored (request_batch b) = ⊥
  IsIgnored (pre_prepare p) =
      (s.active_view ≡ false)
      ⊎ (((primary s.config s.view == p.replica_id) ≡ false)
          ⊎ (in_wv s p.view p.sequence_number ≡ false))
  IsIgnored (prepare p) =
      ((primary s.config p.view == p.replica_id) ≡ true)
      ⊎ ((in_wv s p.view p.sequence_number ≡ false) ⊎ (is_second_prepare p ≡ true))
  IsIgnored (commit c) = (in_wv s c.view c.sequence_number ≡ false) ⊎ (is_second_commit c ≡ true)
  IsIgnored (checkpoint c) = ⊥
  IsIgnored (view_change vc) =
      (verify env s.out vc ≡ false)
      ⊎ ((ltb vc.view s.view ≡ true)
          ⊎ ((correct_view_change s.config vc ≡ false)
              ⊎ (has (record { v = vc.view; id = vc.replica_id }) s.view_change_store ≡ true)))
  IsIgnored (new_view nv) =
      (is_next_new_view nv ≡ false) ⊎ (every (verify env s.out) nv.vset ≡ false)
  IsIgnored (internal i) = Unit

either :
    {A : Type 0} (b : Bool) (m n : M A) (s : Core) (o : Outcome A)
    → (b ≡ true → m s ≡ o)
    → (b ≡ false → n s ≡ o)
    → (if b then m else n) s ≡ o
unfolding ◌>>=◌
either true m n s o h k = h refl
either false m n s o h k = k refl

module _ (env : Env) (calls : Calls) (s : Core) where
  second_prepare :
      (p : Prepare) → is_second_prepare env s p ≡ true → recv_prepare env calls p s ≡ ok tt s
  unfolding recv_prepare ◌>>=◌
  second_prepare p h =
      let idx = msg_id p.view p.sequence_number in
      let stored : update_cert idx (λ cert. cert) s ≡ s =
        update_cert-tested idx (λ cert. any (is_same_sender_prepare p.replica_id) cert.prepare) s
          refl h in
      either (primary s.config p.view == p.replica_id) _ _ s _ (λ _. refl)
        (λ _.
          either (not (in_wv s p.view p.sequence_number)) _ _ s _ (λ _. refl)
            (λ _.
              either (is_second_prepare env s p) _ _ (update_cert idx (λ cert. cert) s) _
                (λ _. ap (ok tt) stored) (λ no. absurd (cc))))

  second_commit :
      (c : Commit) → is_second_commit env s c ≡ true → recv_commit env calls c s ≡ ok tt s
  unfolding recv_commit ◌>>=◌
  second_commit c h =
      let idx = msg_id c.view c.sequence_number in
      let stored : update_cert idx (λ cert. cert) s ≡ s =
        update_cert-tested idx (λ cert. any (is_same_sender_commit c.replica_id) cert.commit) s refl
          h in
      either (not (in_wv s c.view c.sequence_number)) _ _ s _ (λ _. refl)
        (λ _.
          either (is_second_commit env s c) _ _ (update_cert idx (λ cert. cert) s) _
            (λ _. ap (ok tt) stored) (λ no. absurd (cc)))

  ignored_prepare :
      (p : Prepare) → IsIgnored env s (prepare p) → recv_prepare env calls p s ≡ ok tt s
  ignored_prepare p (inl from_primary) = recv_prepare-ignores env calls s p (inl from_primary)
  ignored_prepare p (inr (inl outside)) = recv_prepare-ignores env calls s p (inr outside)
  ignored_prepare p (inr (inr second)) = second_prepare p second

  ignored_commit : (c : Commit) → IsIgnored env s (commit c) → recv_commit env calls c s ≡ ok tt s
  ignored_commit c (inl outside) = recv_commit-ignores env calls s c outside
  ignored_commit c (inr second) = second_commit c second

  ignored_view_change :
      (vc : ViewChange)
      → IsIgnored env s (view_change vc)
      → recv_view_change env calls vc s ≡ ok none s
  unfolding recv_view_change ◌>>=◌
  ignored_view_change vc h =
      either (not (verify env s.out vc)) _ _ s _ (λ _. refl)
        (λ a.
          either (ltb vc.view s.view) _ _ s _ (λ _. refl)
            (λ b.
              either (not (correct_view_change s.config vc)) _ _ s _ (λ _. refl)
                (λ c.
                  either (has (record { v = vc.view; id = vc.replica_id }) s.view_change_store) _ _
                    s _ (λ _. refl) (λ d. absurd (ground arith)))))

  ignored_new_view :
      (nv : NewView) → IsIgnored env s (new_view nv) → recv_new_view env calls nv s ≡ ok none s
  unfolding recv_new_view ◌>>=◌
  ignored_new_view nv h =
      either (not (is_next_new_view env s nv)) _ _ s _ (λ _. refl)
        (λ a.
          either (not (every (verify env s.out) nv.vset)) _ _ s _ (λ _. refl)
            (λ b. absurd (ground arith)))

then_none :
    {o : Outcome (Unit {0})} {s : Core}
    → o ≡ ok tt s
    → and_then o (λ _. pure {A = Option InternalEvent} none) ≡ ok none s
unfolding ◌>>=◌
then_none e = ap (λ o. and_then o (λ _. pure none)) e

-- `ProcessEvent` ignores, whatever the fuel, without any change to the replica and without a call on
-- its consumer or its timers: a pre-prepare during a view change, from another replica than the
-- primary, of another view or outside the watermarks; a prepare from the primary of its view, of
-- another view, outside the watermarks, or from a replica of which there is one for its view and
-- number; a commit of another view, outside the watermarks, or of such a replica; a view change
-- with a bad signature, for an earlier view, that does not pass `correctViewChange`, or from a
-- replica of which there is one for the view; a new view for view 0, for an earlier view, from
-- another replica than its primary, for a view of which there is one, or with a bad signature on a
-- view change; and every event that is not a message.
pub process_event-ignores :
    (env : Env) (fuel : ℕ) (e : Event) (s : Core)
    → IsIgnored env s e
    → process_event env fuel e s ≡ ok none s
unfolding process_event ◌>>=◌
process_event-ignores env fuel (request_batch b) s h = elim h [ ]
process_event-ignores env fuel (pre_prepare p) s h =
    then_none (recv_pre_prepare-ignores env (calls env fuel) s p h)
process_event-ignores env fuel (prepare p) s h =
    then_none (ignored_prepare env (calls env fuel) s p h)
process_event-ignores env fuel (commit c) s h =
    then_none (ignored_commit env (calls env fuel) s c h)
process_event-ignores env fuel (checkpoint c) s h = elim h [ ]
process_event-ignores env fuel (view_change vc) s h =
    ignored_view_change env (calls env fuel) s vc h
process_event-ignores env fuel (new_view nv) s h = ignored_new_view env (calls env fuel) s nv h
process_event-ignores env fuel (internal i) s h = refl
