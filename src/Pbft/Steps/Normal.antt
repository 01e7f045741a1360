-- ===== src/Pbft/Steps/Normal.antt =====
-- The handlers of the normal case make moves only.
use spree.Base.{ℕ, ◌≡◌, refl, Bool, true, false, not, Option, Bytes, any, ◌==◌, nat_eq}
use spree.Pbft.Messages.{RequestBatch, PrePrepare, Prepare, Commit, MsgId}
use spree.Pbft.Core.{Core, Env, MsgCert}
use spree.Pbft.Quorum.{primary, in_wv}
use spree.Pbft.Cert.{get_cert, update_cert}
use spree.Pbft.Cert.Laws.{get_cert-update_self, in_wv-update}
use spree.Pbft.Calls.{Calls}
use spree.Pbft.Normal.{
  is_same_sender_prepare, is_same_sender_commit, on_committed, recv_commit, maybe_send_commit,
  recv_prepare, send_pre_prepare, recv_request_batch, follow_pre_prepare, store_pre_prepared,
  recv_pre_prepare,
}
use spree.Pbft.Steps.{quiet, touch, assign, mark_prepare, mark_commit, add_prepare, add_commit}
use spree.Pbft.Steps.Rules.{Runs, runs_skip, runs_if, runs_get, runs_bind, runs_move, not-false}
use spree.Pbft.Steps.Helpers.{
  soft_start_timer-runs, stop_timer-runs, inner_broadcast-runs, persist_request_batch-runs,
  persist_qset-runs, persist_pset-runs,
}
use spree.Pbft.Steps.Views.{CallsRun, send_view_change-runs}

-- A test of a certificate and of the view stays what it was when the certificate is touched.
touched :
    (idx : MsgId) (s : Core) (p : MsgCert → Bool)
    → p (get_cert s idx) ≡ false
    → p (get_cert (update_cert idx (λ cert. cert) s) idx) ≡ false
touched idx s p h = rw (get_cert-update_self idx (λ cert. cert) s) h

in_wv-touched :
    (idx : MsgId) (s : Core) (v n : ℕ)
    → not (in_wv s v n) ≡ false
    → in_wv (update_cert idx (λ cert. cert) s) v n ≡ true
in_wv-touched idx s v n h = rw (in_wv-update idx (λ cert. cert) s v n) (not-false h)

primary-touched :
    (idx : MsgId) (s : Core) (v id : ℕ)
    → (primary s.config v == id) ≡ false
    → (primary (update_cert idx (λ cert. cert) s).config v == id) ≡ false
unfolding update_cert
primary-touched idx s v id h = h

module _ (env : Env) {calls : Calls} (run : CallsRun calls) where
  on_committed-runs : {s : Core} (c : Commit) → Runs s (on_committed env calls c)
  unfolding on_committed
  on_committed-runs c = runs_bind _ _ stop_timer-runs λ _ t.
      runs_move _ _ (quiet (assumption refl)) (
        runs_bind _ _ (run.execute_outstanding _) λ _ u. runs_get _ (
          runs_if _ _ _ (λ _. runs_bind _ _ (send_view_change-runs env run) (λ _ _. runs_skip))
            (λ _. runs_skip)))

  pub recv_commit-runs : {s : Core} (c : Commit) → Runs s (recv_commit env calls c)
  unfolding recv_commit
  recv_commit-runs {s} c = runs_get _ (
      runs_if _ _ _ (λ _. runs_skip)
        λ open_. runs_move _ _ (touch _) (
          runs_if _ _ _ (λ _. runs_skip)
            λ new.
              runs_move _ _
                (add_commit c (in_wv-touched _ s _ _ open_)
                  (touched _ s (λ cert. any (is_same_sender_commit c.replica_id) cert.commit) new))
                (runs_get _ (runs_if _ _ _ (λ _. on_committed-runs c) (λ _. runs_skip)))))

  maybe_send_commit-runs :
      {s : Core} (digest : Bytes) (v n : ℕ) → Runs s (maybe_send_commit env calls digest v n)
  unfolding maybe_send_commit
  maybe_send_commit-runs digest v n = runs_move _ _ (touch _) (
      runs_get _ (
        runs_if _ _ _ (λ _. runs_skip)
          λ _.
            runs_move _ _ (mark_commit _)
              (runs_bind _ _ (recv_commit-runs _) (λ _ t. inner_broadcast-runs env _))))

  pub recv_prepare-runs : {s : Core} (p : Prepare) → Runs s (recv_prepare env calls p)
  unfolding recv_prepare
  recv_prepare-runs {s} p = runs_get _ (
      runs_if _ _ _ (λ _. runs_skip)
        λ backup.
          runs_if _ _ _ (λ _. runs_skip)
            λ open_. runs_move _ _ (touch _) (
              runs_if _ _ _ (λ _. runs_skip)
                λ new.
                  runs_move _ _
                    (add_prepare p (primary-touched _ s _ _ backup) (in_wv-touched _ s _ _ open_) (
                      touched _ s (λ cert. any (is_same_sender_prepare p.replica_id) cert.prepare)
                        new))
                    (runs_bind _ _ (persist_pset-runs env) (λ _ t. maybe_send_commit-runs _ _ _))))

  send_pre_prepare-runs :
      {s : Core} (batch : Option RequestBatch) (digest : Bytes)
      → Runs s (send_pre_prepare env calls batch digest)
  unfolding send_pre_prepare
  send_pre_prepare-runs batch digest = runs_get _ (
      runs_if _ _ _ (λ _. runs_skip)
        λ _.
          runs_if _ _ _ (λ _. runs_skip)
            λ _.
              runs_if _ _ _ (λ _. runs_skip)
                λ _. runs_move _ _ (quiet (assumption refl)) (
                  runs_move _ _ (assign _ _ _ refl refl) (
                    runs_bind _ _ (persist_qset-runs env) λ _ t.
                      runs_bind _ _ (inner_broadcast-runs env _)
                        λ _ u. maybe_send_commit-runs _ _ _)))

  pub recv_request_batch-runs :
      {s : Core} (batch : Option RequestBatch) → Runs s (recv_request_batch env calls batch)
  unfolding recv_request_batch
  recv_request_batch-runs batch = runs_move _ _ (quiet (assumption refl)) (
      runs_bind _ _ (persist_request_batch-runs env _) λ _ t. runs_get _ (
        runs_bind _ _ (runs_if _ _ _ (λ _. soft_start_timer-runs _ _) (λ _. runs_skip)) λ _ u.
          runs_if _ _ _ (λ _. runs_skip)
            λ _. runs_move _ _ (quiet (assumption refl)) (send_pre_prepare-runs _ _)))

  follow_pre_prepare-runs : {s : Core} (pp : PrePrepare) → Runs s (follow_pre_prepare env calls pp)
  unfolding follow_pre_prepare
  follow_pre_prepare-runs pp = runs_get _ (
      runs_bind _ _ (soft_start_timer-runs _ _) λ _ t. runs_move _ _ (quiet (assumption refl)) (
        runs_get _ (
          runs_if _ _ _ (λ _. runs_skip)
            λ _. runs_move _ _ (mark_prepare _) (
              runs_bind _ _ (persist_qset-runs env)
                λ _ u. runs_bind _ _ (recv_prepare-runs _) (λ _ w. inner_broadcast-runs env _)))))

  store_pre_prepared-runs : {s : Core} (pp : PrePrepare) → Runs s (store_pre_prepared env calls pp)
  unfolding store_pre_prepared
  store_pre_prepared-runs pp = runs_get _ (
      runs_if _ _ _ (λ _. follow_pre_prepare-runs pp)
        λ _.
          runs_if _ _ _ (λ _. runs_skip)
            λ _. runs_move _ _ (quiet (assumption refl)) (
              runs_bind _ _ (persist_request_batch-runs env _) (λ _ t. follow_pre_prepare-runs pp)))

  pub recv_pre_prepare-runs : {s : Core} (pp : PrePrepare) → Runs s (recv_pre_prepare env calls pp)
  unfolding recv_pre_prepare
  recv_pre_prepare-runs pp =
      let leave =
        λ (t : Core). runs_bind {s = t} _ _ (send_view_change-runs env run) (λ _ _. runs_skip) in
      runs_get _ (
        runs_if _ _ _ (λ _. runs_skip)
          λ _.
            runs_if _ _ _ (λ _. runs_skip)
              λ _.
                runs_if _ _ _ (λ _. runs_skip)
                  λ _.
                    runs_if _ _ _ (λ _. leave _)
                      λ _. runs_move _ _ (touch _) (
                        runs_if _ _ _ (λ _. leave _)
                          λ _.
                            runs_move _ _ (assign _ _ pp refl refl) (store_pre_prepared-runs pp)))
