-- ===== src/Pbft/Invariants/Certs.antt =====
-- What the certificates of `certStore` hold, however the replica came to its state.
use spree.Base.{
  ℕ, ◌≡◌, refl, sym, subst, false, Option, none, some, List, [], ◌∷◌, map, ◌==◌, nat_eq, Bytes, All,
  All-append,
}
use spree.Base.Counting.{IsDistinct, IsDistinct-append_map}
use spree.Base.Map.{lookup, All-put, All-lookup, keep_if-All}
use spree.Pbft.Messages.{PrePrepare, Prepare, Commit, MsgId, msg_id_eq}
use spree.Pbft.Core.{Core, Config, Env, MsgCert}
use spree.Pbft.Quorum.{primary}
use spree.Pbft.Cert.{get_cert, update_cert, cert_or_new}
use spree.Pbft.Watermarks.{clean_stores}
use spree.Pbft.Views.{enter_next_view}
use spree.Pbft.Normal.{msg_id}
use spree.Pbft.Replica.{Event}
use spree.Pbft.Invariants.Execution.{process_all, process_all-Reach}
use spree.Pbft.Steps.{
  SameLog, Step, quiet, activate, touch, assign, mark_prepare, mark_commit, add_prepare, add_commit,
  own_checkpoint, store_checkpoint, clean, leave_view, jump, store_view_change, run_batch,
  start_null, run_null, Reach, here, move,
}

-- The pre-prepare is for this view, number and digest.
abbrev pub Fits : MsgId → Bytes → Option PrePrepare → Type 0
Fits idx d none = Unit {0}
Fits idx d (some p) = (p.view ≡ idx.v) × (p.sequence_number ≡ idx.n) × (p.batch_digest ≡ d)

abbrev pub IsPrepareAt : Config → MsgId → Prepare → Type 0
IsPrepareAt c idx p =
    (p.view ≡ idx.v) × (p.sequence_number ≡ idx.n) × ((primary c p.view == p.replica_id) ≡ false)

abbrev pub IsCommitAt : MsgId → Commit → Type 0
IsCommitAt idx m = (m.view ≡ idx.v) × (m.sequence_number ≡ idx.n)

abbrev pub prepare_senders : MsgCert → List ℕ
prepare_senders cert = map (λ (p : Prepare). p.replica_id) cert.prepare

abbrev pub commit_senders : MsgCert → List ℕ
commit_senders cert = map (λ (c : Commit). c.replica_id) cert.commit

-- Every message is for the entry's view and number, no replica counts twice, and the primary has
-- no prepare.
pub record IsSound (c : Config) (e : MsgId × MsgCert) : Type 0 where
  pub fits : Fits e.0 e.1.digest e.1.pre_prepare
  pub prepares : All (IsPrepareAt c e.0) e.1.prepare
  pub prepare_once : IsDistinct (prepare_senders e.1)
  pub commits : All (IsCommitAt e.0) e.1.commit
  pub commit_once : IsDistinct (commit_senders e.1)

abbrev pub AreSound : Core → Type 0
AreSound s = All (IsSound s.config) s.cert_store

cert_or_new-IsSound :
    (c : Config) (idx : MsgId) (m : Option MsgCert)
    → ((cert : MsgCert) → m ≡ some cert → IsSound c (idx, cert))
    → IsSound c (idx, cert_or_new m)
cert_or_new-IsSound c idx none h = record {
  fits = tt;
  prepares = tt;
  prepare_once = tt;
  commits = tt;
  commit_once = tt;
}
cert_or_new-IsSound c idx (some cert) h = h cert refl

pub get_cert-IsSound :
    (s : Core) (idx : MsgId) → AreSound s → IsSound s.config (idx, get_cert s idx)
unfolding get_cert
get_cert-IsSound s idx a =
    cert_or_new-IsSound s.config idx (lookup idx s.cert_store)
      (λ cert l. All-lookup (IsSound s.config) idx cert s.cert_store l a)

update_cert-AreSound :
    (s : Core) (idx : MsgId) (g : MsgCert → MsgCert)
    → AreSound s
    → (IsSound s.config (idx, get_cert s idx) → IsSound s.config (idx, g (get_cert s idx)))
    → AreSound (update_cert idx g s)
unfolding update_cert
update_cert-AreSound s idx g a f =
    All-put (IsSound s.config) idx (g (get_cert s idx)) s.cert_store (f (get_cert-IsSound s idx a))
      a

SameLog-AreSound : {s t : Core} → SameLog s t → AreSound s → AreSound t
SameLog-AreSound {s} {t} e a =
    subst (λ c. All (IsSound c) t.cert_store) (sym e.config)
      (subst (All (IsSound s.config)) (sym e.cert_store) a)

mutual
  unfolding clean_stores enter_next_view

  Step-AreSound : {s t : Core} → Step s t → AreSound s → AreSound t
  Step-AreSound (quiet e) a = SameLog-AreSound e a
  Step-AreSound (activate e) a = SameLog-AreSound e a
  Step-AreSound {s} (touch idx) a = update_cert-AreSound s idx _ a (λ i. i)
  Step-AreSound {s} (assign v n p q r) a = update_cert-AreSound s (msg_id v n) _ a (λ i. record {
    fits = (q, r, refl);
    prepares = i.prepares;
    prepare_once = i.prepare_once;
    commits = i.commits;
    commit_once = i.commit_once;
  })
  Step-AreSound {s} (mark_prepare idx) a = update_cert-AreSound s idx _ a (λ i. record {
    fits = i.fits;
    prepares = i.prepares;
    prepare_once = i.prepare_once;
    commits = i.commits;
    commit_once = i.commit_once;
  })
  Step-AreSound {s} (mark_commit idx) a = update_cert-AreSound s idx _ a (λ i. record {
    fits = i.fits;
    prepares = i.prepares;
    prepare_once = i.prepare_once;
    commits = i.commits;
    commit_once = i.commit_once;
  })
  Step-AreSound {s} (add_prepare p b c d) a =
      let idx = msg_id p.view p.sequence_number in
      update_cert-AreSound s idx _ a (λ i. record {
        fits = i.fits;
        prepares =
            All-append (IsPrepareAt s.config idx) (get_cert s idx).prepare (p ∷ []) i.prepares
              ((refl, refl, b), tt);
        prepare_once =
            IsDistinct-append_map (λ (q : Prepare). q.replica_id) p (get_cert s idx).prepare d
              i.prepare_once;
        commits = i.commits;
        commit_once = i.commit_once;
      })
  Step-AreSound {s} (add_commit m b d) a =
      let idx = msg_id m.view m.sequence_number in
      update_cert-AreSound s idx _ a (λ i. record {
        fits = i.fits;
        prepares = i.prepares;
        prepare_once = i.prepare_once;
        commits =
            All-append (IsCommitAt idx) (get_cert s idx).commit (m ∷ []) i.commits
              ((refl, refl), tt);
        commit_once =
            IsDistinct-append_map (λ (q : Commit). q.replica_id) m (get_cert s idx).commit d
              i.commit_once;
      })
  Step-AreSound (own_checkpoint n id) a = a
  Step-AreSound (store_checkpoint k b) a = a
  Step-AreSound {s} (clean n k e) a = keep_if-All (IsSound s.config) _ s.cert_store a
  Step-AreSound {s} leave_view a = keep_if-All (IsSound s.config) _ s.cert_store a
  Step-AreSound (jump v) a = a
  Step-AreSound (store_view_change idx vc b) a = a
  Step-AreSound (run_batch v n d b p q r) a = a
  Step-AreSound (start_null n p q) a = a
  Step-AreSound (run_null n p q r) a = Reach-keeps_sound r a

  Reach-keeps_sound : {s t : Core} → Reach s t → AreSound s → AreSound t
  Reach-keeps_sound here a = a
  Reach-keeps_sound (move st r) a = Reach-keeps_sound r (Step-AreSound st a)

pub Reach-AreSound : {s t : Core} → Reach s t → AreSound s → AreSound t
Reach-AreSound r a = Reach-keeps_sound r a

-- Whatever events a replica processes, with whatever fuel, its certificates stay sound: the
-- messages of each are for its view and number, its pre-prepare also for its digest, no replica
-- has two prepares or two commits in it, and the primary of the view has no prepare.
pub process_all-AreSound :
    (env : Env) (es : List (ℕ × Event)) (s : Core) → AreSound s → AreSound (process_all env es s)
process_all-AreSound env es s a = Reach-AreSound (process_all-Reach env es s) a
