-- ===== src/Pbft/Invariants/Agreement.antt =====
-- What two replicas for which a batch is `prepared` agree on.
use spree.Base.{
  Bool-cases, ◌&&◌, inl, inr, list_eq, ℕ, zero, suc, ◌%◌, ◌≤◌, ◌<◌, ◌≡◌, sym, ap, ◌∙◌, Bool, true,
  false, List, [], ◌∷◌, map, ◌==◌, nat_eq, Bytes, filter, All, arith, nat_beq_iff, list_beq_iff,
  subst,
}
use spree.Base.Counting.{contains, count_below, common_good}
use native.Mathlib.Omega.{mod_fact}
use spree.Base.Map.{lookup}
use spree.Pbft.Messages.{Prepare, msg_id_eq}
use spree.Pbft.Core.{Core}
use spree.Pbft.Quorum.{primary, intersection_quorum}
use spree.Pbft.Cert.{get_cert, pre_prepared, prepared, is_prepare_for, is_entry_of}
use spree.Pbft.Normal.{msg_id}
use spree.Pbft.Invariants.Certs.{AreSound}
use spree.Pbft.Invariants.Quorums.{supporters, prepared-quorum}

-- What is assumed of the messages for a view and number that a replica has: their senders are
-- replicas, a backup that is not faulty sends prepares for one digest only, `says` of it, and so
-- does a primary with its pre-prepares.
pub record AreHonest (bad : ℕ → Bool) (says : ℕ → Bytes) (s : Core) (v n : ℕ) : Type 0 where
  pub prepares :
      All
        (λ (p : Prepare).
          (p.replica_id < s.n) × (bad p.replica_id ≡ false → p.batch_digest ≡ says p.replica_id))
        (get_cert s (msg_id v n)).prepare
  pub pre_prepare :
      (digest : Bytes)
      → pre_prepared s digest v n ≡ true
      → bad (primary s.config v) ≡ false
      → digest ≡ says (primary s.config v)

sender-says :
    (bad : ℕ → Bool) (says : ℕ → Bytes) (bound x : ℕ) (digest : Bytes) (v n : ℕ) (ps : List Prepare)
    → All
        (λ (p : Prepare).
          (p.replica_id < bound) × (bad p.replica_id ≡ false → p.batch_digest ≡ says p.replica_id))
        ps
    → contains x (map (λ (p : Prepare). p.replica_id) (filter (is_prepare_for digest v n) ps))
      ≡ true
    → bad x ≡ false
    → digest ≡ says x
sender-says bad says bound x digest v n [] h c g = cc
sender-says bad says bound x digest v n (p ∷ ps) h c g =
    elim (Bool-cases (is_prepare_for digest v n p && p.replica_id == x)) [
      | inl both ↦
          let same : p.replica_id ≡ x = (nat_beq_iff p.replica_id x).0 (ground arith) in
          let mine : p.batch_digest ≡ digest =
            (list_beq_iff p.batch_digest digest).0 (ground arith) in
          sym mine ∙ h.0.1 (ap bad same ∙ g) ∙ ap says same
      | inr other ↦ sender-says bad says bound x digest v n ps h.1 (ground arith) g
    ]

senders-below :
    (bad : ℕ → Bool) (says : ℕ → Bytes) (bound : ℕ) (q : Prepare → Bool) (ps : List Prepare)
    → All
        (λ (p : Prepare).
          (p.replica_id < bound) × (bad p.replica_id ≡ false → p.batch_digest ≡ says p.replica_id))
        ps
    → All (λ x. x < bound) (map (λ (p : Prepare). p.replica_id) (filter q ps))
senders-below bad says bound q [] h = tt
senders-below bad says bound q (p ∷ ps) h = ground (arith, senders-below bad says bound q ps h.1)

supporter-says :
    (bad : ℕ → Bool) (says : ℕ → Bytes) (s : Core) (digest : Bytes) (v n x : ℕ)
    → AreHonest bad says s v n
    → pre_prepared s digest v n ≡ true
    → contains x (supporters s.config digest v n (get_cert s (msg_id v n))) ≡ true
    → bad x ≡ false
    → digest ≡ says x
supporter-says bad says s digest v n x h pre c g =
    let ps = (get_cert s (msg_id v n)).prepare in
    elim (Bool-cases (primary s.config v == x)) [
      | inl e ↦
          let same = (nat_beq_iff (primary s.config v) x).0 e in
          h.pre_prepare digest pre (ap bad same ∙ g) ∙ ap says same
      | inr e ↦ sender-says bad says s.n x digest v n ps h.prepares (ground arith) g
    ]

mod_below : (v m : ℕ) → 0 < m → v % m < m
mod_below v zero h = absurd (omega arith)
mod_below v (suc m) h = mod_fact v m

supporters-below :
    (bad : ℕ → Bool) (says : ℕ → Bytes) (s : Core) (digest : Bytes) (v n : ℕ)
    → AreHonest bad says s v n
    → 0 < s.n
    → s.replica_count ≡ s.n
    → All (λ x. x < s.n) (supporters s.config digest v n (get_cert s (msg_id v n)))
unfolding primary
supporters-below bad says s digest v n h pos r = (
  subst (λ m. v % m < s.n) (sym r) (mod_below v s.n pos),
  senders-below bad says s.n (is_prepare_for digest v n) (get_cert s (msg_id v n)).prepare
      h.prepares,
)

prepared-pre_prepared :
    (s : Core) (digest : Bytes) (v n : ℕ)
    → prepared s digest v n ≡ true
    → pre_prepared s digest v n ≡ true
unfolding prepared
prepared-pre_prepared s digest v n h = ground arith

-- Agreement in a view: let two replicas of one network, whose certificates are sound, each find a
-- digest `prepared` for the same view and number, not by an entry of the P set. If at most `f` of
-- the `N` replicas are faulty, and the messages that the two have for the view and number are from
-- replicas of which those that are not faulty each support one digest, the digests are the same.
pub prepared-agree :
    (s t : Core) (bad : ℕ → Bool) (says : ℕ → Bytes) (v n : ℕ) (d e : Bytes)
    → AreSound s
    → AreSound t
    → 0 < s.n
    → s.replica_count ≡ s.n
    → t.n ≡ s.n
    → t.f ≡ s.f
    → t.replica_count ≡ s.replica_count
    → count_below bad s.n ≤ s.f
    → AreHonest bad says s v n
    → AreHonest bad says t v n
    → is_entry_of (lookup n s.pset) v d ≡ false
    → is_entry_of (lookup n t.pset) v e ≡ false
    → prepared s d v n ≡ true
    → prepared t e v n ≡ true
    → d ≡ e
unfolding intersection_quorum
prepared-agree s t bad says v n d e sound_s sound_t pos rs nn ff rr few hs ht ps pt qs qt =
    let xs = supporters s.config d v n (get_cert s (msg_id v n)) in
    let ys = supporters t.config e v n (get_cert t (msg_id v n)) in
    let (dx, lx) = prepared-quorum s d v n sound_s ps qs in
    let (dy, ly) = prepared-quorum t e v n sound_t pt qt in
    let below = supporters-below bad says t e v n ht (omega arith) (rr ∙ rs ∙ sym nn) in
    let (x, inx, iny, good) =
      common_good s.n bad xs ys dx dy (supporters-below bad says s d v n hs pos rs)
        (subst (λ b. All (λ x. x < b) ys) nn below) (omega arith) in
    supporter-says bad says s d v n x hs (prepared-pre_prepared s d v n qs) inx good
    ∙ sym (supporter-says bad says t e v n x ht (prepared-pre_prepared t e v n qt) iny good)
