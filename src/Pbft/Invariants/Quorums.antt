-- ===== src/Pbft/Invariants/Quorums.antt =====
-- The quorums of replicas behind `prepared` and `committed`.
use spree.Base.{
  list_eq, ℕ, ◌+◌, ◌-◌, ◌≤◌, ◌≡◌, refl, Bool, true, false, Option, none, some, List, [], ◌∷◌, map,
  ◌==◌, nat_eq, Bytes, length, filter, count, length-filter, count-le-length, All, arith,
  nat_beq_iff, subst,
}
use spree.Base.Counting.{IsDistinct, IsDistinct-filter, contains}
use spree.Base.Map.{lookup}
use spree.Pbft.Messages.{Prepare, Commit, MsgId, msg_id_eq}
use spree.Pbft.Core.{Core, Config, MsgCert}
use spree.Pbft.Quorum.{primary, intersection_quorum}
use spree.Pbft.Cert.{
  get_cert, prepared, committed, is_prepare_for, is_commit_for, cert_or_new, cert_prepared,
  cert_committed, is_entry_of,
}
use spree.Pbft.Normal.{msg_id}
use spree.Pbft.Invariants.Certs.{AreSound, IsSound, IsPrepareAt, get_cert-IsSound, commit_senders}

-- The primary of the view, and the replicas whose prepare in the certificate is for the digest.
abbrev pub supporters : Config → Bytes → ℕ → ℕ → MsgCert → List ℕ
supporters c digest v n cert =
    primary c v
    ∷ map (λ (p : Prepare). p.replica_id) (filter (is_prepare_for digest v n) cert.prepare)

length-map : {A : Type 0} (f : A → ℕ) (xs : List A) → length (map f xs) ≡ length xs
length-map f [] = refl
length-map f (x ∷ xs) = omega (arith, length-map f xs)

count-cert_prepared :
    (m : Option MsgCert) (digest : Bytes) (v n q : ℕ)
    → cert_prepared m digest v n q ≡ true
    → q ≤ count (is_prepare_for digest v n) (cert_or_new m).prepare
count-cert_prepared none digest v n q h = cc
count-cert_prepared (some cert) digest v n q h = ground arith

count-cert_committed :
    (m : Option MsgCert) (v n q : ℕ)
    → cert_committed m v n q ≡ true
    → q ≤ count (is_commit_for v n) (cert_or_new m).commit
count-cert_committed none v n q h = cc
count-cert_committed (some cert) v n q h = ground arith

-- Short of an entry of the P set, `prepared` has counted the prepares.
prepared-count :
    (s : Core) (digest : Bytes) (v n : ℕ)
    → is_entry_of (lookup n s.pset) v digest ≡ false
    → prepared s digest v n ≡ true
    → intersection_quorum s.config
      ≤ 1 + count (is_prepare_for digest v n) (get_cert s (msg_id v n)).prepare
unfolding prepared get_cert
prepared-count s digest v n e h = ground (
  arith,
  count-cert_prepared (lookup (msg_id v n) s.cert_store) digest v n
      (intersection_quorum s.config - 1),
)

contains-primary :
    (c : Config) (idx : MsgId) (p : Prepare → Bool) (xs : List Prepare)
    → All (IsPrepareAt c idx) xs
    → contains (primary c idx.v) (map (λ (p : Prepare). p.replica_id) (filter p xs)) ≡ false
contains-primary c idx p [] h = refl
contains-primary c idx p (x ∷ xs) h =
    let other : (primary c idx.v == x.replica_id) ≡ false =
      subst (λ v. (primary c v == x.replica_id) ≡ false) h.0.0 h.0.2 in
    ground (
      arith,
      nat_beq_iff (primary c idx.v) x.replica_id,
      nat_beq_iff x.replica_id (primary c idx.v),
      contains-primary c idx p xs h.1,
    )

length-supporters :
    (c : Config) (digest : Bytes) (v n : ℕ) (cert : MsgCert)
    → length (supporters c digest v n cert) ≡ 1 + count (is_prepare_for digest v n) cert.prepare
length-supporters c digest v n cert = omega (
  arith,
  length-map (λ (p : Prepare). p.replica_id) (filter (is_prepare_for digest v n) cert.prepare),
  length-filter (is_prepare_for digest v n) cert.prepare,
)

supporters-IsDistinct :
    (c : Config) (digest : Bytes) (v n : ℕ) (cert : MsgCert)
    → IsSound c (msg_id v n, cert)
    → IsDistinct (supporters c digest v n cert)
supporters-IsDistinct c digest v n cert i = (
  contains-primary c (msg_id v n) (is_prepare_for digest v n) cert.prepare i.prepares,
  IsDistinct-filter (λ (p : Prepare). p.replica_id) (is_prepare_for digest v n) cert.prepare
      i.prepare_once,
)

-- Where the certificates are sound and the P set has no entry of this view for the digest,
-- `prepared` holds only if the primary of the view and the senders of the matching prepares are
-- together an intersection quorum of replicas, each counted once.
pub prepared-quorum :
    (s : Core) (digest : Bytes) (v n : ℕ)
    → AreSound s
    → is_entry_of (lookup n s.pset) v digest ≡ false
    → prepared s digest v n ≡ true
    → let ids = supporters s.config digest v n (get_cert s (msg_id v n)) in
      IsDistinct ids × (intersection_quorum s.config ≤ length ids)
prepared-quorum s digest v n a e h =
    let cert = get_cert s (msg_id v n) in
    (
      supporters-IsDistinct s.config digest v n cert (get_cert-IsSound s (msg_id v n) a),
      omega (arith, prepared-count s digest v n e h, length-supporters s.config digest v n cert),
    )

committed-cert :
    (s : Core) (digest : Bytes) (v n : ℕ)
    → committed s digest v n ≡ true
    → cert_committed (lookup (msg_id v n) s.cert_store) v n (intersection_quorum s.config) ≡ true
unfolding committed
committed-cert s digest v n h = ground arith

-- Where the certificates are sound, `committed` holds only if the commits of the certificate come
-- from an intersection quorum of replicas, each counted once, and the batch is `prepared`.
pub committed-quorum :
    (s : Core) (digest : Bytes) (v n : ℕ)
    → AreSound s
    → committed s digest v n ≡ true
    → let ids = commit_senders (get_cert s (msg_id v n)) in
      IsDistinct ids × (intersection_quorum s.config ≤ length ids) × (prepared s digest v n ≡ true)
unfolding committed get_cert
committed-quorum s digest v n a h =
    let m = lookup (msg_id v n) s.cert_store in
    let cert = cert_or_new m in
    (
      (get_cert-IsSound s (msg_id v n) a).commit_once,
      omega (
        arith,
        count-cert_committed m v n (intersection_quorum s.config) (committed-cert s digest v n h),
        length-map (λ (c : Commit). c.replica_id) cert.commit,
        count-le-length (is_commit_for v n) cert.commit,
      ),
      ground arith,
    )
