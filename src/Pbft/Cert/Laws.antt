-- ===== src/Pbft/Cert/Laws.antt =====
-- Reading a certificate back.
use spree.Base.{
  some, Bool, true, false, ap, Option-cases, inl, inr, ℕ, ◌≡◌, refl, arith, ◌==◌, cond, beq_refl,
}
use spree.Base.Map.{lookup, lookup-put, put-lookup}
use spree.Pbft.Messages.{MsgId, msg_id_eq}
use spree.Pbft.Core.{Core, MsgCert}
use spree.Pbft.Quorum.{in_wv}
use spree.Pbft.Cert.{get_cert, update_cert, empty_cert}

-- What is written through the pointer is read through it, and other entries stay.
get_cert-update :
    (i j : MsgId) (g : MsgCert → MsgCert) (s : Core)
    → get_cert (update_cert i g s) j ≡ cond (i == j) (g (get_cert s i)) (get_cert s j)
unfolding get_cert update_cert
get_cert-update i j g s = rw (lookup-put i j (g (get_cert s i)) s.cert_store) (ground arith)

pub get_cert-update_self :
    (i : MsgId) (g : MsgCert → MsgCert) (s : Core)
    → get_cert (update_cert i g s) i ≡ g (get_cert s i)
get_cert-update_self i g s = rw (get_cert-update i i g s) (rw (beq_refl i))

pub in_wv-update :
    (i : MsgId) (g : MsgCert → MsgCert) (s : Core) (v n : ℕ)
    → in_wv (update_cert i g s) v n ≡ in_wv s v n
unfolding in_wv update_cert
in_wv-update i g s v n = refl

-- A read through a pointer to a stored certificate leaves the store as it is.
update_cert-stored :
    (i : MsgId) (c : MsgCert) (s : Core)
    → lookup i s.cert_store ≡ some c
    → update_cert i (λ cert. cert) s ≡ s
unfolding get_cert update_cert
update_cert-stored i c s h =
    ap (λ m. record s { cert_store = m }) (rw h (put-lookup i c s.cert_store h))

-- A certificate for which a test holds that an empty one does not pass is stored.
pub update_cert-tested :
    (i : MsgId) (test : MsgCert → Bool) (s : Core)
    → test empty_cert ≡ false
    → test (get_cert s i) ≡ true
    → update_cert i (λ cert. cert) s ≡ s
unfolding get_cert
update_cert-tested i test s e h = elim (Option-cases (lookup i s.cert_store)) [
  | inl absent ↦ absurd (let k : test empty_cert ≡ true = rw absent at h in cc)
  | inr (c, stored) ↦ update_cert-stored i c s stored
]
