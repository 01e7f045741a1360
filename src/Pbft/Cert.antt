-- ===== src/Pbft/Cert.antt =====
-- Certificates: `getCert` and the checks `prePrepared`, `prepared` and `committed` of pbft/core.go.
pub mod Laws
use spree.Base.{
  ℕ, ◌-◌, Bool, true, false, Option, none, some, [], ◌&&◌, ◌||◌, not, leb, ◌==◌, nat_eq, list_eq,
  if◌then◌else◌, Bytes, count,
}
use spree.Base.Map.{lookup, has, put}
use spree.Pbft.Messages.{PrePrepare, Prepare, Commit, PqEntry, MsgId, msg_id_eq, qidx_eq}
use spree.Pbft.Core.{Core, MsgCert}
use spree.Pbft.Quorum.{intersection_quorum}

-- `&msgCert{}`
abbrev pub empty_cert : MsgCert
empty_cert = record {
  digest = [];
  pre_prepare = none;
  sent_prepare = false;
  prepare = [];
  sent_commit = false;
  commit = [];
}

abbrev pub cert_or_new : Option MsgCert → MsgCert
cert_or_new none = empty_cert
cert_or_new (some c) = c

-- `getCert`: the certificate, and the state in which it is stored.
unfoldable pub get_cert : Core → MsgId → MsgCert
get_cert s idx = cert_or_new (lookup idx s.cert_store)

-- A write through the pointer that `getCert` returned. Where the entry is new, this stores it.
unfoldable pub update_cert : MsgId → (MsgCert → MsgCert) → Core → Core
unfolding get_cert
update_cert idx g s = record s { cert_store = put idx (g (get_cert s idx)) s.cert_store }

abbrev pub is_entry_at : Option PqEntry → ℕ → Bool
is_entry_at none v = false
is_entry_at (some q) v = q.view == v

abbrev pub is_entry_of : Option PqEntry → ℕ → Bytes → Bool
is_entry_of none v digest = false
is_entry_of (some p) v digest = p.view == v && p.batch_digest == digest

abbrev pub matches_pre_prepare : Option PrePrepare → Bytes → ℕ → ℕ → Bool
matches_pre_prepare none digest v n = false
matches_pre_prepare (some p) digest v n =
    p.view == v && (p.sequence_number == n && p.batch_digest == digest)

abbrev pub cert_pre_prepared : Option MsgCert → Bytes → ℕ → ℕ → Bool
cert_pre_prepared none digest v n = false
cert_pre_prepared (some cert) digest v n = matches_pre_prepare cert.pre_prepare digest v n

-- `prePrepared`
unfoldable pub pre_prepared : Core → Bytes → ℕ → ℕ → Bool
pre_prepared s digest v n =
    if not (digest == []) && not (has digest s.req_batch_store)
    then false
    else is_entry_at (lookup (record { d = digest; n = n }) s.qset) v
      || cert_pre_prepared (lookup (record { v = v; n = n }) s.cert_store) digest v n

abbrev pub is_prepare_for : Bytes → ℕ → ℕ → Prepare → Bool
is_prepare_for digest v n p = p.view == v && (p.sequence_number == n && p.batch_digest == digest)

abbrev pub is_commit_for : ℕ → ℕ → Commit → Bool
is_commit_for v n p = p.view == v && p.sequence_number == n

abbrev pub cert_prepared : Option MsgCert → Bytes → ℕ → ℕ → ℕ → Bool
cert_prepared none digest v n quorum = false
cert_prepared (some cert) digest v n quorum =
    leb quorum (count (is_prepare_for digest v n) cert.prepare)

-- `prepared`
unfoldable pub prepared : Core → Bytes → ℕ → ℕ → Bool
unfolding pre_prepared intersection_quorum
prepared s digest v n =
    if not (pre_prepared s digest v n)
    then false
    else if is_entry_of (lookup n s.pset) v digest
    then true
    else cert_prepared (lookup (record { v = v; n = n }) s.cert_store) digest v n
        (intersection_quorum s.config - 1)

abbrev pub cert_committed : Option MsgCert → ℕ → ℕ → ℕ → Bool
cert_committed none v n quorum = false
cert_committed (some cert) v n quorum = leb quorum (count (is_commit_for v n) cert.commit)

-- `committed`
unfoldable pub committed : Core → Bytes → ℕ → ℕ → Bool
unfolding prepared
committed s digest v n =
    if not (prepared s digest v n)
    then false
    else cert_committed (lookup (record { v = v; n = n }) s.cert_store) v n
        (intersection_quorum s.config)
