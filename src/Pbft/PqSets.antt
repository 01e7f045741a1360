-- ===== src/Pbft/PqSets.antt =====
-- The P and Q sets of a view change: `calcPSet` and `calcQSet` of pbft/core.go.
pub mod Laws
pub mod Order
mod Tests
use spree.Base.{
  ℕ, Bool, false, not, Option, none, some, [], ◌∷◌, ltb, nat_eq, if◌then◌else◌, is_some,
}
use spree.Base.Map.{Map, lookup, put}
use spree.Pbft.Messages.{PqEntry, Qidx, MsgId, qidx_eq}
use spree.Pbft.Core.{Core, MsgCert}
use spree.Pbft.Cert.{prepared, pre_prepared}

abbrev pub entry_of : MsgId → MsgCert → PqEntry
entry_of idx cert = record { sequence_number = idx.n; batch_digest = cert.digest; view = idx.v }

-- The set has an entry of a later view.
abbrev pub is_later : Option PqEntry → ℕ → Bool
is_later none v = false
is_later (some p) v = ltb v p.view

abbrev pub enters_pset : Core → MsgId → MsgCert → Map ℕ PqEntry → Bool
enters_pset s idx cert pset =
    if not (is_some cert.pre_prepare)
    then false
    else if not (prepared s cert.digest idx.v idx.n)
    then false
    else not (is_later (lookup idx.n pset) idx.v)

-- The loop over `certStore`.
unfoldable pub extend_pset : Core → Map MsgId MsgCert → Map ℕ PqEntry → Map ℕ PqEntry
extend_pset s [] pset = pset
extend_pset s ((idx, cert) ∷ certs) pset =
    extend_pset s certs
      (if enters_pset s idx cert pset then put idx.n (entry_of idx cert) pset else pset)

-- `calcPSet`
unfoldable pub calc_pset : Core → Map ℕ PqEntry
calc_pset s = extend_pset s s.cert_store s.pset

abbrev pub enters_qset : Core → MsgId → MsgCert → Map Qidx PqEntry → Bool
enters_qset s idx cert qset =
    if not (is_some cert.pre_prepare)
    then false
    else if not (pre_prepared s cert.digest idx.v idx.n)
    then false
    else not (is_later (lookup (record { d = cert.digest; n = idx.n }) qset) idx.v)

unfoldable pub extend_qset : Core → Map MsgId MsgCert → Map Qidx PqEntry → Map Qidx PqEntry
extend_qset s [] qset = qset
extend_qset s ((idx, cert) ∷ certs) qset = extend_qset s certs (
    if enters_qset s idx cert qset
    then put (record { d = cert.digest; n = idx.n }) (entry_of idx cert) qset
    else qset)

-- `calcQSet`
unfoldable pub calc_qset : Core → Map Qidx PqEntry
calc_qset s = extend_qset s s.cert_store s.qset
