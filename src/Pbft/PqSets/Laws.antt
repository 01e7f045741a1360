-- ===== src/Pbft/PqSets/Laws.antt =====
-- What the P and Q sets of a view change hold: no prepared or pre-prepared batch is forgotten.
use spree.Base.{
  some_inj, subst, Eq, ℕ, ◌≤◌, ◌≡◌, refl, ◌∙◌, sym, ◌⊎◌, inl, inr, Bool, true, false, not, Option,
  none, some, [], ◌∷◌, nat_eq, beq_refl, is_some, if◌then◌else◌, Bool-cases, arith, All,
}
use spree.Base.Map.{Map, lookup, put, lookup-put, All-lookup}
use spree.Pbft.Messages.{PqEntry, MsgId, qidx_eq, msg_id_eq}
use spree.Pbft.Core.{Core, MsgCert}
use spree.Pbft.Cert.{prepared}
use spree.Pbft.PqSets.{entry_of, is_later, enters_pset, extend_pset, calc_pset}

-- The set has an entry of this view or a later one.
abbrev pub HasView : Option PqEntry → ℕ → Type 0
HasView o v = (p : PqEntry) × (o ≡ some p) × (v ≤ p.view)

not_later : (o : Option PqEntry) (v w : ℕ) → HasView o v → not (is_later o w) ≡ true → v ≤ w
not_later none v w h l = cc
not_later (some q) v w (p, e, le) l = ground arith

is_later-HasView : (o : Option PqEntry) (v : ℕ) → is_later o v ≡ true → HasView o v
is_later-HasView none v l = cc
is_later-HasView (some q) v l = (q, refl, ground arith)

-- One round of either loop.
module _ {K : Type 0} ⦃e : Eq K⦄ where
  put_if-keeps :
      (b : Bool) (k j : K) (q : PqEntry) (m : Map K PqEntry) (v : ℕ)
      → (b ≡ true → not (is_later (lookup k m) q.view) ≡ true)
      → HasView (lookup j m) v
      → HasView (lookup j (if b then put k q m else m)) v
  put_if-keeps false k j q m v l h = h
  put_if-keeps true k j q m v l h = elim (Bool-cases (e.equals k j)) [
    | inl same ↦ (
      q,
      lookup-put k j q m ∙ ground arith,
      not_later (lookup k m) v q.view
          (subst (λ i. HasView (lookup i m) v) (sym ((e.equals_iff k j).0 same)) h) (l refl),
    )
    | inr other ↦ subst (λ o. HasView o v) (sym (lookup-put k j q m ∙ ground arith)) h
  ]

  put_if-HasView :
      (b : Bool) (k : K) (q : PqEntry) (m : Map K PqEntry)
      → (b ≡ false → is_later (lookup k m) q.view ≡ true)
      → HasView (lookup k (if b then put k q m else m)) q.view
  put_if-HasView false k q m l = is_later-HasView (lookup k m) q.view (l refl)
  put_if-HasView true k q m l = (q, rw (lookup-put k k q m) (rw (beq_refl k)), omega arith)

  put_if-origin :
      (P : K × PqEntry → Type 0) (b : Bool) (k : K) (q : PqEntry) (m : Map K PqEntry)
      → (b ≡ true → P (k, q))
      → ((j : K) (p : PqEntry) → lookup j m ≡ some p → P (j, p))
      → (j : K) (p : PqEntry) → lookup j (if b then put k q m else m) ≡ some p
      → P (j, p)
  put_if-origin P false k q m n h j p l = h j p l
  put_if-origin P true k q m n h j p l = elim (Bool-cases (e.equals k j)) [
    | inl same ↦
        let kj = (e.equals_iff k j).0 same in
        let qp : q ≡ p = some_inj (sym (lookup-put k j q m ∙ ground arith) ∙ l) in
        subst (λ i. P (i, p)) kj (subst (λ r. P (k, r)) qp (n refl))
    | inr other ↦ h j p (sym (lookup-put k j q m ∙ ground arith) ∙ l)
  ]

module _ (s : Core) where
  -- Each entry is an old one or says that a batch is `prepared`.
  IsPreparedEntry : Map ℕ PqEntry → ℕ × PqEntry → Type 0
  IsPreparedEntry old (n, q) =
      (lookup n old ≡ some q)
      ⊎ ((q.sequence_number ≡ n) × (prepared s q.batch_digest q.view n ≡ true))

  entry_of-IsPrepared :
      (old pset : Map ℕ PqEntry) (idx : MsgId) (cert : MsgCert)
      → enters_pset s idx cert pset ≡ true
      → IsPreparedEntry old (idx.n, entry_of idx cert)
  unfolding IsPreparedEntry
  entry_of-IsPrepared old pset idx cert b = inr (refl, ground arith)

  extend_pset-IsPrepared :
      (certs : Map MsgId MsgCert) (old pset : Map ℕ PqEntry)
      → ((n : ℕ) (q : PqEntry) → lookup n pset ≡ some q → IsPreparedEntry old (n, q))
      → (n : ℕ) (q : PqEntry) → lookup n (extend_pset s certs pset) ≡ some q
      → IsPreparedEntry old (n, q)
  unfolding extend_pset
  extend_pset-IsPrepared [] old pset h n q l = h n q l
  extend_pset-IsPrepared ((idx, cert) ∷ certs) old pset h n q l =
      extend_pset-IsPrepared certs old _
        (put_if-origin (IsPreparedEntry old) (enters_pset s idx cert pset) idx.n (entry_of idx cert)
          pset (λ b. entry_of-IsPrepared old pset idx cert b) h)
        n q l

  extend_pset-keeps :
      (certs : Map MsgId MsgCert) (pset : Map ℕ PqEntry) (n v : ℕ)
      → HasView (lookup n pset) v
      → HasView (lookup n (extend_pset s certs pset)) v
  unfolding extend_pset
  extend_pset-keeps [] pset n v h = h
  extend_pset-keeps ((idx, cert) ∷ certs) pset n v h = extend_pset-keeps certs _ n v (
      put_if-keeps (enters_pset s idx cert pset) idx.n n (entry_of idx cert) pset v
        (λ b. ground arith) h)

  EntersPset : Map ℕ PqEntry → MsgId × MsgCert → Type 0
  EntersPset pset (idx, cert) =
      is_some cert.pre_prepare ≡ true
      → prepared s cert.digest idx.v idx.n ≡ true
      → HasView (lookup idx.n pset) idx.v

  extend_pset-covers :
      (certs : Map MsgId MsgCert) (pset : Map ℕ PqEntry)
      → All (EntersPset (extend_pset s certs pset)) certs
  unfolding extend_pset EntersPset
  extend_pset-covers [] pset = tt
  extend_pset-covers ((idx, cert) ∷ certs) pset = (
    (λ pp pr. extend_pset-keeps certs _ idx.n idx.v (
        put_if-HasView (enters_pset s idx cert pset) idx.n (entry_of idx cert) pset
          (λ b. ground arith))),
    extend_pset-covers certs _,
  )

-- `calcPSet` forgets no prepared batch: for every certificate in the store with a pre-prepare whose
-- batch is `prepared`, the new P set has an entry for its number, of its view or a later one.
pub calc_pset_covers :
    (s : Core) (idx : MsgId) (cert : MsgCert)
    → lookup idx s.cert_store ≡ some cert
    → is_some cert.pre_prepare ≡ true
    → prepared s cert.digest idx.v idx.n ≡ true
    → HasView (lookup idx.n (calc_pset s)) idx.v
unfolding calc_pset EntersPset
calc_pset_covers s idx cert l pp pr =
    All-lookup (EntersPset s (calc_pset s)) idx cert s.cert_store l
      (extend_pset-covers s s.cert_store s.pset) pp pr

-- `calcPSet` makes no entry up: each is in the old P set, or is of a batch that is `prepared` in its
-- view under its number.
pub calc_pset_sound :
    (s : Core) (n : ℕ) (q : PqEntry)
    → lookup n (calc_pset s) ≡ some q
    → (lookup n s.pset ≡ some q)
      ⊎ ((q.sequence_number ≡ n) × (prepared s q.batch_digest q.view n ≡ true))
unfolding calc_pset IsPreparedEntry
calc_pset_sound s n q l = extend_pset-IsPrepared s s.cert_store s.pset s.pset (λ n q l. inl l) n q l
