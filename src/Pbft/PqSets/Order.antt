-- ===== src/Pbft/PqSets/Order.antt =====
-- The order in which `calcPSet` (pbft/core.go) visits the certificates.
use spree.Base.{
  ℕ, ◌≡◌, refl, sym, ap, ◌∙◌, subst, Bool, false, not, ◌&&◌, Option, none, some, List, [], ◌∷◌,
  ◌==◌, nat_eq, nat_beq_iff, is_some, if◌then◌else◌, Bool-cases, inl, inr, arith, All,
}
use spree.Base.Map.{Map, lookup, put, lookup-put}
use spree.Pbft.Messages.{PqEntry, MsgId, msg_id_eq, qidx_eq}
use spree.Pbft.Core.{Core, MsgCert}
use spree.Pbft.Cert.{prepared, pre_prepared}
use spree.Pbft.PqSets.{entry_of, is_later, enters_pset, extend_pset, calc_pset}
use mathlib.Core.List.{Permᴰ}

abbrev Cert : Type 0
Cert = MsgId × MsgCert

abbrev IsOther : Cert → Cert → Type 0
IsOther x y = (x.0 == y.0) ≡ false

-- No two of the certificates have one view and number.
abbrev pub AreDistinct : Map MsgId MsgCert → Type 0
AreDistinct [] = Unit
AreDistinct (x ∷ xs) = All (IsOther x) xs × AreDistinct xs

All-Perm : (P : Cert → Type 0) {xs ys : Map MsgId MsgCert} → Permᴰ xs ys → All P xs → All P ys
All-Perm P Permᴰ.nil h = h
All-Perm P (Permᴰ.cons e p) h = (subst P e h.0, All-Perm P p h.1)
All-Perm P (Permᴰ.swap e f) h = (subst P f h.1.0, (subst P e h.0, h.1.1))
All-Perm P (Permᴰ.trans p q) h = All-Perm P q (All-Perm P p h)

IsOther-sym : (x y : Cert) → IsOther x y → IsOther y x
IsOther-sym x y h = ground (
  arith,
  nat_beq_iff x.0.v y.0.v,
  nat_beq_iff x.0.n y.0.n,
  nat_beq_iff y.0.v x.0.v,
  nat_beq_iff y.0.n x.0.n,
)

AreDistinct-Perm : {xs ys : Map MsgId MsgCert} → Permᴰ xs ys → AreDistinct xs → AreDistinct ys
AreDistinct-Perm Permᴰ.nil h = h
AreDistinct-Perm (Permᴰ.cons {a} {b} {l₁} {l₂} e p) h =
    (subst (λ c. All (IsOther c) l₂) e (All-Perm (IsOther a) p h.0), AreDistinct-Perm p h.1)
AreDistinct-Perm (Permᴰ.swap {a} {b} {a'} {b'} {l} e f) h = (
  (
    subst (λ c. IsOther c b') f (subst (IsOther b) e (IsOther-sym a b h.0.0)),
    subst (λ c. All (IsOther c) l) f h.1.0,
  ),
  (subst (λ c. All (IsOther c) l) e h.0.1, h.1.1),
)
AreDistinct-Perm (Permᴰ.trans p q) h = AreDistinct-Perm q (AreDistinct-Perm p h)

-- A certificate against the entry for its number.
abbrev better : Bool → PqEntry → Option PqEntry → Option PqEntry
better ready q old = if ready && not (is_later old q.view) then some q else old

better-swap :
    (b c : Bool) (q r : PqEntry) (old : Option PqEntry)
    → (q.view == r.view) ≡ false
    → better b q (better c r old) ≡ better c r (better b q old)
better-swap b c q r none h = ground arith
better-swap b c q r (some p) h = ground arith

module _ (s : Core) where
  abbrev is_prepared : Cert → Bool
  is_prepared (idx, cert) = is_some cert.pre_prepare && prepared s cert.digest idx.v idx.n

  -- One round of the loop, for the entry under `j`.
  abbrev turn : ℕ → Cert → Option PqEntry → Option PqEntry
  turn j (idx, cert) old =
      if idx.n == j then better (is_prepared (idx, cert)) (entry_of idx cert) old else old

  abbrev pset_at : ℕ → Map MsgId MsgCert → Option PqEntry → Option PqEntry
  pset_at j [] old = old
  pset_at j (x ∷ certs) old = pset_at j certs (turn j x old)

  lookup-turn :
      (j : ℕ) (idx : MsgId) (cert : MsgCert) (pset : Map ℕ PqEntry)
      → lookup j (if enters_pset s idx cert pset then put idx.n (entry_of idx cert) pset else pset)
        ≡ turn j (idx, cert) (lookup j pset)
  lookup-turn j idx cert pset =
      ground (arith, lookup-put idx.n j (entry_of idx cert) pset, nat_beq_iff idx.n j)

  lookup-extend_pset :
      (j : ℕ) (certs : Map MsgId MsgCert) (pset : Map ℕ PqEntry)
      → lookup j (extend_pset s certs pset) ≡ pset_at j certs (lookup j pset)
  unfolding extend_pset
  lookup-extend_pset j [] pset = refl
  lookup-extend_pset j ((idx, cert) ∷ certs) pset =
      lookup-extend_pset j certs _ ∙ ap (pset_at j certs) (lookup-turn j idx cert pset)

  turn-swap :
      (j : ℕ) (x y : Cert) (old : Option PqEntry)
      → IsOther x y
      → turn j x (turn j y old) ≡ turn j y (turn j x old)
  turn-swap j x y old other = elim (Bool-cases (x.0.v == y.0.v)) [
    | inl view ↦ ground (arith, nat_beq_iff x.0.n y.0.n, nat_beq_iff x.0.n j, nat_beq_iff y.0.n j)
    | inr view ↦
        let swapped =
          better-swap (is_prepared x) (is_prepared y) (entry_of x.0 x.1) (entry_of y.0 y.1) old
            view in
        ground arith
  ]

  pset_at-Perm :
      {xs ys : Map MsgId MsgCert} (j : ℕ)
      → Permᴰ xs ys
      → AreDistinct xs
      → (old : Option PqEntry) → pset_at j xs old ≡ pset_at j ys old
  pset_at-Perm j Permᴰ.nil h old = refl
  pset_at-Perm j (Permᴰ.cons {a} {b} {l₁} {l₂} e p) h old =
      pset_at-Perm j p h.1 (turn j a old) ∙ ap (λ c. pset_at j l₂ (turn j c old)) e
  pset_at-Perm j (Permᴰ.swap {a} {b} {a'} {b'} {l} e f) h old =
      ap (pset_at j l) (turn-swap j b a old (IsOther-sym a b h.0.0))
      ∙ ap (λ c. pset_at j l (turn j c (turn j b old))) e
      ∙ ap (λ c. pset_at j l (turn j b' (turn j c old))) f
  pset_at-Perm j (Permᴰ.trans p q) h old =
      pset_at-Perm j p h old ∙ pset_at-Perm j q (AreDistinct-Perm p h) old

lookup-swap :
    (idx : MsgId) (a b : Cert) (m : Map MsgId MsgCert)
    → IsOther a b
    → lookup idx (a ∷ b ∷ m) ≡ lookup idx (b ∷ a ∷ m)
unfolding lookup
lookup-swap idx a b m other = ground (
  arith,
  nat_beq_iff a.0.v idx.v,
  nat_beq_iff a.0.n idx.n,
  nat_beq_iff b.0.v idx.v,
  nat_beq_iff b.0.n idx.n,
  nat_beq_iff a.0.v b.0.v,
  nat_beq_iff a.0.n b.0.n,
)

-- A lookup finds the same in every order.
lookup-Perm :
    {xs ys : Map MsgId MsgCert} (idx : MsgId)
    → Permᴰ xs ys
    → AreDistinct xs
    → lookup idx xs ≡ lookup idx ys
unfolding lookup
lookup-Perm idx Permᴰ.nil h = refl
lookup-Perm idx (Permᴰ.cons {a} {b} {l₁} {l₂} e p) h =
    let rest = lookup-Perm idx p h.1 in ground arith ∙ ap (λ c. lookup idx (c ∷ l₂)) e
lookup-Perm idx (Permᴰ.swap {a} {b} {a'} {b'} {l} e f) h =
    lookup-swap idx a b l h.0.0
    ∙ ap (λ c. lookup idx (b ∷ c ∷ l)) e
    ∙ ap (λ c. lookup idx (c ∷ b' ∷ l)) f
lookup-Perm idx (Permᴰ.trans p q) h = lookup-Perm idx p h ∙ lookup-Perm idx q (AreDistinct-Perm p h)

module _ (s : Core) (m : Map MsgId MsgCert)
    (same : (idx : MsgId) → lookup idx m ≡ lookup idx s.cert_store) where
  prepared-same :
      (digest : List ℕ) (v n : ℕ)
      → prepared (record s { cert_store = m }) digest v n ≡ prepared s digest v n
  unfolding prepared pre_prepared
  prepared-same digest v n = rw (same (record { v = v; n = n })) refl

  pset_at-same :
      (j : ℕ) (certs : Map MsgId MsgCert) (old : Option PqEntry)
      → pset_at (record s { cert_store = m }) j certs old ≡ pset_at s j certs old
  pset_at-same j [] old = refl
  pset_at-same j ((idx, cert) ∷ certs) old =
      pset_at-same j certs _
      ∙ ap (pset_at s j certs) (rw (prepared-same cert.digest idx.v idx.n) refl)

-- The P set of `calcPSet` has the same entry under each number, in whatever order the certificates
-- are visited, if no two of them have one view and number.
pub calc_pset_order :
    (s : Core) (m : Map MsgId MsgCert) (j : ℕ)
    → Permᴰ s.cert_store m
    → AreDistinct s.cert_store
    → lookup j (calc_pset (record s { cert_store = m })) ≡ lookup j (calc_pset s)
unfolding calc_pset
calc_pset_order s m j p f =
    let t = record s { cert_store = m } in
    lookup-extend_pset t j m s.pset
    ∙ pset_at-same s m (λ idx. sym (lookup-Perm idx p f)) j m (lookup j s.pset)
    ∙ sym (pset_at-Perm s j p f (lookup j s.pset))
    ∙ sym (lookup-extend_pset s j s.cert_store s.pset)
