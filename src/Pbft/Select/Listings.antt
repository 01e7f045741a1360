-- ===== src/Pbft/Select/Listings.antt =====
-- Who lists which checkpoint: the map `checkpoints` of `selectInitialCheckpoint` (pbft/core.go).
use spree.Base.{
  ℕ, ◌+◌, ◌≤◌, ◌≡◌, refl, ap, Bool, true, false, Option, some, List, [], ◌∷◌, ◌++◌, ◌==◌, count,
  length, length-append, get_or, if◌then◌else◌, inl, inr, All, All-map, arith, Option-cases,
  beq_refl,
}
use spree.Base.Map.{Map, lookup, put, lookup-put, All-put, All-lookup}
use spree.Pbft.Messages.{CEntry, ViewChange, c_entry_eq, c_entry_beq_iff}
use spree.Pbft.Select.{add_listed, listed}

-- How often the checkpoint is listed in the view changes.
abbrev pub listings : CEntry → List ViewChange → ℕ
listings e [] = 0
listings e (vc ∷ rest) = count (λ x. x == e) vc.cset + listings e rest

abbrev holders : CEntry → Map CEntry (List ViewChange) → List ViewChange
holders e m = get_or (lookup e m) []

length-appended :
    (b : Bool) (vc : ViewChange) (vcs : List ViewChange) (o : Option (List ViewChange))
    → (b ≡ true → length vcs ≡ length (get_or o []))
    → length (get_or (if b then some (vcs ++ (vc ∷ [])) else o) [])
      ≡ length (get_or o []) + (if b then 1 else 0)
length-appended true vc vcs o h = omega (arith, length-append vcs (vc ∷ []), h refl)
length-appended false vc vcs o h = omega arith

length-holders-put :
    (vc : ViewChange) (x e : CEntry) (acc : Map CEntry (List ViewChange))
    → length (holders e (put x (holders x acc ++ (vc ∷ [])) acc))
      ≡ length (holders e acc) + (if x == e then 1 else 0)
length-holders-put vc x e acc = rw (lookup-put x e (holders x acc ++ (vc ∷ [])) acc) (
    length-appended (x == e) vc (holders x acc) (lookup e acc)
      (λ same. ap (λ i. length (holders i acc)) ((c_entry_beq_iff x e).0 same)))

length-holders-add_listed :
    (vc : ViewChange) (es : List CEntry) (acc : Map CEntry (List ViewChange)) (e : CEntry)
    → length (holders e (add_listed vc es acc)) ≡ length (holders e acc) + count (λ x. x == e) es
length-holders-add_listed vc [] acc e = omega arith
length-holders-add_listed vc (x ∷ es) acc e = omega (
  arith,
  length-holders-add_listed vc es (put x (holders x acc ++ (vc ∷ [])) acc) e,
  length-holders-put vc x e acc,
)

pub length-holders-listed :
    (vset : List ViewChange) (acc : Map CEntry (List ViewChange)) (e : CEntry)
    → length (holders e (listed vset acc)) ≡ length (holders e acc) + listings e vset
length-holders-listed [] acc e = omega arith
length-holders-listed (vc ∷ rest) acc e = omega (
  arith,
  length-holders-listed rest (add_listed vc vc.cset acc) e,
  length-holders-add_listed vc vc.cset acc e,
)

-- No entry has more holders than the view changes that were gone through list.
holders-bound :
    (vc : ViewChange) (e : CEntry) (acc : Map CEntry (List ViewChange)) (k : CEntry → ℕ)
    → All (λ (x : CEntry × List ViewChange). length x.1 ≤ k x.0) acc
    → length (holders e acc ++ (vc ∷ [])) ≤ k e + (if e == e then 1 else 0)
holders-bound vc e acc k a =
    let least : length (holders e acc) ≤ k e = elim (Option-cases (lookup e acc)) [
      | inl none_there ↦ ground arith
      | inr (vcs, there) ↦
          let b =
            All-lookup (λ (x : CEntry × List ViewChange). length x.1 ≤ k x.0) e vcs acc there a in
          ground arith
    ] in
    rw (beq_refl e) (omega (arith, length-append (holders e acc) (vc ∷ [])))

add_listed-bound :
    (vc : ViewChange) (es : List CEntry) (acc : Map CEntry (List ViewChange)) (k : CEntry → ℕ)
    → All (λ (x : CEntry × List ViewChange). length x.1 ≤ k x.0) acc
    → All
        (λ (x : CEntry × List ViewChange). length x.1 ≤ k x.0 + count (λ y. y == x.0) es)
        (add_listed vc es acc)
add_listed-bound vc [] acc k a = All-map _ _ acc (λ x h. omega arith) a
add_listed-bound vc (e ∷ es) acc k a =
    All-map _ _ (add_listed vc es (put e (holders e acc ++ (vc ∷ [])) acc)) (λ x h. omega arith)
      (add_listed-bound vc es (put e (holders e acc ++ (vc ∷ [])) acc)
        (λ y. k y + (if e == y then 1 else 0))
        (All-put _ e (holders e acc ++ (vc ∷ [])) acc (holders-bound vc e acc k a)
          (All-map _ _ acc (λ x h. omega arith) a)))

pub listed-bound :
    (vset : List ViewChange) (acc : Map CEntry (List ViewChange)) (k : CEntry → ℕ)
    → All (λ (x : CEntry × List ViewChange). length x.1 ≤ k x.0) acc
    → All
        (λ (x : CEntry × List ViewChange). length x.1 ≤ k x.0 + listings x.0 vset)
        (listed vset acc)
listed-bound [] acc k a = All-map _ _ acc (λ x h. omega arith) a
listed-bound (vc ∷ rest) acc k a =
    All-map _ _ (listed rest (add_listed vc vc.cset acc)) (λ x h. omega arith)
      (listed-bound rest (add_listed vc vc.cset acc) (λ y. k y + count (λ x. x == y) vc.cset)
        (add_listed-bound vc vc.cset acc k a))

pub no_holders : (e : CEntry) → length (holders e []) ≡ 0
unfolding lookup
no_holders e = refl
