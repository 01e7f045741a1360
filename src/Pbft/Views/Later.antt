-- ===== src/Pbft/Views/Later.antt =====
-- How many stored view changes are for views above a view, on the way of a replica that joins them.
use spree.Base.{
  ℕ, ◌≤◌, ◌<◌, ◌≡◌, refl, Bool, true, List, [], ◌∷◌, leb, ltb, ltb→lt, any, count, length, ◌==◌,
  nat_eq, nat_beq_iff, subst, arith, u64_mod, Bool-cases, All, ◌⊎◌, inl, inr,
}
use spree.Base.Map.{Map, keys, put, keep_if}
use spree.Pbft.Messages.{ViewChange, Vcidx, vcidx_eq}
use spree.Pbft.Views.{min_view_above, replicas_above}
use spree.Pbft.Views.Jump.{next_min, min_view_above_lem}

abbrev pub is_later : ℕ → Vcidx → Bool
is_later view idx = ltb view idx.v

abbrev is_of : ℕ → Vcidx → Bool
is_of view idx = idx.v == view

abbrev pub later : ℕ → Map Vcidx ViewChange → ℕ
later view m = count (is_later view) (keys m)

-- All are for views that fit in 64 bits.
abbrev pub AreWords : Map Vcidx ViewChange → Type 0
AreWords m = All (λ (x : Vcidx × ViewChange). x.0.v < u64_mod) m

pub replicas_above-later :
    (view : ℕ) (idxs : List Vcidx)
    → 0 < length (replicas_above view idxs)
    → 0 < count (is_later view) idxs
replicas_above-later view [] h = h
replicas_above-later view (idx ∷ rest) h = ground (arith, replicas_above-later view rest)

later-found :
    (view : ℕ) (idxs : List Vcidx)
    → 0 < count (is_later view) idxs
    → (v : ℕ) × (any (is_of v) idxs ≡ true) × (view < v)
later-found view [] h = ground arith
later-found view (idx ∷ rest) h = elim (Bool-cases (is_later view idx)) [
  | inl high ↦ (idx.v, ground (arith, nat_beq_iff idx.v idx.v), ltb→lt view idx.v high)
  | inr low ↦ let (v, found, up) = later-found view rest (ground arith) in (v, ground arith, up)
]

min_view_above-found :
    (view : ℕ) (idxs : List Vcidx) (m : ℕ)
    → (min_view_above view idxs m ≡ m) ⊎ (any (is_of (min_view_above view idxs m)) idxs ≡ true)
min_view_above-found view [] m = inl refl
min_view_above-found view (idx ∷ rest) m =
    elim (min_view_above-found view rest (next_min view idx m)) [
      | inl same ↦ ground arith
      | inr found ↦ inr (ground arith)
    ]

count-later-le :
    (view r : ℕ) (idxs : List Vcidx)
    → view < r
    → count (is_later r) idxs ≤ count (is_later view) idxs
count-later-le view r [] h = omega arith
count-later-le view r (idx ∷ rest) h = ground (arith, count-later-le view r rest h)

count-later-lt :
    (view r : ℕ) (idxs : List Vcidx)
    → view < r
    → any (is_of r) idxs ≡ true
    → count (is_later r) idxs < count (is_later view) idxs
count-later-lt view r [] h m = cc
count-later-lt view r (idx ∷ rest) h m = elim (Bool-cases (idx.v == r)) [
  | inl same ↦ ground (arith, nat_beq_iff idx.v r, count-later-le view r rest h)
  | inr other ↦ ground (arith, count-later-lt view r rest h)
]

-- The view that is joined is above the current one, and fewer stored view changes are above it.
pub min_view_above-fewer :
    (view : ℕ) (idxs : List Vcidx)
    → 0 < count (is_later view) idxs
    → let least = min_view_above view idxs 0 in
      (view < least)
      × (any (is_of least) idxs ≡ true)
      × (count (is_later least) idxs < count (is_later view) idxs)
min_view_above-fewer view idxs some_later =
    let (v, stored, high) = later-found view idxs some_later in
    let up = (min_view_above_lem view idxs v stored high).0 in
    elim (min_view_above-found view idxs 0) [
      | inl zero ↦ ground arith
      | inr found ↦ (up, found, count-later-lt view (min_view_above view idxs 0) idxs up found)
    ]

pub AreWords-lt :
    (view : ℕ) (m : Map Vcidx ViewChange)
    → any (is_of view) (keys m) ≡ true
    → AreWords m
    → view < u64_mod
AreWords-lt view [] found words = cc
AreWords-lt view ((idx, vc) ∷ m) found words = elim (Bool-cases (idx.v == view)) [
  | inl same ↦ subst (λ v. v < u64_mod) ((nat_beq_iff idx.v view).0 same) words.0
  | inr other ↦ AreWords-lt view m (ground arith) words.1
]

pub later-keep_if :
    (view least : ℕ) (m : Map Vcidx ViewChange)
    → later view (keep_if (λ idx. leb least idx.v) m) ≤ later view m
unfolding keep_if
later-keep_if view least [] = omega arith
later-keep_if view least ((idx, vc) ∷ m) = ground (arith, later-keep_if view least m)

pub later-put :
    (view : ℕ) (idx : Vcidx) (vc : ViewChange) (m : Map Vcidx ViewChange)
    → later view (put idx vc m) ≤ count (is_later view) (idx ∷ keys m)
unfolding put
later-put view idx vc [] = ground arith
later-put view idx vc ((jdx, w) ∷ m) = elim (Bool-cases (jdx == idx)) [
  | inl same ↦ let s = (vcidx_eq.equals_iff jdx idx).0 same in ground arith
  | inr other ↦ ground (arith, later-put view idx vc m)
]
