-- ===== src/Pbft/Views/Order.antt =====
-- The order in which `recvViewChange` (pbft/core.go) visits the stored view changes.
use spree.Base.{
  ℕ, ◌+◌, ◌≡◌, refl, ap, ◌∙◌, Bool, true, ◌||◌, ◌&&◌, List, [], ◌∷◌, leb, count, length, any, not,
  ◌==◌, nat_eq, nat_beq_iff, arith, if◌then◌else◌,
}
use spree.Base.Map.{Map, has, put, lookup, lookup-put}
use spree.Pbft.Messages.{Vcidx}
use spree.Pbft.Views.{min_view_above, replicas_above, is_for_view}
use spree.Pbft.Views.Jump.{next_min}
use mathlib.Core.List.{Perm, Permᴰ}
use mathlib.Core.Logic.{∥∥₁_elim}
use native.Mathlib.Nat.{ℕ_set}

module _ (view : ℕ) where
  next_min-swap :
      (a b : Vcidx) (m : ℕ)
      → next_min view a (next_min view b m) ≡ next_min view b (next_min view a m)
  next_min-swap a b m = ground arith

  min_view_above-Perm :
      {xs ys : List Vcidx}
      → Permᴰ xs ys
      → (m : ℕ) → min_view_above view xs m ≡ min_view_above view ys m
  min_view_above-Perm Permᴰ.nil m = refl
  min_view_above-Perm (Permᴰ.cons {a} {b} {l₁} {l₂} e p) m =
      min_view_above-Perm p (next_min view a m)
      ∙ ap (λ c. min_view_above view l₂ (next_min view c m)) e
  min_view_above-Perm (Permᴰ.swap {a} {b} {a'} {b'} {l} e f) m =
      ap (min_view_above view l) (next_min-swap b a m)
      ∙ ap (λ c. min_view_above view l (next_min view c (next_min view b m))) e
      ∙ ap (λ c. min_view_above view l (next_min view b' (next_min view c m))) f
  min_view_above-Perm (Permᴰ.trans p q) m = min_view_above-Perm p m ∙ min_view_above-Perm q m

  count-Perm : (p : Vcidx → Bool) {xs ys : List Vcidx} → Permᴰ xs ys → count p xs ≡ count p ys
  count-Perm p Permᴰ.nil = refl
  count-Perm p (Permᴰ.cons {a} {b} {l₁} {l₂} e q) =
      let same = ap p e in ground (arith, count-Perm p q)
  count-Perm p (Permᴰ.swap {a} {b} {a'} {b'} {l} e f) =
      let first = ap p e in let second = ap p f in ground arith
  count-Perm p (Permᴰ.trans q r) = count-Perm p q ∙ count-Perm p r

  -- The replica has a view change for a later view.
  abbrev asks : ℕ → Vcidx → Bool
  asks id idx = not (leb idx.v view) && idx.id == id

  has-put : (k j : ℕ) (b : Bool) (m : Map ℕ Bool) → has j (put k b m) ≡ (k == j || has j m)
  has-put k j b m = ground (arith, lookup-put k j b m)

  has-replicas_above :
      (id : ℕ) (idxs : List Vcidx) → has id (replicas_above view idxs) ≡ any (asks id) idxs
  unfolding lookup
  has-replicas_above id [] = refl
  has-replicas_above id (idx ∷ rest) =
      ground (arith, has-replicas_above id rest, has-put idx.id id true (replicas_above view rest))

  length-put :
      (k : ℕ) (b : Bool) (m : Map ℕ Bool)
      → length (put k b m) ≡ length m + (if has k m then 0 else 1)
  unfolding put lookup
  length-put k b [] = refl
  length-put k b ((j, c) ∷ m) = ground (arith, length-put k b m)

  length-replicas_above :
      (idx : Vcidx) (rest : List Vcidx)
      → length (replicas_above view (idx ∷ rest))
        ≡ length (replicas_above view rest)
          + (if not (leb idx.v view) && not (any (asks idx.id) rest) then 1 else 0)
  length-replicas_above idx rest =
      ground
        (arith, has-replicas_above idx.id rest, length-put idx.id true (replicas_above view rest))

  any-Perm : (p : Vcidx → Bool) {xs ys : List Vcidx} → Permᴰ xs ys → any p xs ≡ any p ys
  any-Perm p Permᴰ.nil = refl
  any-Perm p (Permᴰ.cons {a} {b} {l₁} {l₂} e q) = let same = ap p e in ground (arith, any-Perm p q)
  any-Perm p (Permᴰ.swap {a} {b} {a'} {b'} {l} e f) =
      let first = ap p e in let second = ap p f in ground arith
  any-Perm p (Permᴰ.trans q r) = any-Perm p q ∙ any-Perm p r

  replicas_above-swap :
      (a b : Vcidx) (rest : List Vcidx)
      → length (replicas_above view (a ∷ b ∷ rest)) ≡ length (replicas_above view (b ∷ a ∷ rest))
  replicas_above-swap a b rest = ground (
    arith,
    length-replicas_above a (b ∷ rest),
    length-replicas_above b (a ∷ rest),
    length-replicas_above a rest,
    length-replicas_above b rest,
    nat_beq_iff a.id b.id,
    nat_beq_iff b.id a.id,
  )

  replicas_above-Perm :
      {xs ys : List Vcidx}
      → Permᴰ xs ys
      → length (replicas_above view xs) ≡ length (replicas_above view ys)
  replicas_above-Perm Permᴰ.nil = refl
  replicas_above-Perm (Permᴰ.cons {a} {b} {l₁} {l₂} e p) =
      ground (
        arith,
        length-replicas_above a l₁,
        length-replicas_above a l₂,
        replicas_above-Perm p,
        any-Perm (asks a.id) p,
      )
      ∙ ap (λ c. length (replicas_above view (c ∷ l₂))) e
  replicas_above-Perm (Permᴰ.swap {a} {b} {a'} {b'} {l} e f) =
      replicas_above-swap a b l
      ∙ ap (λ c. length (replicas_above view (b ∷ c ∷ l))) e
      ∙ ap (λ c. length (replicas_above view (c ∷ b' ∷ l))) f
  replicas_above-Perm (Permᴰ.trans p q) = replicas_above-Perm p ∙ replicas_above-Perm q

-- In whatever order the stored view changes are visited, `recvViewChange` counts as many replicas
-- that ask for a later view, finds the same least view to join, and counts as many view changes
-- for the current view.
pub range_order_lem :
    (view : ℕ) (xs ys : List Vcidx)
    → Perm xs ys
    → (length (replicas_above view xs) ≡ length (replicas_above view ys))
      × (min_view_above view xs 0 ≡ min_view_above view ys 0)
      × (count (is_for_view view) xs ≡ count (is_for_view view) ys)
range_order_lem view xs ys p = (
  ∥∥₁_elim p (ℕ_set _ _) (λ d. replicas_above-Perm view d),
  ∥∥₁_elim p (ℕ_set _ _) (λ d. min_view_above-Perm view d 0),
  ∥∥₁_elim p (ℕ_set _ _) (λ d. count-Perm view (is_for_view view) d),
)
