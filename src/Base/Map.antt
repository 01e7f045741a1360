-- ===== src/Base/Map.antt =====
-- Go's `map` as an association list. A `range` visits the entries in the list's order, so what
-- holds of every list holds of every order in which Go may visit them.
use mathlib.Core.Path.{◌≡◌, refl}
use mathlib.Core.Logic.{inl, inr}
use mathlib.Core.Bool.{Bool, true, not}
use mathlib.Core.Option.{Option, none, some}
use mathlib.Core.List.{List, [], ◌∷◌}
use native.Mathlib.Omega.{arith}
use spree.Base.Tests.{Eq, ◌==◌, if◌then◌else◌, Bool-cases, is_some}
use spree.Base.Lists.{All, All-filter, filter}

abbrev pub Map {ℓ κ} : Type ℓ → Type κ → Type (ℓ ⊔ κ)
Map K V = List (K × V)

module _ {ℓ κ} {K : Type ℓ} {V : Type κ} where
  -- `for k := range m`
  abbrev pub keys : Map K V → List K
  keys [] = []
  keys ((k, v) ∷ m) = k ∷ keys m

  -- `for _, v := range m`
  abbrev pub values : Map K V → List V
  values [] = []
  values ((k, v) ∷ m) = v ∷ values m

  -- `for k, v := range m { if !keep(k, v) { delete(m, k) } }`
  abbrev pub keep_entries : (K × V → Bool) → Map K V → Map K V
  keep_entries keep m = filter keep m

module _ {ℓ κ} {K : Type ℓ} {V : Type κ} ⦃e : Eq K⦄ where
  -- `v, ok := m[k]`
  unfoldable pub lookup : K → Map K V → Option V
  lookup k [] = none
  lookup k ((key, value) ∷ rest) = if key == k then some value else lookup k rest

  -- `_, ok := m[k]`
  abbrev pub has : K → Map K V → Bool
  has k m = is_some (lookup k m)

  -- `m[k] = v`
  unfoldable pub put : K → V → Map K V → Map K V
  put k v [] = (k, v) ∷ []
  put k v ((j, w) ∷ m) = if j == k then (k, v) ∷ m else (j, w) ∷ put k v m

  -- `for k, v := range m { if !keep(k) { delete(m, k) } }`
  unfoldable pub keep_if : (K → Bool) → Map K V → Map K V
  keep_if keep m = filter (λ (x : K × V). keep x.0) m

  -- `delete(m, k)`
  unfoldable pub delete : K → Map K V → Map K V
  unfolding keep_if
  delete k m = keep_if (λ j. not (j == k)) m

  pub lookup-put :
      (k j : K) (v : V) (m : Map K V)
      → lookup j (put k v m) ≡ (if k == j then some v else lookup j m)
  unfolding lookup put
  lookup-put k j v [] = refl
  lookup-put k j v ((i, w) ∷ m) =
      ground (arith, e.equals_iff k j, e.equals_iff i k, e.equals_iff i j, lookup-put k j v m)

  -- Writing back what is there changes nothing.
  pub put-lookup : (k : K) (v : V) (m : Map K V) → lookup k m ≡ some v → put k v m ≡ m
  unfolding lookup put
  put-lookup k v [] h = cc
  put-lookup k v ((j, w) ∷ m) h = ground (arith, e.equals_iff j k, put-lookup k v m)

  pub lookup-keep_if :
      (keep : K → Bool) (j : K) (m : Map K V)
      → lookup j (keep_if keep m) ≡ (if keep j then lookup j m else none)
  unfolding lookup keep_if
  lookup-keep_if keep j [] = ground arith
  lookup-keep_if keep j ((i, w) ∷ m) = elim (Bool-cases (i == j)) [
    | inl same ↦
        let s = (e.equals_iff i j).0 same in
        ground (arith, e.equals_iff i j, lookup-keep_if keep j m)
    | inr other ↦ ground (arith, lookup-keep_if keep j m)
  ]

  pub lookup-delete :
      (k j : K) (m : Map K V) → lookup j (delete k m) ≡ (if j == k then none else lookup j m)
  unfolding delete
  lookup-delete k j m = ground (arith, lookup-keep_if (λ (i : K). not (i == k)) j m)

  -- An entry that is found and kept is found again.
  pub lookup-keep_entries :
      (keep : K × V → Bool) (j : K) (v : V) (m : Map K V)
      → lookup j m ≡ some v
      → keep (j, v) ≡ true
      → lookup j (keep_entries keep m) ≡ some v
  unfolding lookup
  lookup-keep_entries keep j v [] l k = cc
  lookup-keep_entries keep j v ((i, w) ∷ m) l k = elim (Bool-cases (e.equals i j)) [
    | inl same ↦ let s = (e.equals_iff i j).0 same in ground arith
    | inr other ↦ ground (arith, lookup-keep_entries keep j v m)
  ]

  module _ {μ} (P : K × V → Type μ) where
    pub keep_if-All : (keep : K → Bool) (m : Map K V) → All P m → All P (keep_if keep m)
    unfolding keep_if
    keep_if-All keep m h = All-filter P (λ (x : K × V). keep x.0) m h

    pub All-put : (k : K) (v : V) (m : Map K V) → P (k, v) → All P m → All P (put k v m)
    unfolding put
    All-put k v [] p h = (p, tt)
    All-put k v ((j, w) ∷ m) p h = ground (arith, All-put k v m p h.1)

    pub All-lookup : (k : K) (v : V) (m : Map K V) → lookup k m ≡ some v → All P m → P (k, v)
    unfolding lookup
    All-lookup k v [] l h = cc
    All-lookup k v ((j, w) ∷ m) l h = ground (arith, e.equals_iff j k, All-lookup k v m)
