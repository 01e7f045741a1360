-- ===== src/Pbft/Views/Jump.antt =====
-- The view at which a replica joins the view changes of others.
use spree.Base.{
  ℕ, ◌≤◌, ◌<◌, ◌≡◌, refl, true, ◌||◌, List, [], ◌∷◌, leb, ltb, any, ◌==◌, nat_eq, nat_beq_iff, cond,
  arith, Bool-cases, inl, inr,
}
use spree.Pbft.Messages.{Vcidx}
use spree.Pbft.Views.{min_view_above}

abbrev pub next_min : ℕ → Vcidx → ℕ → ℕ
next_min view idx min_view =
    cond (leb idx.v view) min_view (cond (min_view == 0 || ltb idx.v min_view) idx.v min_view)

-- A minimum above `view` stays so and does not rise.
min_view_above-keeps :
    (view : ℕ) (idxs : List Vcidx) (min_view : ℕ)
    → view < min_view
    → (view < min_view_above view idxs min_view) × (min_view_above view idxs min_view ≤ min_view)
min_view_above-keeps view [] min_view h = (h, omega arith)
min_view_above-keeps view (idx ∷ rest) min_view h =
    let step : (view < next_min view idx min_view) × (next_min view idx min_view ≤ min_view) =
      (ground arith, ground arith) in
    let (up, down) = min_view_above-keeps view rest (next_min view idx min_view) step.0 in
    (up, omega arith)

min_view_above-least :
    (view : ℕ) (idxs : List Vcidx) (min_view v : ℕ)
    → (min_view == 0 || ltb view min_view) ≡ true
    → any (λ (idx : Vcidx). idx.v == v) idxs ≡ true
    → view < v
    → (view < min_view_above view idxs min_view) × (min_view_above view idxs min_view ≤ v)
min_view_above-least view [] min_view v i m h = cc
min_view_above-least view (idx ∷ rest) min_view v i m h = elim (Bool-cases (idx.v == v)) [
  | inl same ↦
      let e = (nat_beq_iff idx.v v).0 same in
      let step : (view < next_min view idx min_view) × (next_min view idx min_view ≤ v) =
        (ground arith, ground arith) in
      let (up, down) = min_view_above-keeps view rest (next_min view idx min_view) step.0 in
      (up, omega arith)
  | inr other ↦
      min_view_above-least view rest (next_min view idx min_view) v (ground arith) (ground arith) h
]

-- If a view change for a view above the current one is stored, the view from which the replica
-- joins the view changes is above the current one, and is at most that view.
pub min_view_above_lem :
    (view : ℕ) (idxs : List Vcidx) (v : ℕ)
    → any (λ (idx : Vcidx). idx.v == v) idxs ≡ true
    → view < v
    → (view < min_view_above view idxs 0) × (min_view_above view idxs 0 ≤ v)
min_view_above_lem view idxs v m h = min_view_above-least view idxs 0 v refl m h
