-- ===== src/Pbft/Select/Initial.antt =====
-- What `selectInitialCheckpoint` (pbft/core.go) chooses.
use spree.Base.{
  if_cases, not, leb→le, ℕ, ◌+◌, ◌≤◌, ◌<◌, ◌≡◌, refl, ◌∙◌, sym, ap, true, false, Option, none, some,
  List, [], ◌∷◌, leb, count, length, get_or, Bool-cases, inl, inr, All, All-map, arith,
}
use spree.Base.Map.{Map, lookup, All-lookup}
use spree.Pbft.Messages.{CEntry, ViewChange, c_entry_eq}
use spree.Pbft.Core.{Config}
use spree.Pbft.Quorum.{intersection_quorum}
use spree.Pbft.Select.{
  listed, starts_at_or_below, is_candidate, Choice, consider, choose, no_choice,
  select_initial_checkpoint,
}
use spree.Pbft.Select.Listings.{listings, length-holders-listed, listed-bound, no_holders}

module _ (c : Config) (vset : List ViewChange) where
  -- More than `f` view changes list the checkpoint, and an intersection quorum start at or below it.
  pub record IsStable (e : CEntry) : Type 0 where
    pub listed_by : c.f < listings e vset
    pub reached : intersection_quorum c ≤ count (starts_at_or_below e.sequence_number) vset

  record IsGood (ch : Choice) : Type 0 where
    pub stable : ch.chosen ≡ true → IsStable ch.checkpoint
    pub start : ch.chosen ≡ false → ch.checkpoint.sequence_number ≡ 0

  IsBounded : CEntry × List ViewChange → Type 0
  IsBounded (e, vcs) = length vcs ≤ listings e vset

  consider-IsGood :
      (e : CEntry) (vcs : List ViewChange) (ch : Choice)
      → IsBounded (e, vcs)
      → IsGood ch
      → IsGood (consider c vset e vcs ch)
  unfolding IsBounded
  consider-IsGood e vcs ch b g =
      if_cases IsGood (not (is_candidate c vset e vcs)) _ _ (λ no_candidate. g)
        (λ candidate.
          if_cases IsGood (leb ch.checkpoint.sequence_number e.sequence_number) _ _
            (λ le. record {
              stable = λ t. record { listed_by = ground arith; reached = ground arith };
              start = λ t. cc;
            })
            (λ gt. record { stable = g.stable; start = g.start }))

  choose-IsGood :
      (m : Map CEntry (List ViewChange)) (ch : Choice)
      → All IsBounded m
      → IsGood ch
      → IsGood (choose c vset m ch)
  unfolding choose
  choose-IsGood [] ch b g = g
  choose-IsGood ((e, vcs) ∷ rest) ch b g =
      choose-IsGood rest (consider c vset e vcs ch) b.1 (consider-IsGood e vcs ch b.0 g)

  -- The choice is at least the checkpoint, where that is a candidate.
  IsCovered : Choice → CEntry × List ViewChange → Type 0
  IsCovered ch (e, vcs) =
      is_candidate c vset e vcs ≡ true
      → (ch.chosen ≡ true) × (e.sequence_number ≤ ch.checkpoint.sequence_number)

  -- A choice stays made, and its number does not fall.
  IsLater : Choice → Choice → Type 0
  IsLater ch later =
      (ch.chosen ≡ true → later.chosen ≡ true)
      × (ch.checkpoint.sequence_number ≤ later.checkpoint.sequence_number)

  consider-IsLater :
      (e : CEntry) (vcs : List ViewChange) (ch : Choice) → IsLater ch (consider c vset e vcs ch)
  unfolding IsLater
  consider-IsLater e vcs ch =
      if_cases (IsLater ch) (not (is_candidate c vset e vcs)) _ _
        (λ no_candidate. ((λ t. t), omega arith))
        (λ candidate.
          if_cases (IsLater ch) (leb ch.checkpoint.sequence_number e.sequence_number) _ _
            (λ le. ((λ t. refl), leb→le _ _ le)) (λ gt. ((λ t. t), omega arith)))

  choose-IsLater :
      (m : Map CEntry (List ViewChange)) (ch : Choice) → IsLater ch (choose c vset m ch)
  unfolding choose IsLater
  choose-IsLater [] ch = ((λ t. t), omega arith)
  choose-IsLater ((e, vcs) ∷ rest) ch =
      let first = consider-IsLater e vcs ch in
      let later = choose-IsLater rest (consider c vset e vcs ch) in
      ((λ t. later.0 (first.0 t)), omega arith)

  consider-IsCovered :
      (e : CEntry) (vcs : List ViewChange) (ch : Choice)
      → IsGood ch
      → IsCovered (consider c vset e vcs ch) (e, vcs)
  unfolding IsCovered
  consider-IsCovered e vcs ch g =
      if_cases (λ r. IsCovered r (e, vcs)) (not (is_candidate c vset e vcs)) _ _
        (λ no_candidate candidate. absurd (ground arith))
        (λ _.
          if_cases (λ r. IsCovered r (e, vcs)) (leb ch.checkpoint.sequence_number e.sequence_number)
            _ _ (λ le candidate. (refl, omega arith))
            (λ gt candidate. elim (Bool-cases ch.chosen) [
              | inl made ↦ (made, ground arith)
              | inr none_yet ↦ let zero_yet = g.start none_yet in absurd (ground arith)
            ]))

  choose-covers :
      (m : Map CEntry (List ViewChange)) (ch : Choice)
      → All IsBounded m
      → IsGood ch
      → All (IsCovered (choose c vset m ch)) m
  unfolding choose IsCovered IsLater
  choose-covers [] ch b g = tt
  choose-covers ((e, vcs) ∷ rest) ch b g =
      let later = choose-IsLater rest (consider c vset e vcs ch) in
      let here = consider-IsCovered e vcs ch g in
      (
        λ candidate. (later.0 (here candidate).0, omega (arith, (here candidate).1)),
        choose-covers rest (consider c vset e vcs ch) b.1 (consider-IsGood e vcs ch b.0 g),
      )

some_holders :
    (o : Option (List ViewChange)) (b : ℕ)
    → b < length (get_or o [])
    → (vcs : List ViewChange) × (o ≡ some vcs)
some_holders none b h = absurd (omega arith)
some_holders (some vcs) b h = (vcs, refl)

enough_holders :
    (c : Config) (vset : List ViewChange) (e : CEntry) (vcs : List ViewChange)
    → length vcs ≡ 0 + listings e vset
    → IsStable c vset e
    → is_candidate c vset e vcs ≡ true
enough_holders c vset e vcs l st = ground (arith, st.listed_by, st.reached)

listed-IsBounded : (c : Config) (vset : List ViewChange) → All (IsBounded c vset) (listed vset [])
unfolding IsBounded
listed-IsBounded c vset =
    All-map _ _ (listed vset []) (λ x h. omega arith) (listed-bound vset [] (λ e. 0) tt)

no_choice-IsGood : (c : Config) (vset : List ViewChange) → IsGood c vset no_choice
no_choice-IsGood c vset = record { stable = λ t. absurd cc; start = λ t. refl }

-- A checkpoint that `selectInitialCheckpoint` chooses is listed more than `f` times in the view
-- changes, and an intersection quorum of them start at or below it.
pub select_initial_checkpoint-IsStable :
    (c : Config) (vset : List ViewChange)
    → (select_initial_checkpoint c vset).chosen ≡ true
    → IsStable c vset (select_initial_checkpoint c vset).checkpoint
unfolding select_initial_checkpoint
select_initial_checkpoint-IsStable c vset =
    (choose-IsGood c vset (listed vset []) no_choice (listed-IsBounded c vset)
      (no_choice-IsGood c vset)).stable

-- If a checkpoint is listed more than `f` times in the view changes and an intersection quorum of
-- them start at or below it, `selectInitialCheckpoint` chooses one, with a number at least as high.
pub select_initial_checkpoint_highest :
    (c : Config) (vset : List ViewChange) (e : CEntry)
    → IsStable c vset e
    → ((select_initial_checkpoint c vset).chosen ≡ true)
      × (e.sequence_number ≤ (select_initial_checkpoint c vset).checkpoint.sequence_number)
unfolding select_initial_checkpoint IsCovered
select_initial_checkpoint_highest c vset e st =
    let m = listed vset [] in
    let (vcs, there) =
      some_holders (lookup e m) c.f
        (omega (arith, length-holders-listed vset [] e, no_holders e, st.listed_by)) in
    let known =
      ap (λ o. length (get_or o [])) (sym there)
      ∙ length-holders-listed vset [] e
      ∙ ap (λ k. k + listings e vset) (no_holders e) in
    All-lookup (IsCovered c vset (choose c vset m no_choice)) e vcs m there
      (choose-covers c vset m no_choice (listed-IsBounded c vset) (no_choice-IsGood c vset))
      (enough_holders c vset e vcs known st)
