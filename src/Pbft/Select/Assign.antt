-- ===== src/Pbft/Select/Assign.antt =====
-- What `assignSequenceNumbers` (pbft/viewchange.go) assigns.
use spree.Base.{
  some_inj, ℕ, ◌+◌, ◌≤◌, ◌<◌, ◌≡◌, refl, subst, ◌⊎◌, Option, none, some, List, [], Bytes, nat_eq,
  list_eq, add64, u64_mod, All, All-filter, arith,
}
use spree.Base.Map.{Map, lookup, All-lookup}
use spree.Pbft.Messages.{ViewChange}
use spree.Pbft.Core.{Config}
use spree.Pbft.Select.{n_loop, prune, map_option, n_rounds, assign_sequence_numbers}
use spree.Pbft.Select.Loop.{Chosen, Null, IsJustified, n_loop-All}

prune-All : (P : ℕ × Bytes → Type 0) (r : Map ℕ Bytes × ℕ) → All P r.0 → All P (prune r)
prune-All P (m, top) a = All-filter P _ m a

map_option-some :
    {A B : Type 0} (g : A → B) (o : Option A) (b : B)
    → map_option g o ≡ some b
    → (a : A) × (o ≡ some a) × (g a ≡ b)
map_option-some g none b h = cc
map_option-some g (some a) b h = (a, refl, some_inj h)

-- The run of the loop behind a map, and what `prune` leaves of it.
assign_sequence_numbers_run :
    (c : Config) (vset : List ViewChange) (h : ℕ) (msgs : Map ℕ Bytes)
    → h + c.l + 1 < u64_mod
    → assign_sequence_numbers c vset h ≡ some msgs
    → (r : Map ℕ Bytes × ℕ) × (n_loop c vset c.l (h + 1) [] (h + 1) ≡ some r) × (prune r ≡ msgs)
unfolding assign_sequence_numbers
assign_sequence_numbers_run c vset h msgs fit run =
    let (r, e, p) =
      map_option-some prune (n_loop c vset (n_rounds c h) (add64 h 1) [] (add64 h 1)) msgs run in
    let start : add64 h 1 ≡ h + 1 = omega arith in
    let rounds : n_rounds c h ≡ c.l = ground arith in
    (
      r,
      subst (λ k. n_loop c vset c.l k [] k ≡ some r) start
          (subst (λ q. n_loop c vset q (add64 h 1) [] (add64 h 1) ≡ some r) rounds e),
      p,
    )

-- Let `h + L` fit in 64 bits and `assignSequenceNumbers` give a map. Each number in it is above `h`
-- and at most `h + L`. Either its digest is that of an entry of a P set which an intersection quorum of the
-- view changes support (the log starts below the number, and every P entry for the number is of an
-- earlier view, or of the same view with the same digest) and for which `f + 1` entries of the Q sets
-- vouch (for the number, of the same view or a later one, with the same digest); or it is the null
-- digest, and in an intersection quorum of the view changes no P entry is for the number.
pub assign_sequence_numbers_sound :
    (c : Config) (vset : List ViewChange) (h : ℕ) (msgs : Map ℕ Bytes) (n : ℕ) (d : Bytes)
    → h + c.l + 1 < u64_mod
    → assign_sequence_numbers c vset h ≡ some msgs
    → lookup n msgs ≡ some d
    → (h < n) × (n ≤ h + c.l) × (Chosen c vset n d ⊎ Null c vset n d)
unfolding IsJustified
assign_sequence_numbers_sound c vset h msgs n d fit run l =
    let (r, loop, p) = assign_sequence_numbers_run c vset h msgs fit run in
    let all =
      n_loop-All c vset c.l (h + 1) [] (h + 1) (h + 1) (h + 1 + c.l) r (omega arith) (omega arith)
        tt loop in
    let j =
      All-lookup (IsJustified c vset (h + 1) (h + 1 + c.l)) n d msgs l
        (subst (All (IsJustified c vset (h + 1) (h + 1 + c.l))) p (prune-All _ r all)) in
    (omega arith, omega arith, j.2)
