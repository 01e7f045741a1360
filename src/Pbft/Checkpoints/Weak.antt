-- ===== src/Pbft/Checkpoints/Weak.antt =====
-- The weak quorum that makes a replica notice that it has fallen behind.
use spree.Base.{
  cond, All, leb→le, All-map, ℕ, zero, suc, ◌+◌, ◌-◌, ◌≤◌, ◌<◌, ◌≡◌, refl, Bool, true, false, some,
  List, [], ◌∷◌, leb, count, length, arith,
}
use spree.Base.Map.{values}
use spree.Pbft.Core.{Core}
use spree.Pbft.Checkpoints.{insert_sorted, sort, nth, reached_by_weak_quorum}

count-insert_sorted :
    (p : ℕ → Bool) (x : ℕ) (xs : List ℕ) → count p (insert_sorted x xs) ≡ count p (x ∷ xs)
unfolding insert_sorted
count-insert_sorted p x [] = refl
count-insert_sorted p x (y ∷ ys) = ground (arith, count-insert_sorted p x ys)

count-sort : (p : ℕ → Bool) (xs : List ℕ) → count p (sort xs) ≡ count p xs
unfolding sort
count-sort p [] = refl
count-sort p (x ∷ xs) = omega (arith, count-insert_sorted p x (sort xs), count-sort p xs)

-- Each member is at most the next.
abbrev pub IsSorted : List ℕ → Type 0
IsSorted [] = Unit {0}
IsSorted (x ∷ xs) = All (λ y. x ≤ y) xs × IsSorted xs

insert_sorted-All :
    (b x : ℕ) (xs : List ℕ) → b ≤ x → All (λ y. b ≤ y) xs → All (λ y. b ≤ y) (insert_sorted x xs)
unfolding insert_sorted
insert_sorted-All b x [] h a = (h, tt)
insert_sorted-All b x (y ∷ ys) h a = ground (arith, insert_sorted-All b x ys h a.1)

cond-IsSorted :
    (b : Bool) (xs ys : List ℕ)
    → (b ≡ true → IsSorted xs)
    → (b ≡ false → IsSorted ys)
    → IsSorted (cond b xs ys)
cond-IsSorted true xs ys f g = f refl
cond-IsSorted false xs ys f g = g refl

insert_sorted-IsSorted : (x : ℕ) (xs : List ℕ) → IsSorted xs → IsSorted (insert_sorted x xs)
unfolding insert_sorted
insert_sorted-IsSorted x [] s = (tt, tt)
insert_sorted-IsSorted x (y ∷ ys) s =
    cond-IsSorted (leb x y) (x ∷ y ∷ ys) (y ∷ insert_sorted x ys)
      (λ le. (
        (
          leb→le x y le,
          All-map (λ z. y ≤ z) (λ z. x ≤ z) ys (λ z h. omega (arith, leb→le x y le)) s.0,
        ),
        s,
      ))
      (λ gt. (insert_sorted-All y x ys (ground arith) s.0, insert_sorted-IsSorted x ys s.1))

sort-IsSorted : (xs : List ℕ) → IsSorted (sort xs)
unfolding sort
sort-IsSorted [] = tt
sort-IsSorted (x ∷ xs) = insert_sorted-IsSorted x (sort xs) (sort-IsSorted xs)

count-All : (b : ℕ) (xs : List ℕ) → All (λ y. b ≤ y) xs → count (leb b) xs ≡ length xs
count-All b [] a = refl
count-All b (x ∷ xs) a = ground (arith, count-All b xs a.1)

nth-count :
    (xs : List ℕ) (i m : ℕ) → IsSorted xs → nth xs i ≡ some m → length xs ≤ i + count (leb m) xs
nth-count [] i m s h = omega arith
nth-count (x ∷ xs) zero m s h =
    let e : m ≡ x = ground arith in
    ground (arith, count-All m xs (All-map (λ y. x ≤ y) (λ y. m ≤ y) xs (λ y l. omega arith) s.0))
nth-count (x ∷ xs) (suc i) m s h = ground (arith, nth-count xs i m s.1 h)

length-insert_sorted : (x : ℕ) (xs : List ℕ) → length (insert_sorted x xs) ≡ suc (length xs)
unfolding insert_sorted
length-insert_sorted x [] = refl
length-insert_sorted x (y ∷ ys) = ground (arith, length-insert_sorted x ys)

length-sort : (xs : List ℕ) → length (sort xs) ≡ length xs
unfolding sort
length-sort [] = refl
length-sort (x ∷ xs) = omega (arith, length-insert_sorted x (sort xs), length-sort xs)

nth-some : (xs : List ℕ) (i : ℕ) → i < length xs → (m : ℕ) × (nth xs i ≡ some m)
nth-some [] i h = absurd (omega arith)
nth-some (x ∷ xs) zero h = (x, refl)
nth-some (x ∷ xs) (suc i) h = nth-some xs i (omega arith)

-- Where at least `f + 1` replicas have reported a checkpoint beyond the high watermark, the index
-- that `weakCheckpointSetOutOfRange` computes into the sorted numbers is in range, and at least
-- `f + 1` of the reported numbers reach the number found there.
pub reached_by_weak_quorum_lem :
    (s : Core)
    → s.f + 1 ≤ length (values s.h_chkpts)
    → (m : ℕ) × (reached_by_weak_quorum s ≡ some m) × (s.f + 1 ≤ count (leb m) (values s.h_chkpts))
unfolding reached_by_weak_quorum
reached_by_weak_quorum_lem s h =
    let numbers = values s.h_chkpts in
    let i = length numbers - (s.f + 1) in
    let (m, e) = nth-some (sort numbers) i (omega (arith, length-sort numbers)) in
    (
      m,
      e,
      omega (
        arith,
        nth-count (sort numbers) i m (sort-IsSorted numbers) e,
        length-sort numbers,
        count-sort (leb m) numbers,
      ),
    )
