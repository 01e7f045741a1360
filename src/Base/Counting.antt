-- ===== src/Base/Counting.antt =====
-- Sets of replica ids as lists, and the counting argument behind quorums.
use spree.Base.Tests.{◌==◌, nat_eq, if◌then◌else◌, nat_beq_iff, Bool-cases}
use spree.Base.Lists.{length, any, filter, All}
use Prim.Native.Nat.{ℕ, zero, suc, ◌+◌, ◌≤◌, ◌<◌}
use mathlib.Core.Path.{◌≡◌, refl, sym, subst, ◌∙◌}
use mathlib.Core.Logic.{inl, inr}
use mathlib.Core.Bool.{Bool, true, false, ◌&&◌, ◌||◌}
use mathlib.Core.List.{List, [], ◌∷◌, ◌++◌, map}
use native.Mathlib.Omega.{arith}

abbrev pub contains : ℕ → List ℕ → Bool
contains x [] = false
contains x (y ∷ ys) = y == x || contains x ys

-- No id stands twice in the list.
abbrev pub IsDistinct : List ℕ → Type 0
IsDistinct [] = Unit {0}
IsDistinct (x ∷ xs) = (contains x xs ≡ false) × IsDistinct xs

contains-append : (x y : ℕ) (xs : List ℕ) → contains x (xs ++ (y ∷ [])) ≡ (contains x xs || y == x)
contains-append x y [] = ground arith
contains-append x y (z ∷ xs) = ground (arith, contains-append x y xs)

IsDistinct-append :
    (x : ℕ) (xs : List ℕ) → IsDistinct xs → contains x xs ≡ false → IsDistinct (xs ++ (x ∷ []))
IsDistinct-append x [] d h = (refl, tt)
IsDistinct-append x (y ∷ ys) d h =
    (ground (arith, contains-append y x ys, d.0), IsDistinct-append x ys d.1 (ground arith))

contains-map :
    {A : Type 0} (f : A → ℕ) (x : ℕ) (xs : List A) → contains x (map f xs) ≡ any (λ y. f y == x) xs
contains-map f x [] = refl
contains-map f x (y ∷ ys) = rw (contains-map f x ys)

map-append_one :
    {A : Type 0} (f : A → ℕ) (x : A) (xs : List A) → map f (xs ++ (x ∷ [])) ≡ map f xs ++ (f x ∷ [])
map-append_one f x [] = refl
map-append_one f x (y ∷ ys) = rw (map-append_one f x ys)

-- A member with an id of its own is added at the end.
pub IsDistinct-append_map :
    {A : Type 0} (f : A → ℕ) (x : A) (xs : List A)
    → any (λ y. f y == f x) xs ≡ false
    → IsDistinct (map f xs)
    → IsDistinct (map f (xs ++ (x ∷ [])))
IsDistinct-append_map f x xs h d =
    subst IsDistinct (sym (map-append_one f x xs))
      (IsDistinct-append (f x) (map f xs) d (contains-map f (f x) xs ∙ h))

contains-filter :
    {A : Type 0} (f : A → ℕ) (p : A → Bool) (x : ℕ) (xs : List A)
    → contains x (map f xs) ≡ false
    → contains x (map f (filter p xs)) ≡ false
contains-filter f p x [] h = refl
contains-filter f p x (y ∷ ys) h = ground (arith, contains-filter f p x ys)

pub IsDistinct-filter :
    {A : Type 0} (f : A → ℕ) (p : A → Bool) (xs : List A)
    → IsDistinct (map f xs)
    → IsDistinct (map f (filter p xs))
IsDistinct-filter f p [] d = tt
IsDistinct-filter f p (x ∷ xs) d =
    ground (arith, IsDistinct-filter f p xs d.1, contains-filter f p (f x) xs d.0)

-- How many numbers below the bound pass the test.
unfoldable pub count_below : (ℕ → Bool) → ℕ → ℕ
count_below p zero = 0
count_below p (suc n) = (if p n then 1 else 0) + count_below p n

count_below-and :
    (p q : ℕ → Bool) (n : ℕ)
    → count_below p n + count_below q n ≤ n + count_below (λ x. p x && q x) n
unfolding count_below
count_below-and p q zero = omega arith
count_below-and p q (suc n) = ground (arith, count_below-and p q n)

count_below-witness :
    (p q : ℕ → Bool) (n : ℕ)
    → count_below q n < count_below p n
    → (x : ℕ) × (x < n) × (p x ≡ true) × (q x ≡ false)
unfolding count_below
count_below-witness p q zero h = absurd (omega arith)
count_below-witness p q (suc n) h = elim (Bool-cases (p n && (if q n then false else true))) [
  | inl here ↦ (n, omega arith, ground arith, ground arith)
  | inr there ↦
      let (x, lt, px, qx) = count_below-witness p q n (ground arith) in (x, omega arith, px, qx)
]

count_below_mono :
    (p q : ℕ → Bool) (n : ℕ)
    → ((x : ℕ) → p x ≡ true → q x ≡ true)
    → count_below p n ≤ count_below q n
unfolding count_below
count_below_mono p q zero h = omega arith
count_below_mono p q (suc n) h = ground (arith, count_below_mono p q n h, h n)

count_below-insert :
    (a : ℕ) (p : ℕ → Bool) (n : ℕ)
    → a < n
    → p a ≡ false
    → suc (count_below p n) ≤ count_below (λ x. a == x || p x) n
unfolding count_below
count_below-insert a p zero h f = absurd (omega arith)
count_below-insert a p (suc n) h f = elim (Bool-cases (a == n)) [
  | inl e ↦
      let below = count_below_mono p (λ x. a == x || p x) n (λ x px. ground arith) in
      ground (arith, nat_beq_iff a n)
  | inr ne ↦ ground (arith, count_below-insert a p n)
]

length-le-count :
    (n : ℕ) (xs : List ℕ)
    → IsDistinct xs
    → All (λ x. x < n) xs
    → length xs ≤ count_below (λ x. contains x xs) n
length-le-count n [] d b = omega arith
length-le-count n (x ∷ xs) d b =
    omega (arith, length-le-count n xs d.1 b.1, count_below-insert x (λ y. contains y xs) n b.0 d.0)

-- Two sets of ids below `n` whose sizes exceed `n` by more than the number of bad ids have an id in
-- common that is not bad.
pub common_good :
    (n : ℕ) (bad : ℕ → Bool) (xs ys : List ℕ)
    → IsDistinct xs
    → IsDistinct ys
    → All (λ x. x < n) xs
    → All (λ x. x < n) ys
    → n + count_below bad n < length xs + length ys
    → (x : ℕ) × (contains x xs ≡ true) × (contains x ys ≡ true) × (bad x ≡ false)
common_good n bad xs ys dx dy bx by h =
    let (x, lt, both, good) =
      count_below-witness (λ x. contains x xs && contains x ys) bad n
        (omega (
          arith,
          length-le-count n xs dx bx,
          length-le-count n ys dy by,
          count_below-and (λ x. contains x xs) (λ x. contains x ys) n,
        )) in
    (x, ground arith, ground arith, good)
