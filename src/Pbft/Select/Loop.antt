-- ===== src/Pbft/Select/Loop.antt =====
-- The loop `nLoop` of `assignSequenceNumbers` (pbft/viewchange.go).
use spree.Base.{
  some_inj, ℕ, zero, suc, ◌+◌, ◌≤◌, ◌<◌, ◌≡◌, refl, ◌∙◌, sym, subst, ap, ◌⊎◌, inl, inr, Bool, true,
  some, List, [], ◌∷◌, Bytes, leb, leb→le, ◌==◌, nat_eq, list_eq, count, Bool-cases, Option-cases,
  nat_beq_iff, All, arith, false, ◌++◌, ltb, any, beq_sound,
}
use spree.Base.Map.{Map, lookup, put, lookup-put, All-put}
use spree.Pbft.Messages.{PqEntry, ViewChange}
use spree.Pbft.Core.{Config}
use spree.Pbft.Quorum.{intersection_quorum}
use spree.Pbft.Select.{
  conflicts, supports, vouches, count_vouchers, is_selectable, find_entry, find_selectable,
  has_no_entry, n_loop,
}

-- At least so many members have the property, each place of the list counted once.
pub record AtLeast {A : Type 0} (q : ℕ) (P : A → Type 0) (xs : List A) : Type 0 where
  pub test : A → Bool
  pub holds : (x : A) → test x ≡ true → P x
  pub enough : q ≤ count test xs

-- A1 for one message: its log starts below `n`, and each entry of its P set for `n` is of an earlier
-- view than the entry selected, or of its view and with its digest.
abbrev pub DoesSupport : ℕ → PqEntry → ViewChange → Type 0
DoesSupport n e m =
    (m.h < n)
    × All
        (λ (p : PqEntry).
          p.sequence_number ≡ n
          → (p.view < e.view) ⊎ ((p.view ≡ e.view) × (p.batch_digest ≡ e.batch_digest)))
        m.pset

-- A2 for one entry: it is for `n`, of the same view or a later one, and with the same digest.
abbrev pub DoesVouch : ℕ → PqEntry → PqEntry → Type 0
DoesVouch n e q = (q.sequence_number ≡ n) × (e.view ≤ q.view) × (q.batch_digest ≡ e.batch_digest)

-- All entries of the Q sets.
abbrev pub all_qset : List ViewChange → List PqEntry
all_qset [] = []
all_qset (m ∷ ms) = m.qset ++ all_qset ms

abbrev pub IsAmong : PqEntry → List PqEntry → Type 0
IsAmong e [] = ⊥
IsAmong e (p ∷ ps) = (p ≡ e) ⊎ IsAmong e ps

-- The entry is in the P set of one of the view changes.
abbrev pub IsInPset : PqEntry → List ViewChange → Type 0
IsInPset e [] = ⊥
IsInPset e (m ∷ ms) = IsAmong e m.pset ⊎ IsInPset e ms

-- The digest is that of a P set entry which a quorum of messages support, and `f + 1` entries of Q
-- sets vouch for it.
pub record Chosen (c : Config) (vset : List ViewChange) (n : ℕ) (digest : Bytes) : Type 0 where
  pub entry : PqEntry
  pub digest_is : entry.batch_digest ≡ digest
  pub reported : IsInPset entry vset
  pub supported : AtLeast (intersection_quorum c) (DoesSupport n entry) vset
  pub vouched : AtLeast (c.f + 1) (DoesVouch n entry) (all_qset vset)

-- Or it is the null digest, and the P sets of a quorum of messages have no entry for the number.
pub record Null (c : Config) (vset : List ViewChange) (n : ℕ) (digest : Bytes) : Type 0 where
  pub is_null : digest ≡ []
  pub unclaimed :
      AtLeast
        (intersection_quorum c)
        (λ (m : ViewChange). All (λ (p : PqEntry). ¬ (p.sequence_number ≡ n)) m.pset)
        vset

not_conflicting :
    (n : ℕ) (e : PqEntry) (ps : List PqEntry)
    → any (conflicts n e) ps ≡ false
    → All
        (λ (p : PqEntry).
          p.sequence_number ≡ n
          → (p.view < e.view) ⊎ ((p.view ≡ e.view) × (p.batch_digest ≡ e.batch_digest)))
        ps
not_conflicting n e [] h = tt
not_conflicting n e (p ∷ ps) h = (
  λ same. elim (Bool-cases (ltb p.view e.view)) [
    | inl earlier ↦ inl (ground arith)
    | inr later ↦ inr (
      ground (arith, nat_beq_iff n p.sequence_number, nat_beq_iff p.view e.view),
      beq_sound p.batch_digest e.batch_digest
          (ground (arith, nat_beq_iff n p.sequence_number, nat_beq_iff p.view e.view)),
    )
  ],
  not_conflicting n e ps (ground arith),
)

supports-DoesSupport :
    (n : ℕ) (e : PqEntry) (m : ViewChange) → supports n e m ≡ true → DoesSupport n e m
supports-DoesSupport n e m h = (ground arith, not_conflicting n e m.pset (ground arith))

vouches-DoesVouch : (n : ℕ) (e q : PqEntry) → vouches n e q ≡ true → DoesVouch n e q
vouches-DoesVouch n e q h = (
  ground (arith, nat_beq_iff n q.sequence_number),
  ground arith,
  beq_sound q.batch_digest e.batch_digest (ground arith),
)

unclaimed-All :
    (n : ℕ) (ps : List PqEntry)
    → any (λ (em : PqEntry). em.sequence_number == n) ps ≡ false
    → All (λ (p : PqEntry). ¬ (p.sequence_number ≡ n)) ps
unclaimed-All n [] h = tt
unclaimed-All n (p ∷ ps) h = (
  λ same. absurd (ground (arith, nat_beq_iff p.sequence_number n)),
  unclaimed-All n ps (ground arith),
)

count-append :
    {A : Type 0} (p : A → Bool) (xs ys : List A) → count p (xs ++ ys) ≡ count p xs + count p ys
count-append p [] ys = omega arith
count-append p (x ∷ xs) ys = omega (arith, count-append p xs ys)

count_vouchers-all_qset :
    (n : ℕ) (e : PqEntry) (ms : List ViewChange)
    → count_vouchers n e ms ≡ count (vouches n e) (all_qset ms)
count_vouchers-all_qset n e [] = refl
count_vouchers-all_qset n e (m ∷ ms) =
    omega (arith, count_vouchers-all_qset n e ms, count-append (vouches n e) m.qset (all_qset ms))

find_entry-IsAmong :
    (p : PqEntry → Bool) (xs : List PqEntry) (x : PqEntry) → find_entry p xs ≡ some x → IsAmong x xs
find_entry-IsAmong p [] x h = cc
find_entry-IsAmong p (y ∷ ys) x h = elim (Bool-cases (p y)) [
  | inl found ↦ inl (some_inj (ground arith))
  | inr passed ↦ inr (find_entry-IsAmong p ys x (ground arith))
]

find_entry_sound :
    (p : PqEntry → Bool) (xs : List PqEntry) (x : PqEntry) → find_entry p xs ≡ some x → p x ≡ true
find_entry_sound p [] x h = cc
find_entry_sound p (y ∷ ys) x h = elim (Bool-cases (p y)) [
  | inl found ↦ ground arith
  | inr passed ↦ find_entry_sound p ys x (ground arith)
]

module _ (c : Config) (vset : List ViewChange) where
  find_selectable_sound :
      (ms : List ViewChange) (n : ℕ) (em : PqEntry)
      → find_selectable c vset ms n ≡ some em
      → is_selectable c vset n em ≡ true
  find_selectable_sound [] n em h = cc
  find_selectable_sound (m ∷ ms) n em h =
      elim (Option-cases (find_entry (is_selectable c vset n) m.pset)) [
        | inl e ↦ find_selectable_sound ms n em (ground arith)
        | inr (x, e) ↦ find_entry_sound (is_selectable c vset n) m.pset em (ground arith)
      ]

  find_selectable-IsInPset :
      (ms : List ViewChange) (n : ℕ) (em : PqEntry)
      → find_selectable c vset ms n ≡ some em
      → IsInPset em ms
  find_selectable-IsInPset [] n em h = cc
  find_selectable-IsInPset (m ∷ ms) n em h =
      elim (Option-cases (find_entry (is_selectable c vset n) m.pset)) [
        | inl e ↦ inr (find_selectable-IsInPset ms n em (ground arith))
        | inr (x, e) ↦ inl (find_entry-IsAmong (is_selectable c vset n) m.pset em (ground arith))
      ]

  vouched_enough :
      (n : ℕ) (em : PqEntry) → is_selectable c vset n em ≡ true → c.f + 1 ≤ count_vouchers n em vset
  vouched_enough n em h = ground arith

  find_selectable-Chosen :
      (n : ℕ) (em : PqEntry)
      → find_selectable c vset vset n ≡ some em
      → Chosen c vset n em.batch_digest
  find_selectable-Chosen n em h =
      let found = find_selectable_sound vset n em h in
      record {
        entry = em;
        digest_is = refl;
        reported = find_selectable-IsInPset vset n em h;
        supported = record {
          test = supports n em;
          holds = supports-DoesSupport n em;
          enough = ground arith;
        };
        vouched = record {
          test = vouches n em;
          holds = vouches-DoesVouch n em;
          enough = omega (arith, count_vouchers-all_qset n em vset, vouched_enough n em found);
        };
      }

  unclaimed-Null :
      (n : ℕ) → leb (intersection_quorum c) (count (has_no_entry n) vset) ≡ true → Null c vset n []
  unclaimed-Null n h = record {
    is_null = refl;
    unclaimed = record {
      test = has_no_entry n;
      holds = λ m k. unclaimed-All n m.pset (ground arith);
      enough = leb→le _ _ h;
    };
  }

  -- An entry of the assignment for the numbers from `first` up to below `bound`.
  unfoldable pub IsJustified : ℕ → ℕ → ℕ × Bytes → Type 0
  IsJustified first bound (n, digest) =
      (first ≤ n) × (n < bound) × (Chosen c vset n digest ⊎ Null c vset n digest)

  pub n_loop-All :
      (rounds n : ℕ) (msgs : Map ℕ Bytes) (max_n first bound : ℕ) (result : Map ℕ Bytes × ℕ)
      → first ≤ n
      → n + rounds ≤ bound
      → All (IsJustified first bound) msgs
      → n_loop c vset rounds n msgs max_n ≡ some result
      → All (IsJustified first bound) result.0
  unfolding n_loop IsJustified
  n_loop-All zero n msgs max_n first bound result le fit a h =
      subst (λ (r : Map ℕ Bytes × ℕ). All (IsJustified first bound) r.0) (some_inj h) a
  n_loop-All (suc rounds) n msgs max_n first bound result le fit a h =
      elim (Option-cases (find_selectable c vset vset n)) [
        | inr (em, e) ↦
            n_loop-All rounds (n + 1) (put n em.batch_digest msgs) n first bound result
              (omega arith) (omega arith)
              (All-put (IsJustified first bound) n em.batch_digest msgs
                (le, omega arith, inl (find_selectable-Chosen n em e)) a)
              (ground arith)
        | inl e ↦ elim (Bool-cases (leb (intersection_quorum c) (count (has_no_entry n) vset))) [
          | inl enough ↦
              n_loop-All rounds (n + 1) (put n [] msgs) max_n first bound result (omega arith)
                (omega arith)
                (All-put (IsJustified first bound) n [] msgs
                  (le, omega arith, inr (unclaimed-Null n enough)) a)
                (ground arith)
          | inr few ↦ absurd (ground arith)
        ]
      ]

  -- Numbers below the loop's are not touched, and `maxN` does not fall.
  n_loop-keeps :
      (rounds n : ℕ) (msgs : Map ℕ Bytes) (max_n j : ℕ) (result : Map ℕ Bytes × ℕ)
      → j < n
      → max_n ≤ n
      → n_loop c vset rounds n msgs max_n ≡ some result
      → (lookup j result.0 ≡ lookup j msgs) × (max_n ≤ result.1)
  unfolding n_loop
  n_loop-keeps zero n msgs max_n j result lt le h =
      let e = some_inj h in
      (
        sym (ap (λ (r : Map ℕ Bytes × ℕ). lookup j r.0) e),
        subst (λ (r : Map ℕ Bytes × ℕ). max_n ≤ r.1) e (omega arith),
      )
  n_loop-keeps (suc rounds) n msgs max_n j result lt le h =
      elim (Option-cases (find_selectable c vset vset n)) [
        | inr (em, e) ↦
            let (same, up) =
              n_loop-keeps rounds (n + 1) (put n em.batch_digest msgs) n j result (omega arith)
                (omega arith) (ground arith) in
            (same ∙ lookup-put n j em.batch_digest msgs ∙ ground arith, omega arith)
        | inl e ↦ elim (Bool-cases (leb (intersection_quorum c) (count (has_no_entry n) vset))) [
          | inl enough ↦
              let (same, up) =
                n_loop-keeps rounds (n + 1) (put n [] msgs) max_n j result (omega arith)
                  (omega arith) (ground arith) in
              (same ∙ lookup-put n j [] msgs ∙ ground arith, omega arith)
          | inr few ↦ absurd (ground arith)
        ]
      ]

  pub n_loop-chosen :
      (rounds n : ℕ) (msgs : Map ℕ Bytes) (max_n j : ℕ) (em : PqEntry) (result : Map ℕ Bytes × ℕ)
      → n ≤ j
      → j < n + rounds
      → max_n ≤ n
      → find_selectable c vset vset j ≡ some em
      → n_loop c vset rounds n msgs max_n ≡ some result
      → (lookup j result.0 ≡ some em.batch_digest) × (j ≤ result.1)
  unfolding n_loop
  n_loop-chosen zero n msgs max_n j em result le lt mx f h = absurd (omega arith)
  n_loop-chosen (suc rounds) n msgs max_n j em result le lt mx f h = elim (Bool-cases (n == j)) [
    | inl here ↦
        let same = (nat_beq_iff n j).0 here in
        let g : find_selectable c vset vset n ≡ some em =
          ap (find_selectable c vset vset) same ∙ f in
        let (kept, up) =
          n_loop-keeps rounds (n + 1) (put n em.batch_digest msgs) n j result (omega arith)
            (omega arith) (ground arith) in
        (kept ∙ lookup-put n j em.batch_digest msgs ∙ ground arith, omega arith)
    | inr later ↦ elim (Option-cases (find_selectable c vset vset n)) [
      | inr (x, e) ↦
          n_loop-chosen rounds (n + 1) (put n x.batch_digest msgs) n j em result (ground arith)
            (omega arith) (omega arith) f (ground arith)
      | inl e ↦ elim (Bool-cases (leb (intersection_quorum c) (count (has_no_entry n) vset))) [
        | inl enough ↦
            n_loop-chosen rounds (n + 1) (put n [] msgs) max_n j em result (ground arith)
              (omega arith) (omega arith) f (ground arith)
        | inr few ↦ absurd (ground arith)
      ]
    ]
  ]
