-- ===== src/Main/Rounds.antt =====
-- What the loop of main.go comes to.
use spree.Base.{
  ℕ, zero, suc, ◌+◌, ◌<◌, ◌≡◌, refl, true, false, Option, List, [], ◌∷◌, ◌++◌, cond, sym, ◌∙◌, ap,
  Bytes, ◌==◌, nat_eq, arith, Bool-cases, inl, inr,
}
use spree.Pbft.Core.{Core, Env, Outcome, ok, fault, M, skip, and_then, for_each, ◌>>=◌, ◌>>◌}
use spree.Pbft.Transaction.{Transaction, create_pbft_req_batch}
use spree.Pbft.Replica.{Event, request_batch, send}
use spree.Main.{main_primary, main_round, main_loop}

then_assoc :
    (o : Outcome (Unit {0})) (g k : M (Unit {0}))
    → and_then (and_then o (λ _. g)) (λ _. k) ≡ and_then o (λ _ t. and_then (g t) (λ _. k))
then_assoc (ok a t) g k = refl
then_assoc (fault x t) g k = refl

then_equal :
    (o : Outcome (Unit {0})) (f g : M (Unit {0}))
    → ((t : Core) → f t ≡ g t)
    → and_then o (λ _. f) ≡ and_then o (λ _. g)
then_equal (ok a t) f g h = h t
then_equal (fault x t) f g h = refl

then_both :
    (o : Outcome (Unit {0})) (f g k : M (Unit {0}))
    → ((t : Core) → f t ≡ and_then (g t) (λ _. k))
    → and_then o (λ _. f) ≡ and_then (and_then o (λ _. g)) (λ _. k)
then_both (ok a t) f g k h = h t
then_both (fault x t) f g k h = refl

module _ (env : Env) (marshal : Transaction → Option Bytes) (fuel : ℕ)
    (between : ℕ → List (ℕ × Event)) (node_id : ℕ) where
  -- The batch of a round, which only node 0 sends.
  abbrev pub own_batch : ℕ → List (ℕ × Event)
  own_batch index =
      cond (main_primary == node_id)
        ((fuel, request_batch (create_pbft_req_batch marshal index 0)) ∷ []) []

  -- What the replica is sent in `n` rounds from the one with this index on.
  abbrev pub sent_in : ℕ → ℕ → List (ℕ × Event)
  sent_in index zero = []
  sent_in index (suc n) = own_batch index ++ (between index ++ sent_in (index + 1) n)

  for_each-append :
      (xs ys : List (ℕ × Event)) (s : Core)
      → for_each (xs ++ ys) (send env) s ≡ (for_each xs (send env) >> for_each ys (send env)) s
  unfolding for_each ◌>>=◌
  for_each-append [] ys s = refl
  for_each-append (x ∷ xs) ys s =
      then_both (send env x s) (for_each (xs ++ ys) (send env)) (for_each xs (send env))
        (for_each ys (send env)) (λ t. for_each-append xs ys t)

  main_round-sends :
      (i : ℕ) (s : Core)
      → main_round env marshal fuel between node_id i s
        ≡ (for_each (own_batch i) (send env) >> for_each (between i) (send env)) s
  unfolding main_round for_each ◌>>=◌
  main_round-sends i s = elim (Bool-cases (main_primary == node_id)) [
    | inl e ↦ rw e (then_both (send env _ s) (for_each (between i) (send env)) skip _ (λ t. refl))
    | inr e ↦ rw e refl
  ]

  rounds_left :
      (n rounds i : ℕ) (s : Core)
      → i + n ≡ 10
      → n < rounds
      → main_loop env marshal fuel between rounds node_id i s ≡ for_each (sent_in i n) (send env) s
  unfolding main_loop for_each ◌>>=◌
  rounds_left n zero i s e h = elim h [ ]
  rounds_left zero (suc rounds) i s e h = let d : (i == 10) ≡ true = ground arith in rw d refl
  rounds_left (suc n) (suc rounds) i s e h =
      let d : (i == 10) ≡ false = ground arith in
      let loop = main_loop env marshal fuel between rounds node_id (i + 1) in
      let rest = sent_in (i + 1) n in
      rw d (
        ap (λ o. and_then o (λ _. loop)) (main_round-sends i s)
        ∙ then_assoc (for_each (own_batch i) (send env) s) (for_each (between i) (send env)) loop
        ∙ then_equal (for_each (own_batch i) (send env) s) _ _ (λ t.
          then_equal (for_each (between i) (send env) t) loop (for_each rest (send env))
            (λ u. rounds_left n rounds (i + 1) u (omega arith) (omega arith))
          ∙ sym (for_each-append (between i) rest t))
        ∙ sym (for_each-append (own_batch i) (between i ++ rest) s))

  -- The loop of `main` ends after ten rounds. Node 0 sends its replica the batches of the tags 0 to
  -- 9, one in each round, each before the events that the other thread sends in the pause that
  -- follows; every other node sends its replica only those events.
  pub main_loop_lem :
      (rounds : ℕ) (s : Core)
      → 10 < rounds
      → main_loop env marshal fuel between rounds node_id 0 s ≡ for_each (sent_in 0 10) (send env) s
  main_loop_lem rounds s h = rounds_left 10 rounds 0 s (omega arith) h
