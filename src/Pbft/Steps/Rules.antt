-- ===== src/Pbft/Steps/Rules.antt =====
-- How a method's moves are put together: one rule for each way to build a method.
use spree.Base.{◌≡◌, refl, sym, subst, Bool, true, false, not, List, [], ◌∷◌}
use spree.Pbft.Core.{
  Core, Outcome, Fault, ok, fault, final, and_then, M, pure, skip, get, modify, raise, for_each,
  if◌then◌else◌, ◌>>=◌,
}
use spree.Pbft.Steps.{SameLog, Step, Reach, here, move}

pub after : {s t u : Core} → Reach s t → Reach t u → Reach s u
after here q = q
after (move st r) q = move st (after r q)

-- What the method does from `s`, up to its end or its fault, is a sequence of moves.
pub record Runs {A : Type 0} (s : Core) (m : M A) : Type 0 where
  pub reach : Reach s (final (m s))

module _ {s : Core} where
  pub runs_pure : {A : Type 0} (a : A) → Runs s (pure a)
  unfolding ◌>>=◌
  runs_pure a = record { reach = here }

  pub runs_skip : Runs s skip
  unfolding ◌>>=◌
  runs_skip = record { reach = here }

  pub runs_raise : {A : Type 0} (x : Fault) → Runs s (raise {A = A} x)
  unfolding ◌>>=◌
  runs_raise x = record { reach = here }

  pub runs_if :
      {A : Type 0} (b : Bool) (m n : M A)
      → (b ≡ true → Runs s m)
      → (b ≡ false → Runs s n)
      → Runs s (if b then m else n)
  unfolding ◌>>=◌
  runs_if true m n p q = p refl
  runs_if false m n p q = q refl

  pub runs_get : {A : Type 0} (f : Core → M A) → Runs s (f s) → Runs s (get >>= f)
  unfolding ◌>>=◌
  runs_get f r = record { reach = r.reach }

  pub runs_pure_bind : {A B : Type 0} (a : A) (f : A → M B) → Runs s (f a) → Runs s (pure a >>= f)
  unfolding ◌>>=◌
  runs_pure_bind a f r = record { reach = r.reach }

  pub runs_modify : (g : Core → Core) → Step s (g s) → Runs s (modify g)
  unfolding ◌>>=◌
  runs_modify g st = record { reach = move st here }

  pub runs_move :
      {B : Type 0} (g : Core → Core) (f : Unit {0} → M B)
      → Step s (g s)
      → Runs (g s) (f tt)
      → Runs s (modify g >>= f)
  unfolding ◌>>=◌
  runs_move g f st r = record { reach = move st r.reach }

  pub runs_if_true : {A : Type 0} (m n : M A) → Runs s m → Runs s (if true then m else n)
  unfolding ◌>>=◌
  runs_if_true m n r = r

  -- A test at the start of a method that goes on behind it.
  pub runs_if_bind :
      {A B : Type 0} (b : Bool) (m n : M A) (f : A → M B)
      → (b ≡ true → Runs s (m >>= f))
      → (b ≡ false → Runs s (n >>= f))
      → Runs s ((if b then m else n) >>= f)
  unfolding ◌>>=◌
  runs_if_bind true m n f p q = p refl
  runs_if_bind false m n f p q = q refl

and_then_assoc :
    {A B C : Type 0} (o : Outcome A) (f : A → M B) (g : B → M C)
    → and_then (and_then o f) g ≡ and_then o (λ a t. and_then (f a t) g)
and_then_assoc (ok a t) f g = refl
and_then_assoc (fault x t) f g = refl

pub runs_assoc :
    {A B C : Type 0} {s : Core} (m : M A) (f : A → M B) (g : B → M C)
    → Runs s (m >>= λ a. f a >>= g)
    → Runs s ((m >>= f) >>= g)
unfolding ◌>>=◌
runs_assoc {s} m f g r = record {
  reach = subst (λ o. Reach s (final o)) (sym (and_then_assoc (m s) f g)) r.reach;
}

and_then-Reach :
    {A B : Type 0} {s : Core} (o : Outcome A) (f : A → M B)
    → Reach s (final o)
    → ((a : A) (t : Core) → Reach s t → Reach t (final (f a t)))
    → Reach s (final (and_then o f))
and_then-Reach (ok a t) f r k = after r (k a t r)
and_then-Reach (fault x t) f r k = r

and_then-Reach_ok :
    {A B : Type 0} {s : Core} (o : Outcome A) (f : A → M B)
    → Reach s (final o)
    → ((a : A) (t : Core) → o ≡ ok a t → Reach s t → Reach t (final (f a t)))
    → Reach s (final (and_then o f))
and_then-Reach_ok (ok a t) f r k = after r (k a t refl r)
and_then-Reach_ok (fault x t) f r k = r

module _ {A B : Type 0} {s : Core} (m : M A) (f : A → M B) where
  -- What follows may use how its state came about.
  pub runs_bind_ok :
      Runs s m → ((a : A) (t : Core) → m s ≡ ok a t → Reach s t → Runs t (f a)) → Runs s (m >>= f)
  unfolding ◌>>=◌
  runs_bind_ok r k = record {
    reach = and_then-Reach_ok (m s) f r.reach (λ a t e q. (k a t e q).reach);
  }

  -- What follows may use that its state was reached.
  pub runs_bind_from : Runs s m → ((a : A) (t : Core) → Reach s t → Runs t (f a)) → Runs s (m >>= f)
  unfolding ◌>>=◌
  runs_bind_from r k = record { reach = and_then-Reach (m s) f r.reach (λ a t q. (k a t q).reach) }

  pub runs_bind : Runs s m → ((a : A) (t : Core) → Runs t (f a)) → Runs s (m >>= f)
  runs_bind r k = runs_bind_from r (λ a t q. k a t)

pub runs_for_each :
    {A : Type 0} {s : Core} (xs : List A) (body : A → M (Unit {0}))
    → ((a : A) (t : Core) → Runs t (body a))
    → Runs s (for_each xs body)
unfolding for_each
runs_for_each [] body h = record { reach = here }
runs_for_each (x ∷ xs) body h = runs_bind _ _ (h x _) (λ _ t. runs_for_each xs body h)

-- The state agrees with itself: what a write to the other fields comes to.
abbrev pub same : {s : Core} → SameLog s s
same = record {
  config = refl;
  active_view = refl;
  h = refl;
  last_exec = refl;
  view = refl;
  chkpts = refl;
  pset = refl;
  qset = refl;
  current_exec = refl;
  cert_store = refl;
  checkpoint_store = refl;
  view_change_store = refl;
  out = refl;
}

pub not-false : {b : Bool} → not b ≡ false → b ≡ true
not-false {b = true} h = refl
not-false {b = false} h = cc
