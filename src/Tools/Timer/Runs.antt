-- ===== src/Tools/Timer/Runs.antt =====
-- Whole runs of the timer thread and of the machine of its phases.
use spree.Base.{
  some_inj, ℕ, ◌+◌, ◌≤◌, ◌≡◌, refl, sym, ap, ◌∙◌, subst, Bool, true, false, Option, none, some,
  List, [], ◌∷◌, ◌++◌, length, length-append, arith, count, if◌then◌else◌,
}
use spree.Tools.Timer.{
  Input, start, stop, expire, deliver, exit, TimerImpl, select_case, loop, prepend,
}
use spree.Tools.Timer.Phases.{
  Phase, idle, counting, waiting, phase_step, IsIn, Does, select_case-Does,
}

module _ {E : Type 0} where
  abbrev pub prepend_sent :
      List (Option E) → Option (Phase E × List (Option E)) → Option (Phase E × List (Option E))
  prepend_sent out none = none
  prepend_sent out (some (p, rest)) = some (p, out ++ rest)

  -- The machine on a sequence of inputs.
  pub phase_steps : List (Input E) → Phase E → Option (Phase E × List (Option E))
  phase_steps [] p = some (p, [])
  phase_steps (i ∷ rest) p = elim (phase_step i p) [
    | none ↦ none
    | some (q, out) ↦ prepend_sent out (phase_steps rest q)
  ]

  DoesAll : Option (TimerImpl E × List (Option E)) → Option (Phase E × List (Option E)) → Type 0
  DoesAll none o = Unit {0}
  DoesAll (some r) none = ⊥
  DoesAll (some (t, out)) (some (p, sent)) = IsIn t p × (out ≡ sent)

  prepend-DoesAll :
      (out sent : List (Option E)) (r : Option (TimerImpl E × List (Option E)))
      (o : Option (Phase E × List (Option E)))
      → out ≡ sent
      → DoesAll r o
      → DoesAll (prepend out r) (prepend_sent sent o)
  unfolding DoesAll
  prepend-DoesAll out sent none o e h = tt
  prepend-DoesAll out sent (some r) none e h = h
  prepend-DoesAll out sent (some (t, rest)) (some (p, more)) e h = (h.0, cc)

  -- A blocked case has no step.
  bind-Does :
      (r : Option (TimerImpl E × List (Option E))) (o : Option (Phase E × List (Option E)))
      (f : TimerImpl E → Option (TimerImpl E × List (Option E)))
      (g : Phase E → Option (Phase E × List (Option E)))
      → ((t : TimerImpl E) (p : Phase E) → IsIn t p → DoesAll (f t) (g p))
      → Does r o
      → DoesAll
          (elim r [ none ↦ none | some (t, out) ↦ prepend out (f t) ])
          (elim o [ none ↦ none | some (p, sent) ↦ prepend_sent sent (g p) ])
  unfolding Does DoesAll
  bind-Does none none f g h d = tt
  bind-Does none (some q) f g h d = tt
  bind-Does (some r) none f g h d = absurd d
  bind-Does (some (t, out)) (some (p, sent)) f g h d =
      prepend-DoesAll out sent (f t) (g p) d.1 (h t p d.0)

  halt-Does :
      (b : Bool) (r : Option (TimerImpl E × List (Option E)))
      (o : Option (Phase E × List (Option E)))
      (f : TimerImpl E → Option (TimerImpl E × List (Option E)))
      (g : Phase E → Option (Phase E × List (Option E)))
      → ((t : TimerImpl E) (p : Phase E) → IsIn t p → DoesAll (f t) (g p))
      → Does r o
      → DoesAll
          (elim (if b then none else r) [ none ↦ none | some (t, out) ↦ prepend out (f t) ])
          (elim o [ none ↦ none | some (p, sent) ↦ prepend_sent sent (g p) ])
  unfolding DoesAll
  halt-Does true r o f g h d = tt
  halt-Does false r o f g h d = bind-Does r o f g h d

  loop-DoesAll :
      (is : List (Input E)) (t : TimerImpl E) (p : Phase E)
      → IsIn t p
      → DoesAll (loop is t) (phase_steps is p)
  unfolding loop phase_steps DoesAll
  loop-DoesAll [] t p h = (h, refl)
  loop-DoesAll (i ∷ rest) t p h =
      halt-Does t.halted (select_case i t) (phase_step i p) (loop rest) (phase_steps rest)
        (λ u q k. loop-DoesAll rest u q k) (select_case-Does i t p h)

  DoesAll-some :
      (r : Option (TimerImpl E × List (Option E))) (o : Option (Phase E × List (Option E)))
      (u : TimerImpl E) (out : List (Option E))
      → DoesAll r o
      → r ≡ some (u, out)
      → (q : Phase E) × (o ≡ some (q, out)) × IsIn u q
  unfolding DoesAll
  DoesAll-some none o u out d e = cc
  DoesAll-some (some r) none u out d e = absurd d
  DoesAll-some (some (t, sent)) (some (p, more)) u out d e =
      let pair = some_inj e in
      (
        p,
        ap (λ o. some (p, o)) (sym d.1 ∙ ap (λ (x : TimerImpl E × List (Option E)). x.1) pair),
        subst (λ v. IsIn v p) (ap (λ (x : TimerImpl E × List (Option E)). x.0) pair) d.0,
      )

-- Whatever the timer thread does in a sequence of rounds from one of the three phases (idle, counting
-- down to an event, or with an event waiting), the machine of the phases does: it has steps for these
-- inputs, the same events are delivered, in the same order, and the timer ends in its phase. In this
-- machine a start replaces a waiting event, hard or soft, a soft one leaves a countdown alone, and a
-- stop drops both.
pub loop-phases :
    {E : Type 0} (is : List (Input E)) (t u : TimerImpl E) (p : Phase E) (out : List (Option E))
    → IsIn t p
    → loop is t ≡ some (u, out)
    → (q : Phase E) × (phase_steps is p ≡ some (q, out)) × IsIn u q
loop-phases is t u p out h run =
    DoesAll-some (loop is t) (phase_steps is p) u out (loop-DoesAll is t p h) run

abbrev pub is_start : {E : Type 0} → Input E → Bool
is_start (start hard d e) = true
is_start stop = false
is_start expire = false
is_start deliver = false
is_start exit = false

-- One if an event is still to come.
abbrev pub armed : {E : Type 0} → Phase E → ℕ
armed idle = 0
armed (counting d e) = 1
armed (waiting e) = 1

module _ {E : Type 0} where
  Within : Option (Phase E × List (Option E)) → ℕ → Type 0
  Within none b = Unit {0}
  Within (some (q, out)) b = length out + armed q ≤ b

  phase_step-Within :
      (i : Input E) (p : Phase E)
      → Within (phase_step i p) ((if is_start i then 1 else 0) + armed p)
  unfolding phase_step Within
  phase_step-Within (start true d e) idle = omega arith
  phase_step-Within (start true d e) (counting c f) = omega arith
  phase_step-Within (start true d e) (waiting f) = omega arith
  phase_step-Within (start false d e) idle = omega arith
  phase_step-Within (start false d e) (counting c f) = omega arith
  phase_step-Within (start false d e) (waiting f) = omega arith
  phase_step-Within stop idle = omega arith
  phase_step-Within stop (counting c f) = omega arith
  phase_step-Within stop (waiting f) = omega arith
  phase_step-Within expire idle = tt
  phase_step-Within expire (counting c f) = omega arith
  phase_step-Within expire (waiting f) = tt
  phase_step-Within deliver idle = tt
  phase_step-Within deliver (counting c f) = tt
  phase_step-Within deliver (waiting f) = omega arith
  phase_step-Within exit idle = omega arith
  phase_step-Within exit (counting c f) = omega arith
  phase_step-Within exit (waiting f) = omega arith

  prepend_sent-Within :
      (sent : List (Option E)) (o : Option (Phase E × List (Option E))) (b : ℕ)
      → Within o b
      → Within (prepend_sent sent o) (length sent + b)
  unfolding Within
  prepend_sent-Within sent none b h = tt
  prepend_sent-Within sent (some (q, out)) b h = omega (arith, length-append sent out)

  Within-le : (o : Option (Phase E × List (Option E))) (a b : ℕ) → a ≤ b → Within o a → Within o b
  unfolding Within
  Within-le none a b l h = tt
  Within-le (some (q, out)) a b l h = omega arith

  bind-Within :
      (o : Option (Phase E × List (Option E))) (a b : ℕ)
      (g : Phase E → Option (Phase E × List (Option E)))
      → Within o a
      → ((q : Phase E) → Within (g q) (b + armed q))
      → Within (elim o [ none ↦ none | some (q, sent) ↦ prepend_sent sent (g q) ]) (a + b)
  unfolding Within
  bind-Within none a b g h k = tt
  bind-Within (some (q, sent)) a b g h k =
      Within-le (prepend_sent sent (g q)) (length sent + (b + armed q)) (a + b) (omega arith)
        (prepend_sent-Within sent (g q) (b + armed q) (k q))

  phase_steps-Within :
      (is : List (Input E)) (p : Phase E) → Within (phase_steps is p) (count is_start is + armed p)
  unfolding phase_steps Within
  phase_steps-Within [] p = omega arith
  phase_steps-Within (i ∷ rest) p =
      Within-le (phase_steps (i ∷ rest) p)
        (((if is_start i then 1 else 0) + armed p) + count is_start rest)
        (count is_start (i ∷ rest) + armed p) (omega arith)
        (bind-Within (phase_step i p) ((if is_start i then 1 else 0) + armed p)
          (count is_start rest) (phase_steps rest) (phase_step-Within i p)
          (λ q. phase_steps-Within rest q))

-- From one of the phases, a timer delivers at most one event for each start, and one more if
-- it was counting down or had an event waiting. So after a stop nothing comes before a start.
pub loop-deliveries :
    {E : Type 0} (is : List (Input E)) (t u : TimerImpl E) (p : Phase E) (out : List (Option E))
    → IsIn t p
    → loop is t ≡ some (u, out)
    → length out ≤ count is_start is + armed p
unfolding Within
loop-deliveries is t u p out h run =
    let (q, e, k) = loop-phases is t u p out h run in
    let w : length out + armed q ≤ count is_start is + armed p =
      subst (λ o. Within o (count is_start is + armed p)) e (phase_steps-Within is p) in
    omega arith
