-- ===== src/Tools/Timer/Phases.antt =====
-- The three phases of a timer, which the thread of pbft/tools/timer.go moves between.
use spree.Base.{
  ℕ, ◌≡◌, refl, ◌∙◌, true, false, Option, none, some, List, [], ◌∷◌, is_some, arith, ◌&&◌, if_cases,
}
use spree.Tools.Timer.{Input, start, stop, expire, deliver, exit, TimerImpl, select_case}

-- A timer is idle, counts down to an event, or waits to deliver one.
pub data Phase (E : Type 0) : Type 0 where
  idle : Phase E
  counting : ℕ → E → Phase E
  waiting : E → Phase E

module _ {E : Type 0} where
  -- A running countdown is left to run unless the start is hard. Any other start begins a countdown
  -- and drops an event that waits, also a soft one, of which the comment on `SoftReset` says that it
  -- does not; a stop drops all.
  unfoldable pub phase_step : Input E → Phase E → Option (Phase E × List (Option E))
  phase_step (start true d e) p = some (counting d e, [])
  phase_step (start false d e) (counting c f) = some (counting c f, [])
  phase_step (start false d e) idle = some (counting d e, [])
  phase_step (start false d e) (waiting f) = some (counting d e, [])
  phase_step stop p = some (idle, [])
  phase_step expire (counting c f) = some (waiting f, [])
  phase_step expire idle = none
  phase_step expire (waiting f) = none
  phase_step deliver (waiting f) = some (idle, some f ∷ [])
  phase_step deliver idle = none
  phase_step deliver (counting c f) = none
  phase_step exit p = some (p, [])

  -- The timer is in this phase.
  pub data IsIn : TimerImpl E → Phase E → Type 0 where
    is_idle : {t : TimerImpl E} → t.timer_chan ≡ none → t.event_dest_chan ≡ false → IsIn t idle
    is_counting :
        {t : TimerImpl E} {d : ℕ} {e : E}
        → t.timer_chan ≡ some d
        → t.event ≡ some e
        → t.event_dest_chan ≡ false
        → IsIn t (counting d e)
    is_waiting :
        {t : TimerImpl E} {e : E}
        → t.timer_chan ≡ none
        → t.event ≡ some e
        → t.event_dest_chan ≡ true
        → IsIn t (waiting e)

  -- The round makes the step of the phases: it is blocked where there is no step, and otherwise
  -- delivers what the step delivers and ends in its phase.
  unfoldable pub Does :
      Option (TimerImpl E × List (Option E)) → Option (Phase E × List (Option E)) → Type 0
  Does none none = Unit {0}
  Does none (some q) = ⊥
  Does (some r) none = ⊥
  Does (some (t, out)) (some (p, sent)) = IsIn t p × (out ≡ sent)

  same_phase :
      {t u : TimerImpl E} {p : Phase E}
      → IsIn t p
      → u.timer_chan ≡ t.timer_chan
      → u.event ≡ t.event
      → u.event_dest_chan ≡ t.event_dest_chan
      → IsIn u p
  same_phase (is_idle a b) x y z = is_idle (x ∙ a) (z ∙ b)
  same_phase (is_counting a b c) x y z = is_counting (x ∙ a) (y ∙ b) (z ∙ c)
  same_phase (is_waiting a b c) x y z = is_waiting (x ∙ a) (y ∙ b) (z ∙ c)

  pub select_case-Does :
      (i : Input E) (t : TimerImpl E) (p : Phase E)
      → IsIn t p
      → Does (select_case i t) (phase_step i p)
  unfolding phase_step Does
  select_case-Does (start true d e) t p h =
      if_cases (λ r. Does r (some (counting d e, []))) (is_some t.timer_chan && false) _ _
        (λ running. absurd (ground arith)) (λ free. (is_counting refl refl refl, refl))
  select_case-Does (start false d e) t idle (is_idle a b) =
      if_cases (λ r. Does r (some (counting d e, []))) (is_some t.timer_chan && true) _ _
        (λ running. absurd (ground arith)) (λ free. (is_counting refl refl refl, refl))
  select_case-Does (start false d e) t (counting c f) (is_counting a b g) =
      if_cases (λ r. Does r (some (counting c f, []))) (is_some t.timer_chan && true) _ _
        (λ running. (is_counting a b g, refl)) (λ free. absurd (ground arith))
  select_case-Does (start false d e) t (waiting f) (is_waiting a b g) =
      if_cases (λ r. Does r (some (counting d e, []))) (is_some t.timer_chan && true) _ _
        (λ running. absurd (ground arith)) (λ free. (is_counting refl refl refl, refl))
  select_case-Does stop t p h = (is_idle refl refl, refl)
  select_case-Does expire t idle (is_idle a b) =
      if_cases (λ r. Does r none) (is_some t.timer_chan) _ _ (λ running. absurd (ground arith))
        (λ free. tt)
  select_case-Does expire t (counting c f) (is_counting a b g) =
      if_cases (λ r. Does r (some (waiting f, []))) (is_some t.timer_chan) _ _
        (λ running. (is_waiting refl b refl, refl)) (λ free. absurd (ground arith))
  select_case-Does expire t (waiting f) (is_waiting a b g) =
      if_cases (λ r. Does r none) (is_some t.timer_chan) _ _ (λ running. absurd (ground arith))
        (λ free. tt)
  select_case-Does deliver t idle (is_idle a b) =
      if_cases (λ r. Does r none) t.event_dest_chan _ _ (λ set. absurd (ground arith)) (λ free. tt)
  select_case-Does deliver t (counting c f) (is_counting a b g) =
      if_cases (λ r. Does r none) t.event_dest_chan _ _ (λ set. absurd (ground arith)) (λ free. tt)
  select_case-Does deliver t (waiting f) (is_waiting a b g) =
      if_cases (λ r. Does r (some (idle, some f ∷ []))) t.event_dest_chan _ _
        (λ set. (is_idle a refl, rw b)) (λ free. absurd (ground arith))
  select_case-Does exit t p h = (same_phase h refl refl refl, refl)
