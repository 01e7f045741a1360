-- ===== src/Tools/Timer/Tests.antt =====
-- Runs of a timer, and the theorems applied to them.
use spree.Base.{ℕ, ◌≤◌, ◌≡◌, refl, false, none, some, List, [], ◌∷◌}
use spree.Tools.Timer.{
  Input, stop, expire, deliver, soft_reset, hard_reset, TimerImpl, loop, new_timer_impl,
}
use spree.Tools.Timer.Phases.{Phase, idle, IsIn, is_idle}
use spree.Tools.Timer.Runs.{phase_steps, loop-phases, loop-deliveries}

-- The second start is soft and comes while the countdown runs; the third clears the waiting event.
abbrev pub rounds : List (Input ℕ)
rounds =
    soft_reset 5 7
    ∷ soft_reset 1 8
    ∷ expire
    ∷ deliver
    ∷ soft_reset 5 7
    ∷ expire
    ∷ soft_reset 5 9
    ∷ stop
    ∷ []

abbrev after_rounds : TimerImpl ℕ
after_rounds = record { timer_chan = none; event = none; event_dest_chan = false; halted = false }

rounds_run : loop rounds new_timer_impl ≡ some (after_rounds, some 7 ∷ [])
unfolding loop
rounds_run = refl

-- A hard reset replaces the countdown and its event.
hard_reset_run :
    loop {E = ℕ} (soft_reset 5 7 ∷ hard_reset 1 8 ∷ expire ∷ deliver ∷ []) new_timer_impl
    ≡ some (
      record { timer_chan = none; event = some 8; event_dest_chan = false; halted = false },
      some 8 ∷ [],
    )
unfolding loop
hard_reset_run = refl

loop-phases_example :
    (q : Phase ℕ) × (phase_steps rounds idle ≡ some (q, some 7 ∷ [])) × IsIn after_rounds q
loop-phases_example =
    loop-phases rounds new_timer_impl after_rounds idle (some 7 ∷ []) (is_idle refl refl) rounds_run

loop-deliveries_example : 1 ≤ 4
loop-deliveries_example =
    loop-deliveries rounds new_timer_impl after_rounds idle (some 7 ∷ []) (is_idle refl refl)
      rounds_run
