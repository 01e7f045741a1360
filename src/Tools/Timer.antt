-- ===== src/Tools/Timer.antt =====
-- The timer thread `timerImpl.loop` of pbft/tools/timer.go. One round of its `select` takes one of the
-- inputs below; a channel that is nil blocks, so its case is not taken.
pub mod Phases
pub mod Runs
mod Tests
use spree.Base.{
  ℕ, ◌+◌, Bool, true, false, not, Option, none, some, List, [], ◌∷◌, ◌++◌, ◌&&◌, is_some,
  if◌then◌else◌,
}

-- What the `select` may receive or send. `start` carries a `timerStart`: hard, duration, event.
pub data Input (E : Type 0) : Type 0 where
  start : Bool → ℕ → E → Input E
  stop : Input E
  -- `<-et.timerChan`: the countdown is over
  expire : Input E
  -- `eventDestChan <- event`: the manager takes the event
  deliver : Input E
  exit : Input E

-- `timerImpl` with the variables of `loop`. `timer_chan` is the countdown, if one runs;
-- `event_dest_chan` is whether the channel is set; `halted` is that the thread has returned.
pub record TimerImpl (E : Type 0) : Type 0 where
  pub timer_chan : Option ℕ
  pub event : Option E
  pub event_dest_chan : Bool
  pub halted : Bool

module _ {E : Type 0} where
  -- `newTimerImpl`
  abbrev pub new_timer_impl : TimerImpl E
  new_timer_impl = record {
    timer_chan = none;
    event = none;
    event_dest_chan = false;
    halted = false;
  }

  -- `SoftReset` and `Reset`
  abbrev pub soft_reset : ℕ → E → Input E
  soft_reset duration event = start false duration event

  abbrev pub hard_reset : ℕ → E → Input E
  hard_reset duration event = start true duration event

  -- One round of the loop: the timer and what it delivers, or `none` where the case is blocked.
  abbrev pub select_case : Input E → TimerImpl E → Option (TimerImpl E × List (Option E))
  select_case (start hard duration event) t =
      if is_some t.timer_chan && not hard
      then some (t, [])
      else some
          (record t { timer_chan = some duration; event = some event; event_dest_chan = false }, [])
  select_case stop t =
      some (record t { timer_chan = none; event = none; event_dest_chan = false }, [])
  select_case expire t =
      if is_some t.timer_chan
      then some (record t { timer_chan = none; event_dest_chan = true }, [])
      else none
  select_case deliver t =
      if t.event_dest_chan then some (record t { event_dest_chan = false }, t.event ∷ []) else none
  select_case exit t = some (record t { halted = true }, [])

  unfoldable pub loop_round : Input E → TimerImpl E → Option (TimerImpl E × List (Option E))
  loop_round i t = if t.halted then none else select_case i t

  abbrev pub prepend :
      List (Option E)
      → Option (TimerImpl E × List (Option E))
      → Option (TimerImpl E × List (Option E))
  prepend out none = none
  prepend out (some (t, rest)) = some (t, out ++ rest)

  -- The loop on a sequence of inputs: the timer at the end and all that it has delivered, or `none`
  -- where the sequence cannot happen.
  unfoldable pub loop : List (Input E) → TimerImpl E → Option (TimerImpl E × List (Option E))
  unfolding loop_round
  loop [] t = some (t, [])
  loop (i ∷ rest) t = elim (loop_round i t) [
    | none ↦ none
    | some (u, out) ↦ prepend out (loop rest u)
  ]
