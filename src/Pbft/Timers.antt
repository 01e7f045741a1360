-- ===== src/Pbft/Timers.antt =====
-- The timer helpers at the end of pbft/core.go. A timer only sees calls here; what it does with
-- them is Tools/Timer.antt.
use spree.Base.{
  ℕ, ◌+◌, true, false, ◌||◌, ◌++◌, Bytes, codes, ltb, ◌==◌, nat_eq, is_some, length, cond,
}
use spree.Base.Map.{keys}
use spree.Base.Text.{show_strings}
use spree.Pbft.Core.{
  Core, view_change_timer, null_request, new_view_timer, null_request_timer, soft_reset, reset,
  stop, timer, M, modify, emit, get, skip, ◌>>=◌, ◌>>◌, if◌then◌else◌,
}
use spree.Pbft.Quorum.{primary}

-- `softStartTimer`
unfoldable pub soft_start_timer : ℕ → Bytes → M (Unit {0})
soft_start_timer timeout reason = do
  modify (λ s. record s { new_view_timer_reason = reason; timer_active = true })
  emit (timer new_view_timer (soft_reset timeout view_change_timer))

-- `startTimer`, which leaves the reason as it was
unfoldable pub start_timer : ℕ → M (Unit {0})
start_timer timeout = do
  modify (λ s. record s { timer_active = true })
  emit (timer new_view_timer (reset timeout view_change_timer))

-- `stopTimer`
unfoldable pub stop_timer : M (Unit {0})
stop_timer = do modify (λ s. record s { timer_active = false }); emit (timer new_view_timer stop)

-- How long the null request timer runs: longer on a backup.
abbrev null_timeout : Core → ℕ
null_timeout s =
    cond (primary s.config s.view == s.id) s.null_request_timeout
      (s.null_request_timeout + s.request_timeout)

-- `startTimerIfOutstandingRequests`
unfoldable pub start_timer_if_outstanding_requests : M (Unit {0})
start_timer_if_outstanding_requests = do
  s ← get
  if s.skip_in_progress || is_some s.current_exec
      then skip
      else if ltb 0 (length s.outstanding_req_batches)
      then soft_start_timer s.request_timeout
          (codes "outstanding request batches " ++ show_strings (keys s.outstanding_req_batches))
      else (if ltb 0 s.null_request_timeout
          then emit (timer null_request_timer (reset (null_timeout s) null_request))
          else skip)
