-- ===== src/Pbft/Replica/Rounds.antt =====
-- How often `SendEvent` (pbft/tools/events.go) goes round with this replica as its receiver.
use spree.Base.{ℕ, suc, ◌≡◌, refl, Option, none, some}
use spree.Pbft.Core.{Core, Env, InternalEvent, Outcome, ok, fault, skip, and_then, ◌>>=◌, ◌>>◌}
use spree.Pbft.Replica.{Event, internal, process_event, send_event}

module _ (env : Env) (fuel rounds : ℕ) where
  -- An event that the replica itself returns is not handled, and ends the loop.
  internal-ends :
      (i : InternalEvent) (s : Core) → send_event env fuel (suc rounds) (internal i) s ≡ ok tt s
  unfolding send_event process_event ◌>>=◌
  internal-ends i s = refl

  next-ends :
      (o : Outcome (Option InternalEvent))
      → and_then o (λ next. elim next [
        | none ↦ skip
        | some i ↦ send_event env fuel (suc rounds) (internal i)
      ])
        ≡ and_then o (λ next. skip)
  unfolding ◌>>=◌
  next-ends (ok none s) = refl
  next-ends (ok (some i) s) = internal-ends i s
  next-ends (fault x s) = refl

-- For any event and state, the loop ends in its second round at the latest: with two rounds or
-- more, `SendEvent` is one `ProcessEvent` whose result is dropped.
pub send_event-ends :
    (env : Env) (fuel rounds : ℕ) (e : Event) (s : Core)
    → send_event env fuel (suc (suc rounds)) e s ≡ (process_event env fuel e >> skip) s
unfolding send_event ◌>>=◌
send_event-ends env fuel rounds e s = next-ends env fuel rounds (process_event env fuel e s)
