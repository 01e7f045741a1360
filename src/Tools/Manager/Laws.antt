-- ===== src/Tools/Manager/Laws.antt =====
-- What the loop of the event manager (pbft/tools/events.go) delivers.
use spree.Base.{◌≡◌, refl, List, [], ◌∷◌}
use spree.Tools.Manager.{ManagerInput, queued, exit, ManagerImpl, set_receiver, inject, event_loop}

module _ {E : Type 0} where
  -- The events that the loop receives before it is told to exit.
  abbrev pub before_exit : List (ManagerInput E) → List E
  before_exit [] = []
  before_exit (queued e ∷ rest) = e ∷ before_exit rest
  before_exit (exit ∷ rest) = []

module _ {E S : Type 0} where
  abbrev pub deliver_all : (E → S → S) → List E → S → S
  deliver_all receiver [] s = s
  deliver_all receiver (e ∷ es) s = deliver_all receiver es (receiver e s)

  -- The loop hands its receiver each event once, in the order of the queue, up to the exit.
  pub event_loop-set_receiver :
      (receiver : E → S → S) (em : ManagerImpl E S) (is : List (ManagerInput E)) (s : S)
      → event_loop (set_receiver receiver em) is s ≡ deliver_all receiver (before_exit is) s
  unfolding event_loop inject
  event_loop-set_receiver receiver em [] s = refl
  event_loop-set_receiver receiver em (queued e ∷ rest) s =
      event_loop-set_receiver receiver em rest (receiver e s)
  event_loop-set_receiver receiver em (exit ∷ rest) s = refl
