-- ===== src/Tools/Manager.antt =====
-- The event manager `managerImpl` of pbft/tools/events.go: a thread that takes events from a channel
-- and hands them to a receiver. The type `S` is the world that the receiver works on.
pub mod Laws
use spree.Base.{Bool, true, false, Option, none, some, List, [], ◌∷◌}

-- What the `select` of the loop receives: an event that is sent into the queue, or that the exit
-- channel is closed.
pub data ManagerInput (E : Type 0) : Type 0 where
  queued : E → ManagerInput E
  exit : ManagerInput E

-- `managerImpl`: the receiver is what `SendEvent` does with it, `halted` that the exit channel is
-- closed.
pub record ManagerImpl (E S : Type 0) : Type 0 where
  pub receiver : Option (E → S → S)
  pub halted : Bool

module _ {E S : Type 0} where
  -- `NewManagerImpl`
  abbrev pub new_manager_impl : ManagerImpl E S
  new_manager_impl = record { receiver = none; halted = false }

  -- `SetReceiver`
  abbrev pub set_receiver : (E → S → S) → ManagerImpl E S → ManagerImpl E S
  set_receiver receiver em = record em { receiver = some receiver }

  -- `Halt`: the second time it changes nothing
  abbrev pub halt : ManagerImpl E S → ManagerImpl E S
  halt em = record em { halted = true }

  inject_into : Option (E → S → S) → E → S → S
  inject_into none e s = s
  inject_into (some receiver) e s = receiver e s

  -- `Inject`
  unfoldable pub inject : ManagerImpl E S → E → S → S
  unfolding inject_into
  inject em e s = inject_into em.receiver e s

  -- `eventLoop`, on what its `select` receives one after another
  unfoldable pub event_loop : ManagerImpl E S → List (ManagerInput E) → S → S
  event_loop em [] s = s
  event_loop em (queued e ∷ rest) s = event_loop em rest (inject em e s)
  event_loop em (exit ∷ rest) s = s
