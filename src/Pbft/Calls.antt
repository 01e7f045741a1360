-- ===== src/Pbft/Calls.antt =====
-- The methods of pbft/core.go that call one another in a cycle, as an interface: a handler takes
-- the three that it may come back to, and Replica.antt ties the knot.
use spree.Base.{Option}
use spree.Pbft.Messages.{RequestBatch}
use spree.Pbft.Core.{InternalEvent, M}

pub record Calls : Type 0 where
  pub execute_outstanding : M (Unit {0})
  pub recv_request_batch : Option RequestBatch → M (Unit {0})
  pub send_view_change : M (Option InternalEvent)
