-- ===== src/Pbft/Server.antt =====
-- `Server` and `handleConnection` of pbft/server.go: a node listens on its own address, and hands to
-- its replica what it reads.
pub mod Laws
pub mod Running
mod Tests
use spree.Base.{ℕ, zero, suc, Bool, not, Option, none, some, List, [], ◌∷◌, Bytes, get_or, nat_eq}
use spree.Base.Map.{lookup}
use spree.Pbft.Messages.{
  Message, RequestBatch, Request, request_batch, pre_prepare, prepare, commit,
}
use spree.Pbft.Core.{Env, M, panic, get, pure, raise, skip, ◌>>=◌, ◌>>◌, if◌then◌else◌}
use spree.Pbft.Replica.{Event, send}
use spree.Pbft.Node.{global_node_map}

-- What the server makes of a message: an event, an index or a nil pointer that panics, or nothing.
pub data Heard : Type 0 where
  event : Event → Heard
  broken : Heard
  unsupported : Heard

-- `prePrepare.RequestBatch.Batch[0]`, which is logged before the event is sent.
abbrev pub first_request : Option RequestBatch → Option Request
first_request none = none
first_request (some b) = elim b.batch [ [] ↦ none | r ∷ rest ↦ some r ]

abbrev pub if_logged : Option Request → Event → Heard
if_logged none e = broken
if_logged (some r) e = event e

-- The cases of the switch over the payload.
unfoldable pub heard : Option Message → Heard
heard (some (request_batch b)) = event (Event.request_batch b)
heard (some (pre_prepare p)) = if_logged (first_request p.request_batch) (Event.pre_prepare p)
heard (some (prepare p)) = event (Event.prepare p)
heard (some (commit c)) = event (Event.commit c)
heard _ = unsupported

take : ℕ → Bytes → Bytes
take zero b = []
take (suc n) [] = []
take (suc n) (x ∷ b) = x ∷ take n b

-- What the first `Read` into the buffer of 2048 bytes gives of the bytes that a peer sends.
unfoldable pub read_buffer : Bytes → Bytes
unfolding take
read_buffer sent = take 2048 sent

-- The loop waits for the next connection, or it has returned: nothing is read any more.
pub data Served : Type 0 where
  waiting returned : Served

-- `unmarshal` is the payload that `proto.Unmarshal` leaves in the message; its error is not looked at.
module _ (env : Env) (unmarshal : Bytes → Option Message) where
  unfoldable pub handle : ℕ → Heard → M (Unit {0})
  handle fuel (event e) = send env (fuel, e)
  handle fuel broken = raise panic
  handle fuel unsupported = skip

  -- `handleConnection` on the connections one after another, each with the fuel for its event:
  -- `none` is an error of `AcceptTCP` or of `Read`.
  unfoldable pub handle_connection : List (ℕ × Option Bytes) → M Served
  handle_connection [] = pure waiting
  handle_connection ((fuel, none) ∷ rest) = pure returned
  handle_connection ((fuel, some sent) ∷ rest) = do
    handle fuel (heard (unmarshal (read_buffer sent)))
    handle_connection rest

  -- `Server`; `listen` is whether `ListenTCP` succeeds at an address
  unfoldable pub server : (Bytes → Bool) → List (ℕ × Option Bytes) → M Served
  server listen connections = do
    s ← get
    if not (listen (get_or (lookup s.id global_node_map) []))
        then pure returned
        else handle_connection connections
