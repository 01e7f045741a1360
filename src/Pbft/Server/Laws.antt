-- ===== src/Pbft/Server/Laws.antt =====
-- What of the traffic on a node's port its replica processes.
use spree.Base.{ℕ, ◌≡◌, ap, refl, true, Option, none, some, List, [], ◌∷◌, Bytes, All, is_some}
use spree.Pbft.Messages.{Message, PrePrepare, Request}
use spree.Pbft.Core.{
  Core, Env, Outcome, ok, fault, M, panic, pure, raise, and_then, for_each, ◌>>=◌, ◌>>◌,
}
use spree.Pbft.Replica.{
  Event, request_batch, pre_prepare, prepare, commit, checkpoint, view_change, new_view, internal,
  send, send_event,
}
use spree.Pbft.Server.{
  Heard, event, broken, unsupported, first_request, if_logged, heard, read_buffer, Served, waiting,
  returned, handle, handle_connection,
}

-- The events that a node takes from the network.
abbrev pub IsServed : ℕ × Event → Type 0
IsServed (fuel, request_batch b) = Unit
IsServed (fuel, pre_prepare p) = is_some (first_request p.request_batch) ≡ true
IsServed (fuel, prepare p) = Unit
IsServed (fuel, commit c) = Unit
IsServed (fuel, checkpoint c) = ⊥
IsServed (fuel, view_change vc) = ⊥
IsServed (fuel, new_view nv) = ⊥
IsServed (fuel, internal i) = ⊥

abbrev pub add_heard : ℕ → Heard → List (ℕ × Event) → List (ℕ × Event)
add_heard fuel (event e) rest = (fuel, e) ∷ rest
add_heard fuel broken rest = []
add_heard fuel unsupported rest = rest

abbrev pub end_heard : Heard → M Served → M Served
end_heard (event e) ending = ending
end_heard broken ending = raise panic
end_heard unsupported ending = ending

module _ (unmarshal : Bytes → Option Message) where
  -- The events of the connections, up to the first error or the first message that panics.
  abbrev pub events_of : List (ℕ × Option Bytes) → List (ℕ × Event)
  events_of [] = []
  events_of ((fuel, none) ∷ rest) = []
  events_of ((fuel, some sent) ∷ rest) =
      add_heard fuel (heard (unmarshal (read_buffer sent))) (events_of rest)

  -- How the loop ends, if none of the events ends in a fault.
  abbrev pub ending_of : List (ℕ × Option Bytes) → M Served
  ending_of [] = pure waiting
  ending_of ((fuel, none) ∷ rest) = pure returned
  ending_of ((fuel, some sent) ∷ rest) =
      end_heard (heard (unmarshal (read_buffer sent))) (ending_of rest)

if_logged-AreServed :
    (fuel : ℕ) (p : PrePrepare) (o : Option Request) (rest : List (ℕ × Event))
    → first_request p.request_batch ≡ o
    → All IsServed rest
    → All IsServed (add_heard fuel (if_logged o (pre_prepare p)) rest)
if_logged-AreServed fuel p none rest e h = tt
if_logged-AreServed fuel p (some r) rest e h = (ap is_some e, h)

add_heard-AreServed :
    (fuel : ℕ) (m : Option Message) (rest : List (ℕ × Event))
    → All IsServed rest
    → All IsServed (add_heard fuel (heard m) rest)
unfolding heard
add_heard-AreServed fuel none rest h = h
add_heard-AreServed fuel (some (Message.request_batch b)) rest h = (tt, h)
add_heard-AreServed fuel (some (Message.pre_prepare p)) rest h =
    if_logged-AreServed fuel p (first_request p.request_batch) rest refl h
add_heard-AreServed fuel (some (Message.prepare p)) rest h = (tt, h)
add_heard-AreServed fuel (some (Message.commit c)) rest h = (tt, h)
add_heard-AreServed fuel (some (Message.checkpoint c)) rest h = h
add_heard-AreServed fuel (some (Message.view_change c)) rest h = h
add_heard-AreServed fuel (some (Message.new_view c)) rest h = h
add_heard-AreServed fuel (some (Message.fetch_request_batch c)) rest h = h
add_heard-AreServed fuel (some (Message.return_request_batch c)) rest h = h

module _ (env : Env) (unmarshal : Bytes → Option Message) where
  sent_before :
      {A : Type 0} (o : Outcome (Unit {0})) (f : M A) (g : M (Unit {0})) (k : M A)
      → ((t : Core) → f t ≡ and_then (g t) (λ _. k))
      → and_then o (λ _. f) ≡ and_then (and_then o (λ _. g)) (λ _. k)
  sent_before (ok a t) f g k h = h t
  sent_before (fault x t) f g k h = refl

  handle_each :
      (fuel : ℕ) (m : Heard) (rest : List (ℕ × Option Bytes)) (s : Core)
      → ((t : Core)
          → handle_connection env unmarshal rest t
            ≡ (for_each (events_of unmarshal rest) (send env) >> ending_of unmarshal rest) t)
      → (handle env unmarshal fuel m >> handle_connection env unmarshal rest) s
        ≡ (for_each (add_heard fuel m (events_of unmarshal rest)) (send env)
              >> end_heard m (ending_of unmarshal rest))
            s
  unfolding handle for_each ◌>>=◌
  handle_each fuel (event e) rest s ih = sent_before (send_event env fuel 2 e s) _ _ _ ih
  handle_each fuel broken rest s ih = refl
  handle_each fuel unsupported rest s ih = ih s

  handled :
      (connections : List (ℕ × Option Bytes)) (s : Core)
      → handle_connection env unmarshal connections s
        ≡ (for_each (events_of unmarshal connections) (send env) >> ending_of unmarshal connections)
            s
  unfolding handle_connection for_each ◌>>=◌
  handled [] s = refl
  handled ((fuel, none) ∷ rest) s = refl
  handled ((fuel, some sent) ∷ rest) s =
      handle_each fuel (heard (unmarshal (read_buffer sent))) rest s (λ t. handled rest t)

  AreServed :
      (connections : List (ℕ × Option Bytes)) → All IsServed (events_of unmarshal connections)
  AreServed [] = tt
  AreServed ((fuel, none) ∷ rest) = tt
  AreServed ((fuel, some sent) ∷ rest) =
      add_heard-AreServed fuel (unmarshal (read_buffer sent)) (events_of unmarshal rest)
        (AreServed rest)

  -- Whatever bytes arrive, the server runs `SendEvent` for the events in them one after another, up
  -- to an error of the network, a panic or a fault of an event. It takes only request batches,
  -- pre-prepares with a request, prepares and commits: checkpoints, view changes and new views that
  -- other replicas send never reach the replica.
  pub handle_connection_lem :
      (connections : List (ℕ × Option Bytes)) (s : Core)
      → (handle_connection env unmarshal connections s
          ≡ (for_each (events_of unmarshal connections) (send env)
                >> ending_of unmarshal connections)
              s)
        × All IsServed (events_of unmarshal connections)
  handle_connection_lem connections s = (handled connections s, AreServed connections)
