-- ===== src/Pbft/Server/Running.antt =====
-- A whole node: the replica of `NewPbftCore` with the node's answers, behind the server.
use spree.Base.{ℕ, zero, suc, ◌≡◌, Bool, Option, none, some, List, [], ◌∷◌, Bytes, nat_eq}
use spree.Pbft.Messages.{Message}
use spree.Pbft.Core.{Config, Core, Env, InternalEvent, Outcome, M, skip, final}
use spree.Pbft.Replica.{Event, internal, calls, send_event}
use spree.Pbft.Invariants.Execution.{process_all}
use spree.Pbft.Steps.Rules.{Runs, runs_pure, runs_raise, runs_skip, runs_bind, runs_get, runs_if}
use spree.Pbft.Steps.Replica.{process_event-runs}
use spree.Pbft.Init.{Settings, Stored, configure, new_pbft_core}
use spree.Pbft.Init.Sound.{IsProper, Reach-IsProper, new_pbft_core-IsProper}
use spree.Pbft.Node.{node_env, node_stored}
use spree.Pbft.Server.{Heard, event, broken, unsupported, handle, handle_connection, server}

next-runs :
    (m : InternalEvent → M (Unit {0})) (next : Option InternalEvent) (t : Core)
    → ((i : InternalEvent) → Runs t (m i))
    → Runs t (elim next [ none ↦ skip | some i ↦ m i ])
next-runs m none t h = runs_skip
next-runs m (some i) t h = h i

module _ (env : Env) where
  send_event-runs : {s : Core} (fuel rounds : ℕ) (e : Event) → Runs s (send_event env fuel rounds e)
  unfolding send_event
  send_event-runs fuel zero e = runs_raise _
  send_event-runs fuel (suc rounds) e = runs_bind _ _ (process_event-runs env fuel e) (λ next t.
      next-runs (λ i. send_event env fuel rounds (internal i)) next t
        (λ i. send_event-runs fuel rounds (internal i)))

  handle-runs :
      {s : Core} (unmarshal : Bytes → Option Message) (fuel : ℕ) (m : Heard)
      → Runs s (handle env unmarshal fuel m)
  unfolding handle
  handle-runs unmarshal fuel (event e) = send_event-runs fuel 2 e
  handle-runs unmarshal fuel broken = runs_raise _
  handle-runs unmarshal fuel unsupported = runs_skip

  handle_connection-runs :
      {s : Core} (unmarshal : Bytes → Option Message) (connections : List (ℕ × Option Bytes))
      → Runs s (handle_connection env unmarshal connections)
  unfolding handle_connection
  handle_connection-runs unmarshal [] = runs_pure _
  handle_connection-runs unmarshal ((fuel, none) ∷ rest) = runs_pure _
  handle_connection-runs unmarshal ((fuel, some sent) ∷ rest) =
      runs_bind _ _ (handle-runs unmarshal fuel _) (λ _ t. handle_connection-runs unmarshal rest)

  server-runs :
      {s : Core} (unmarshal : Bytes → Option Message) (listen : Bytes → Bool)
      (connections : List (ℕ × Option Bytes))
      → Runs s (server env unmarshal listen connections)
  unfolding server
  server-runs unmarshal listen connections =
      runs_get _
        (runs_if _ _ _ (λ _. runs_pure _) (λ _. handle_connection-runs unmarshal connections))

-- A node whose constructor does not panic: whatever bytes then arrive on its port, in whatever order
-- and with whatever fuel for the events in them, its replica has its configuration unchanged, only
-- sound certificates, a low watermark that is a multiple of `K`, and only correct view changes.
pub server-IsProper :
    (env : Env) (stored : Stored) (unmarshal : Bytes → Option Message) (listen : Bytes → Bool)
    (fuel id : ℕ) (settings : Settings) (c : Config) (o : Outcome (Unit {0}))
    (connections : List (ℕ × Option Bytes))
    → configure id settings ≡ some c
    → new_pbft_core (node_env env) (node_stored stored) (calls (node_env env) fuel) id settings
      ≡ some o
    → IsProper c (final (server (node_env env) unmarshal listen connections (final o)))
unfolding process_all
server-IsProper env stored unmarshal listen fuel id settings c o connections con new =
    let (n, l, r, p) =
      new_pbft_core-IsProper (node_env env) (node_stored stored) fuel id settings c o [] con new in
    Reach-IsProper (server-runs (node_env env) unmarshal listen connections).reach p
