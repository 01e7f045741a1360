-- ===== src/Pbft/Running.antt =====
-- A replica behind the event manager: `createRunningPbftWithManager` of pbft/mock_utils.go. The
-- queue takes the events of other threads and, through `NewTimerFactoryImpl`, those of the replica's
-- timers.
mod Tests
use spree.Base.{ℕ, ◌≡◌, refl, ap, ◌∙◌, List, [], ◌∷◌}
use spree.Pbft.Core.{
  Core, Env, InternalEvent, Outcome, ok, fault, M, and_then, for_each, ◌>>=◌, ◌>>◌,
}
use spree.Pbft.Replica.{
  Event, request_batch, pre_prepare, prepare, commit, checkpoint, view_change, new_view, internal,
  process_event, send, send_event,
}
use spree.Tools.Manager.{ManagerInput, ManagerImpl, new_manager_impl, set_receiver, event_loop}
use spree.Tools.Manager.Laws.{before_exit, deliver_all, event_loop-set_receiver}

module _ (env : Env) where
  -- `SendEvent` on the replica, each event with its fuel. After a fault the process is gone.
  abbrev pub core_receiver : ℕ × Event → Outcome (Unit {0}) → Outcome (Unit {0})
  core_receiver e o = and_then o (λ _. send env e)

  -- `createRunningPbftWithManager`; the replica itself is the world that the receiver works on
  unfoldable pub create_running_pbft_with_manager : ManagerImpl (ℕ × Event) (Outcome (Unit {0}))
  create_running_pbft_with_manager = set_receiver core_receiver new_manager_impl

-- The events without those of timers.
abbrev pub without_internal : List (ℕ × Event) → List (ℕ × Event)
without_internal [] = []
without_internal ((fuel, e) ∷ rest) = elim e [
  | internal i ↦ without_internal rest
  | other ↦ (fuel, other) ∷ without_internal rest
]

module _ (env : Env) where
  then_rest :
      (e : ℕ × Event) (rest : List (ℕ × Event)) (o : Outcome (Unit {0}))
      → and_then (core_receiver env e o) (λ _. for_each rest (send env))
        ≡ and_then o (λ _. for_each (e ∷ rest) (send env))
  unfolding for_each ◌>>=◌
  then_rest e rest (ok a s) = refl
  then_rest e rest (fault x s) = refl

  without_effect :
      (fuel : ℕ) (i : InternalEvent) (o : Outcome (Unit {0}))
      → core_receiver env (fuel, internal i) o ≡ o
  unfolding send_event process_event ◌>>=◌
  without_effect fuel i (ok a s) = refl
  without_effect fuel i (fault x s) = refl

  delivered :
      (es : List (ℕ × Event)) (o : Outcome (Unit {0}))
      → deliver_all (core_receiver env) es o
        ≡ and_then o (λ _. for_each (without_internal es) (send env))
  unfolding for_each ◌>>=◌
  delivered [] (ok a s) = refl
  delivered [] (fault x s) = refl
  delivered ((fuel, internal i) ∷ rest) o =
      ap (deliver_all (core_receiver env) rest) (without_effect fuel i o) ∙ delivered rest o
  delivered ((fuel, request_batch m) ∷ rest) o =
      delivered rest _ ∙ then_rest (fuel, request_batch m) (without_internal rest) o
  delivered ((fuel, pre_prepare m) ∷ rest) o =
      delivered rest _ ∙ then_rest (fuel, pre_prepare m) (without_internal rest) o
  delivered ((fuel, prepare m) ∷ rest) o =
      delivered rest _ ∙ then_rest (fuel, prepare m) (without_internal rest) o
  delivered ((fuel, commit m) ∷ rest) o =
      delivered rest _ ∙ then_rest (fuel, commit m) (without_internal rest) o
  delivered ((fuel, checkpoint m) ∷ rest) o =
      delivered rest _ ∙ then_rest (fuel, checkpoint m) (without_internal rest) o
  delivered ((fuel, view_change m) ∷ rest) o =
      delivered rest _ ∙ then_rest (fuel, view_change m) (without_internal rest) o
  delivered ((fuel, new_view m) ∷ rest) o =
      delivered rest _ ∙ then_rest (fuel, new_view m) (without_internal rest) o

  -- The queue as a whole: up to the exit, its thread runs `SendEvent` for the events that are not
  -- those of timers, one after another in the order of the queue. All events of timers together,
  -- at whatever places of the queue, change nothing.
  pub running_pbft_lem :
      (is : List (ManagerInput (ℕ × Event))) (s : Core)
      → event_loop (create_running_pbft_with_manager env) is (ok tt s)
        ≡ for_each (without_internal (before_exit is)) (send env) s
  unfolding create_running_pbft_with_manager
  running_pbft_lem is s =
      event_loop-set_receiver (core_receiver env) new_manager_impl is (ok tt s)
      ∙ delivered (before_exit is) (ok tt s)
