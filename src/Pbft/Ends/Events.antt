-- ===== src/Pbft/Ends/Events.antt =====
-- How much fuel is enough for an event (pbft/core.go).
use spree.Base.{
  ℕ, ap, Option, some, zero, suc, ◌<◌, ◌≡◌, refl, true, false, Bool, none, length, count-le-length,
  ltb, ltb→lt, u64_mod, is_some, arith, ◌∷◌,
}
use spree.Base.Map.{keys}
use spree.Pbft.Messages.{ViewChange, Vcidx}
use spree.Pbft.Core.{Core, Env, M, InternalEvent, and_then, pure, ◌>>=◌}
use spree.Pbft.Calls.{Calls}
use spree.Pbft.Execution.{execute_outstanding}
use spree.Pbft.Normal.{recv_request_batch, recv_pre_prepare, recv_prepare, recv_commit}
use spree.Pbft.Replica.{
  Event, request_batch, pre_prepare, prepare, commit, checkpoint, view_change, new_view, internal,
  calls, process_event,
}
use spree.Pbft.Views.Later.{is_later, AreWords}
use spree.Pbft.Ends.{Ends, pure-Ends}
use spree.Pbft.Ends.Joining.{JoinsEnd, recv-Ends, send-Ends}
use spree.Pbft.Ends.Running.{IsEnding}
use spree.Pbft.Ends.Normal.{
  Waits, recv_commit-IsEnding, recv_prepare-IsEnding, recv_request_batch-IsEnding,
  recv_pre_prepare-IsEnding,
}

-- The event is a view change for a view that fits in 64 bits, one of the messages of normal
-- operation while a batch runs, or no message.
abbrev pub is_bounded : Event → Core → Bool
is_bounded (request_batch b) s = is_some s.current_exec
is_bounded (pre_prepare p) s = is_some s.current_exec
is_bounded (prepare p) s = is_some s.current_exec
is_bounded (commit m) s = is_some s.current_exec
is_bounded (checkpoint m) s = false
is_bounded (view_change vc) s = ltb vc.view u64_mod
is_bounded (new_view nv) s = false
is_bounded (internal i) s = true

module _ (env : Env) where
  -- With `fuel` levels of calls, the replica joins up to `fuel` views in turn.
  joins-end : (fuel : ℕ) → JoinsEnd (calls env fuel) fuel
  unfolding calls
  joins-end zero s words few = ground arith
  joins-end (suc fuel) s words few =
      send-Ends env (calls env fuel) fuel (joins-end fuel) s words (omega arith)

  calls-Waits : (fuel : ℕ) → Waits (calls env (suc fuel))
  unfolding calls execute_outstanding ◌>>=◌
  calls-Waits fuel s running = rw running refl

  view_change-Ends :
      (fuel : ℕ) (vc : ViewChange) (s : Core)
      → AreWords s.view_change_store
      → vc.view < u64_mod
      → length (keys s.view_change_store) < fuel
      → Ends (process_event env fuel (view_change vc)) s
  unfolding process_event
  view_change-Ends fuel vc s words word enough =
      let idx : Vcidx = record { v = vc.view; id = vc.replica_id } in
      let counted = count-le-length (is_later s.view) (idx ∷ keys s.view_change_store) in
      recv-Ends env (calls env fuel) fuel (joins-end fuel) vc s words word (omega arith)

  none-Ends :
      {m : M (Unit {0})} {s : Core}
      → Ends m s
      → Ends (m >>= λ _. pure {A = Option InternalEvent} none) s
  unfolding ◌>>=◌
  none-Ends e = record {
    result = none;
    end = e.end;
    ends = ap (λ o. and_then o (λ _. pure none)) e.ends;
  }

  running-Ends :
      (fuel : ℕ) (m : Calls → M (Unit {0})) (s : Core)
      → ((c : Calls) → JoinsEnd c (suc fuel) → Waits c → IsEnding (suc fuel) (m c))
      → is_some s.current_exec ≡ true
      → AreWords s.view_change_store
      → length (keys s.view_change_store) < suc fuel
      → Ends (m (calls env (suc fuel)) >>= λ _. pure {A = Option InternalEvent} none) s
  running-Ends fuel m s ending running words enough = none-Ends (
      (ending (calls env (suc fuel)) (joins-end (suc fuel)) (calls-Waits fuel)).ends s
        (record { running = running; words = words; few = omega arith }))

  bounded-Ends :
      (fuel : ℕ) (e : Event) (s : Core)
      → is_bounded e s ≡ true
      → AreWords s.view_change_store
      → length (keys s.view_change_store) < suc fuel
      → Ends (process_event env (suc fuel) e) s
  unfolding process_event
  bounded-Ends fuel (request_batch b) s bounded words enough =
      running-Ends fuel (λ c. recv_request_batch env c (some b)) s
        (λ c joins waits. recv_request_batch-IsEnding env c _ joins waits (some b)) bounded words
        enough
  bounded-Ends fuel (pre_prepare p) s bounded words enough =
      running-Ends fuel (λ c. recv_pre_prepare env c p) s
        (λ c joins waits. recv_pre_prepare-IsEnding env c _ joins waits p) bounded words enough
  bounded-Ends fuel (prepare p) s bounded words enough =
      running-Ends fuel (λ c. recv_prepare env c p) s
        (λ c joins waits. recv_prepare-IsEnding env c _ joins waits p) bounded words enough
  bounded-Ends fuel (commit m) s bounded words enough =
      running-Ends fuel (λ c. recv_commit env c m) s
        (λ c joins waits. recv_commit-IsEnding env c _ joins waits m) bounded words enough
  bounded-Ends fuel (checkpoint m) s bounded words enough = cc
  bounded-Ends fuel (view_change vc) s bounded words enough =
      let e = view_change-Ends (suc fuel) vc s words (ltb→lt vc.view u64_mod bounded) enough in
      record { result = e.result; end = e.end; ends = e.ends }
  bounded-Ends fuel (new_view nv) s bounded words enough = cc
  bounded-Ends fuel (internal i) s bounded words enough = pure-Ends none s

-- With more levels of calls than there are stored view changes, `ProcessEvent` ends well, without a
-- panic, for a view change, and while a batch runs also for a request batch, a pre-prepare, a prepare
-- and a commit, if the views of the view changes, stored or coming in, fit in 64 bits: the replica may
-- join later views in turn, but each time fewer stored view changes are for a later view.
pub process_event-Ends :
    (env : Env) (fuel : ℕ) (e : Event) (s : Core)
    → is_bounded e s ≡ true
    → AreWords s.view_change_store
    → length (keys s.view_change_store) < fuel
    → Ends (process_event env fuel e) s
process_event-Ends env zero e s bounded words enough = ground arith
process_event-Ends env (suc fuel) e s bounded words enough =
    bounded-Ends env fuel e s bounded words enough
