-- ===== src/Pbft/Ends/Tests.antt =====
-- A replica that joins the view changes of two others, which needs one level of calls.
use spree.Base.{ℕ, ◌≡◌, refl, some, [], ◌∷◌, list_eq, nat_eq, arith}
use spree.Base.Map.{lookup, put, keep_if, delete}
use spree.Pbft.Messages.{ViewChange, vcidx_eq}
use spree.Pbft.Core.{fault, out_of_fuel, Core, Env, final, ◌>>=◌}
use spree.Pbft.Replica.{Event, view_change, process_event, calls}
use spree.Pbft.Ends.{Ends}
use spree.Pbft.Ends.Events.{process_event-Ends}
use spree.Pbft.Quorum.{all_correct_replicas_quorum}
use spree.Pbft.Timers.{stop_timer}
use spree.Pbft.PqSets.{calc_pset, extend_pset, calc_qset, extend_qset}
use spree.Pbft.Persist.{verify, sign, inner_broadcast}
use spree.Pbft.Select.{correct_view_change}
use spree.Pbft.Views.{
  recv_view_change, count_view_changes, jump_to_view, send_view_change, own_view_change,
  enter_next_view,
}
use spree.Pbft.Fixtures.{idle, mute}

abbrev signing : Env
signing = record mute { marshal_view_change = λ vc. some [] }

abbrev change_of : ℕ → ℕ → ViewChange
change_of view id = record {
  view = view;
  h = 0;
  cset = [];
  pset = [];
  qset = [];
  replica_id = id;
  signature = [];
}

abbrev asked_once : Core
asked_once = record idle { view_change_store = (record { v = 3; id = 2 }, change_of 3 2) ∷ [] }

abbrev asked_again : Event
asked_again = view_change (change_of 5 3)

-- The replica goes to view 3, the least that is asked for.
joins_at_once : (final (process_event signing 1 asked_again asked_once)).view ≡ 3
unfolding process_event recv_view_change verify correct_view_change lookup count_view_changes put
    jump_to_view calls send_view_change stop_timer inner_broadcast sign own_view_change
    enter_next_view calc_pset extend_pset calc_qset extend_qset keep_if delete
    all_correct_replicas_quorum ◌>>=◌
joins_at_once = refl

-- Without a level of calls it cannot.
asked_again_cut :
    (t : Core) × (process_event signing 0 asked_again asked_once ≡ fault out_of_fuel t)
unfolding process_event recv_view_change verify correct_view_change lookup count_view_changes put
    jump_to_view calls ◌>>=◌
asked_again_cut = (_, refl)

process_event-Ends_example : Ends (process_event signing 2 asked_again) asked_once
process_event-Ends_example =
    process_event-Ends signing 2 asked_again asked_once refl (omega arith, tt) (omega arith)
