-- ===== src/Pbft/Select/Tests.antt =====
-- The choices of a new view for three small view changes.
use spree.Base.{
  ◌⊎◌, ◌≤◌, ◌<◌, ◌+◌, list_eq, ℕ, ◌≡◌, refl, true, some, [], ◌∷◌, Bytes, arith, nat_eq, List,
}
use spree.Base.Map.{Map, lookup, put}
use spree.Pbft.Messages.{CEntry, PqEntry, ViewChange, msg_id_eq}
use spree.Pbft.Core.{Config}
use spree.Pbft.Quorum.{intersection_quorum}
use spree.Pbft.Select.{assign_sequence_numbers, select_initial_checkpoint}
use spree.Pbft.Select.Loop.{Chosen, Null}
use spree.Pbft.Select.Assign.{assign_sequence_numbers_sound}
use spree.Pbft.Select.Initial.{
  IsStable, select_initial_checkpoint-IsStable, select_initial_checkpoint_highest,
}
use spree.Pbft.Fixtures.{four}

-- Three view changes for view 1, in each of which the batch under number 1 was prepared in view 0.
abbrev seven_entry : PqEntry
seven_entry = record { sequence_number = 1; batch_digest = 7 ∷ []; view = 0 }

abbrev view_change_of : ℕ → ViewChange
view_change_of id = record {
  view = 1;
  h = 0;
  cset = record { sequence_number = 0; id = [] } ∷ [];
  pset = seven_entry ∷ [];
  qset = seven_entry ∷ [];
  replica_id = id;
  signature = [];
}

abbrev three_view_changes : List ViewChange
three_view_changes = view_change_of 1 ∷ view_change_of 2 ∷ view_change_of 3 ∷ []

abbrev short_log : Config
short_log = record four { k = 1; l = 2 }

-- Number 2 gets the null request, which is pruned.
three_assign : assign_sequence_numbers short_log three_view_changes 0 ≡ some ((1, 7 ∷ []) ∷ [])
unfolding assign_sequence_numbers put intersection_quorum
three_assign = refl

abbrev seven_at_one : Map ℕ Bytes
seven_at_one = (1, 7 ∷ []) ∷ []

seven_is_there : lookup 1 seven_at_one ≡ some (7 ∷ [])
unfolding lookup
seven_is_there = refl

assign_sequence_numbers_sound_example :
    (0 < 1)
    × (1 ≤ 0 + 2)
    × (Chosen short_log three_view_changes 1 (7 ∷ [])
        ⊎ Null short_log three_view_changes 1 (7 ∷ []))
assign_sequence_numbers_sound_example =
    assign_sequence_numbers_sound short_log three_view_changes 0 seven_at_one 1 (7 ∷ [])
      (omega arith) three_assign seven_is_there

one_is_chosen : (select_initial_checkpoint four three_view_changes).chosen ≡ true
unfolding select_initial_checkpoint lookup put intersection_quorum
one_is_chosen = refl

select_initial_checkpoint-IsStable_example :
    IsStable four three_view_changes (select_initial_checkpoint four three_view_changes).checkpoint
select_initial_checkpoint-IsStable_example =
    select_initial_checkpoint-IsStable four three_view_changes one_is_chosen

abbrev genesis : CEntry
genesis = record { sequence_number = 0; id = [] }

genesis-IsStable : IsStable four three_view_changes genesis
unfolding intersection_quorum
genesis-IsStable = record { listed_by = omega arith; reached = omega arith }

select_initial_checkpoint_highest_example :
    ((select_initial_checkpoint four three_view_changes).chosen ≡ true)
    × (0 ≤ (select_initial_checkpoint four three_view_changes).checkpoint.sequence_number)
select_initial_checkpoint_highest_example =
    select_initial_checkpoint_highest four three_view_changes genesis genesis-IsStable
