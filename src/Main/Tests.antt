-- ===== src/Main/Tests.antt =====
-- The loop of node 2, to which the server hands a commit in the pause of round 3.
use spree.Base.{ℕ, ◌≡◌, none, List, [], ◌∷◌, cond, arith, nat_eq, ◌==◌}
use spree.Pbft.Core.{for_each}
use spree.Pbft.Replica.{Event, commit, send}
use spree.Main.{main_loop}
use spree.Main.Rounds.{main_loop_lem}
use spree.Pbft.Fixtures.{mute, nearly, commit_of}

abbrev in_round_three : ℕ → List (ℕ × Event)
in_round_three i = cond (i == 3) ((5, commit (commit_of 3)) ∷ []) []

main_loop_lem_example :
    main_loop mute (λ tx. none) 5 in_round_three 20 2 0 nearly
    ≡ for_each ((5, commit (commit_of 3)) ∷ []) (send mute) nearly
main_loop_lem_example = main_loop_lem mute (λ tx. none) 5 in_round_three 2 20 nearly (omega arith)
