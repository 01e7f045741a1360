-- ===== src/Pbft/Running/Tests.antt =====
-- A queue with a commit between two events of timers.
use spree.Base.{ℕ, ◌≡◌, List, [], ◌∷◌}
use spree.Pbft.Core.{view_change_timer, null_request, ok, for_each}
use spree.Pbft.Replica.{Event, commit, internal, send}
use spree.Tools.Manager.{ManagerInput, queued, exit, event_loop}
use spree.Pbft.Running.{create_running_pbft_with_manager, running_pbft_lem}
use spree.Pbft.Fixtures.{mute, nearly, commit_of}

abbrev queue : List (ManagerInput (ℕ × Event))
queue =
    queued (5, internal view_change_timer)
    ∷ queued (5, commit (commit_of 3))
    ∷ queued (5, internal null_request)
    ∷ exit
    ∷ queued (5, commit (commit_of 3))
    ∷ []

running_pbft_lem_example :
    event_loop (create_running_pbft_with_manager mute) queue (ok tt nearly)
    ≡ for_each ((5, commit (commit_of 3)) ∷ []) (send mute) nearly
running_pbft_lem_example = running_pbft_lem mute queue nearly
