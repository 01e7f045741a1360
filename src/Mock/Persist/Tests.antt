-- ===== src/Mock/Persist/Tests.antt =====
-- A small store, and the theorem applied to it.
use spree.Base.{◌≡◌, refl, some, [], ◌∷◌, codes, list_eq}
use spree.Base.Map.{lookup, put, keep_if}
use spree.Mock.Persist.{MockPersist, read_state, read_state_set, store_state}

abbrev two_keys : MockPersist
two_keys = record { store = some ((codes "chkpt.10", 1 ∷ []) ∷ (codes "pset", 2 ∷ []) ∷ []) }

only_chkpts : read_state_set (codes "chkpt.") two_keys ≡ some ((codes "chkpt.10", 1 ∷ []) ∷ [])
unfolding read_state_set keep_if
only_chkpts = refl

reads_back :
    (read_state (codes "pset") (store_state (codes "pset") (3 ∷ []) two_keys)).0 ≡ some (3 ∷ [])
unfolding read_state store_state lookup put
reads_back = refl
