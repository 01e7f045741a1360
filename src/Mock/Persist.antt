-- ===== src/Mock/Persist.antt =====
-- `mockPersist`: the store of keys and values. `none` is the nil map, before `initialize`.
pub mod Laws
mod Tests
use spree.Base.{
  Bool, true, false, Option, none, some, List, [], ◌∷◌, Bytes, nat_eq, list_eq, ◌==◌, ◌&&◌, get_or,
}
use spree.Base.Map.{Map, lookup, put, delete, keep_if}

pub record MockPersist : Type 0 where
  pub store : Option (Map Bytes Bytes)

-- `initialize`, and the map that is there afterwards
abbrev pub initialize : MockPersist → Map Bytes Bytes
initialize p = get_or p.store []

-- `ReadState`, with the store after it; `none` is an error
unfoldable pub read_state : Bytes → MockPersist → Option Bytes × MockPersist
read_state key p = (lookup key (initialize p), record { store = some (initialize p) })

-- `len(k) >= len(prefix) && k[0:len(prefix)] == prefix`
abbrev pub has_prefix : Bytes → Bytes → Bool
has_prefix [] k = true
has_prefix (c ∷ cs) [] = false
has_prefix (c ∷ cs) (d ∷ ds) = c == d && has_prefix cs ds

abbrev pub select_prefix : Bytes → Option (Map Bytes Bytes) → Option (Map Bytes Bytes)
select_prefix prefix none = none
select_prefix prefix (some m) = some (keep_if (has_prefix prefix) m)

-- `ReadStateSet`; `none` is an error
unfoldable pub read_state_set : Bytes → MockPersist → Option (Map Bytes Bytes)
read_state_set prefix p = select_prefix prefix p.store

-- `StoreState`, which never fails
unfoldable pub store_state : Bytes → Bytes → MockPersist → MockPersist
store_state key value p = record { store = some (put key value (initialize p)) }

-- `DelState`
unfoldable pub del_state : Bytes → MockPersist → MockPersist
del_state key p = record { store = some (delete key (initialize p)) }
