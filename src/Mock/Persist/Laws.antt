-- ===== src/Mock/Persist/Laws.antt =====
-- What the store gives back.
use spree.Base.{
  ◌≡◌, refl, Option, none, some, [], Bytes, list_eq, ◌==◌, get_or, arith, if◌then◌else◌,
}
use spree.Base.Map.{Map, lookup, lookup-put, lookup-delete, lookup-keep_if}
use spree.Mock.Persist.{
  MockPersist, has_prefix, select_prefix, read_state, read_state_set, store_state, del_state,
}

lookup-select_prefix :
    (prefix j : Bytes) (o : Option (Map Bytes Bytes))
    → lookup j (get_or (select_prefix prefix o) [])
      ≡ (if has_prefix prefix j then lookup j (get_or o []) else none)
unfolding lookup
lookup-select_prefix prefix j none = ground arith
lookup-select_prefix prefix j (some all) = lookup-keep_if (has_prefix prefix) j all

-- A key of the mock store reads back the value last stored under it, and an error once it is deleted;
-- other keys are not affected by either, and reading changes nothing that is read later. The set
-- that `ReadStateSet` gives for a prefix, taken as empty where it is an error, has just the keys with
-- the prefix that can be read, with the values that `ReadState` reads under them.
pub read_state_lem :
    (p : MockPersist) (key value prefix j : Bytes)
    → ((read_state j (store_state key value p)).0
        ≡ (if key == j then some value else (read_state j p).0))
      × ((read_state j (del_state key p)).0 ≡ (if j == key then none else (read_state j p).0))
      × ((read_state j (read_state key p).1).0 ≡ (read_state j p).0)
      × (lookup j (get_or (read_state_set prefix p) [])
          ≡ (if has_prefix prefix j then (read_state j p).0 else none))
unfolding read_state read_state_set store_state del_state
read_state_lem p key value prefix j = (
  lookup-put key j value (get_or p.store []),
  lookup-delete key j (get_or p.store []),
  refl,
  lookup-select_prefix prefix j p.store,
)
