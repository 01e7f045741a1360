-- ===== src/Pbft/Views/Tests.antt =====
-- The view that a replica joins, in two orders of the stored view changes.
use spree.Base.{◌≡◌, refl, List, [], ◌∷◌, length, count}
use spree.Pbft.Messages.{Vcidx}
use spree.Pbft.Views.{min_view_above, replicas_above, is_for_view}
use spree.Pbft.Views.Order.{range_order_lem}
use mathlib.Core.List.Perm

abbrev two_views : List Vcidx
two_views = record { v = 5; id = 2 } ∷ record { v = 3; id = 3 } ∷ []

joins_at_three : min_view_above 0 two_views 0 ≡ 3
joins_at_three = refl

-- Views up to the current one do not count.
joins_at_five : min_view_above 3 two_views 0 ≡ 5
joins_at_five = refl

abbrev other_order : List Vcidx
other_order = record { v = 3; id = 3 } ∷ record { v = 5; id = 2 } ∷ []

range_order_lem_example :
    (length (replicas_above 0 two_views) ≡ length (replicas_above 0 other_order))
    × (min_view_above 0 two_views 0 ≡ min_view_above 0 other_order 0)
    × (count (is_for_view 0) two_views ≡ count (is_for_view 0) other_order)
range_order_lem_example =
    range_order_lem 0 two_views other_order
      (Perm.swap (record { v = 3; id = 3 }) (record { v = 5; id = 2 }) [])
