-- ===== src/Pbft/PqSets/Tests.antt =====
-- A batch that is prepared under one number in two views.
use spree.Base.{◌≡◌, refl, some, [], ◌∷◌, nat_eq, list_eq}
use spree.Base.Map.{Map, lookup, put}
use spree.Pbft.Messages.{MsgId, msg_id_eq, qidx_eq}
use spree.Pbft.Core.{Core, MsgCert}
use spree.Pbft.Quorum.{intersection_quorum}
use spree.Pbft.Cert.{prepared, pre_prepared}
use spree.Pbft.Normal.{msg_id}
use spree.Pbft.PqSets.{calc_pset, extend_pset}
use spree.Pbft.PqSets.Order.{calc_pset_order}
use spree.Pbft.Fixtures.{nearly, prepare_of, pre_prepare_of, cert_with}
use mathlib.Core.List.Permᴰ

abbrev later_cert : MsgCert
later_cert = record (cert_with [] []) {
  pre_prepare = some (record pre_prepare_of { view = 1 });
  prepare = record (prepare_of 2) { view = 1 } ∷ record (prepare_of 3) { view = 1 } ∷ [];
}

abbrev early_cert : MsgCert
early_cert = cert_with (prepare_of 1 ∷ prepare_of 2 ∷ []) []

abbrev twice : Core
twice = record nearly { cert_store = (msg_id 0 1, early_cert) ∷ (msg_id 1 1, later_cert) ∷ [] }

abbrev turned : Map MsgId MsgCert
turned = (msg_id 1 1, later_cert) ∷ (msg_id 0 1, early_cert) ∷ []

later_view_enters :
    lookup 1 (calc_pset twice)
    ≡ some (record { sequence_number = 1; batch_digest = 7 ∷ []; view = 1 })
unfolding lookup calc_pset extend_pset prepared pre_prepared intersection_quorum put
later_view_enters = refl

calc_pset_order_example :
    lookup 1 (calc_pset (record twice { cert_store = turned })) ≡ lookup 1 (calc_pset twice)
calc_pset_order_example =
    calc_pset_order twice turned 1 (Permᴰ.swap refl refl) ((refl, tt), (tt, tt))
