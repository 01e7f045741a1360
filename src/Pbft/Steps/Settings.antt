-- ===== src/Pbft/Steps/Settings.antt =====
-- No move changes what `NewPbftCore` sets.
use spree.Base.{◌≡◌, refl, ◌∙◌}
use spree.Pbft.Core.{Core}
use spree.Pbft.Cert.{update_cert}
use spree.Pbft.Watermarks.{clean_stores}
use spree.Pbft.Views.{enter_next_view}
use spree.Pbft.Steps.{
  Step, quiet, activate, touch, assign, mark_prepare, mark_commit, add_prepare, add_commit,
  own_checkpoint, store_checkpoint, clean, leave_view, jump, store_view_change, run_batch,
  start_null, run_null, Reach, here, move,
}

mutual
  unfolding update_cert clean_stores enter_next_view

  Step-config : {s t : Core} → Step s t → t.config ≡ s.config
  Step-config (quiet e) = e.config
  Step-config (activate e) = e.config
  Step-config (touch idx) = refl
  Step-config (assign v n p q r) = refl
  Step-config (mark_prepare idx) = refl
  Step-config (mark_commit idx) = refl
  Step-config (add_prepare p a b c) = refl
  Step-config (add_commit c a b) = refl
  Step-config (own_checkpoint n id) = refl
  Step-config (store_checkpoint c a) = refl
  Step-config (clean n k e) = refl
  Step-config leave_view = refl
  Step-config (jump v) = refl
  Step-config (store_view_change idx vc a) = refl
  Step-config (run_batch v n d b p q r) = refl
  Step-config (start_null n p q) = refl
  Step-config (run_null n p q r) = Reach-same_config r

  Reach-same_config : {s t : Core} → Reach s t → t.config ≡ s.config
  Reach-same_config here = refl
  Reach-same_config (move st r) = Reach-same_config r ∙ Step-config st

pub Reach-config : {s t : Core} → Reach s t → t.config ≡ s.config
Reach-config r = Reach-same_config r
