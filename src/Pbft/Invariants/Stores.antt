-- ===== src/Pbft/Invariants/Stores.antt =====
-- The low watermark and the stored view changes, however the replica came to its state.
use spree.Base.{ℕ, ◌*◌, ◌/◌, ◌≡◌, sym, ap, ◌∙◌, subst, true, List, All}
use spree.Base.Map.{All-put, keep_if-All}
use spree.Pbft.Messages.{ViewChange, Vcidx, vcidx_eq}
use spree.Pbft.Core.{Core, Config, Env}
use spree.Pbft.Cert.{update_cert}
use spree.Pbft.Watermarks.{clean_stores}
use spree.Pbft.Select.{correct_view_change}
use spree.Pbft.Views.{enter_next_view}
use spree.Pbft.Replica.{Event}
use spree.Pbft.Steps.{
  SameLog, Step, quiet, activate, touch, assign, mark_prepare, mark_commit, add_prepare, add_commit,
  own_checkpoint, store_checkpoint, clean, leave_view, jump, store_view_change, run_batch,
  start_null, run_null, Reach, here, move,
}
use spree.Pbft.Invariants.Execution.{process_all, process_all-Reach}

abbrev pub IsCorrect : Config → Vcidx × ViewChange → Type 0
IsCorrect c e = correct_view_change c e.1 ≡ true

-- The low watermark is a multiple of the checkpoint period, and every stored view change passes
-- `correctViewChange`.
pub record AreKept (s : Core) : Type 0 where
  pub periods : ℕ
  pub aligned : s.h ≡ periods * s.k
  pub correct : All (IsCorrect s.config) s.view_change_store

SameLog-AreKept : {s t : Core} → SameLog s t → AreKept s → AreKept t
SameLog-AreKept {s} {t} e a = record {
  periods = a.periods;
  aligned = e.h ∙ a.aligned ∙ ap (λ (c : Config). a.periods * c.k) (sym e.config);
  correct =
      subst (λ c. All (IsCorrect c) t.view_change_store) (sym e.config)
        (subst (All (IsCorrect s.config)) (sym e.view_change_store) a.correct);
}

unchanged :
    {s : Core} (periods : ℕ)
    → s.h ≡ periods * s.k
    → All (IsCorrect s.config) s.view_change_store
    → AreKept s
unchanged periods aligned correct = record {
  periods = periods;
  aligned = aligned;
  correct = correct;
}

mutual
  unfolding update_cert clean_stores enter_next_view

  Step-AreKept : {s t : Core} → Step s t → AreKept s → AreKept t
  Step-AreKept (quiet e) a = SameLog-AreKept e a
  Step-AreKept {s} (activate e) a = SameLog-AreKept e (unchanged a.periods a.aligned a.correct)
  Step-AreKept (touch idx) a = unchanged a.periods a.aligned a.correct
  Step-AreKept (assign v n p q r) a = unchanged a.periods a.aligned a.correct
  Step-AreKept (mark_prepare idx) a = unchanged a.periods a.aligned a.correct
  Step-AreKept (mark_commit idx) a = unchanged a.periods a.aligned a.correct
  Step-AreKept (add_prepare p b c d) a = unchanged a.periods a.aligned a.correct
  Step-AreKept (add_commit m b d) a = unchanged a.periods a.aligned a.correct
  Step-AreKept (own_checkpoint n id) a = unchanged a.periods a.aligned a.correct
  Step-AreKept (store_checkpoint k b) a = unchanged a.periods a.aligned a.correct
  Step-AreKept (jump v) a = unchanged a.periods a.aligned a.correct
  Step-AreKept (run_batch v n d b p q r) a = unchanged a.periods a.aligned a.correct
  Step-AreKept (start_null n p q) a = unchanged a.periods a.aligned a.correct
  Step-AreKept (clean n k e) a = record {
    periods = n / k;
    aligned = ap (λ j. n / k * j) e;
    correct = a.correct;
  }
  Step-AreKept {s} leave_view a = record {
    periods = a.periods;
    aligned = a.aligned;
    correct = keep_if-All (IsCorrect s.config) _ s.view_change_store a.correct;
  }
  Step-AreKept {s} (store_view_change idx vc b) a = record {
    periods = a.periods;
    aligned = a.aligned;
    correct = All-put (IsCorrect s.config) idx vc s.view_change_store b a.correct;
  }
  Step-AreKept (run_null n p q r) a =
      let b = Reach-keeps r (unchanged a.periods a.aligned a.correct) in
      unchanged b.periods b.aligned b.correct

  Reach-keeps : {s t : Core} → Reach s t → AreKept s → AreKept t
  Reach-keeps here a = a
  Reach-keeps (move st r) a = Reach-keeps r (Step-AreKept st a)

pub Reach-AreKept : {s t : Core} → Reach s t → AreKept s → AreKept t
Reach-AreKept r a = Reach-keeps r a

-- Whatever events a replica processes, with whatever fuel, if its low watermark was a multiple of
-- the checkpoint period it is one again, and if the view changes in its store all passed
-- `correctViewChange` they all do.
pub process_all-AreKept :
    (env : Env) (es : List (ℕ × Event)) (s : Core) → AreKept s → AreKept (process_all env es s)
process_all-AreKept env es s a = Reach-AreKept (process_all-Reach env es s) a
