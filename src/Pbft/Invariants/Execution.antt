-- ===== src/Pbft/Invariants/Execution.antt =====
-- How the replica hands batches to its consumer.
use spree.Base.{
  ℕ, ◌+◌, ◌≤◌, ◌≡◌, refl, ap, ◌∙◌, ◌⊎◌, inl, inr, Option, some, List, [], ◌∷◌, arith, length,
}
use spree.Pbft.Messages.{RequestBatch}
use spree.Pbft.Core.{Core, Env, final}
use spree.Pbft.Cert.{update_cert}
use spree.Pbft.Watermarks.{clean_stores}
use spree.Pbft.Views.{enter_next_view}
use spree.Pbft.Replica.{Event, process_event}
use spree.Pbft.Steps.{
  executions, Step, quiet, activate, touch, assign, mark_prepare, mark_commit, add_prepare,
  add_commit, own_checkpoint, store_checkpoint, clean, leave_view, jump, store_view_change,
  run_batch, start_null, run_null, Reach, here, move,
}
use spree.Pbft.Steps.Rules.{after}
use spree.Pbft.Steps.Replica.{process_event-Reach}

-- The replica is still at the same batch.
pub record IsStuck (s t : Core) : Type 0 where
  pub current_exec : t.current_exec ≡ s.current_exec
  pub last_exec : t.last_exec ≡ s.last_exec
  pub out : executions t.out ≡ executions s.out

Step-IsStuck : {s t : Core} {n : ℕ} → Step s t → s.current_exec ≡ some n → IsStuck s t
unfolding update_cert clean_stores enter_next_view
Step-IsStuck (quiet e) c = record {
  current_exec = e.current_exec;
  last_exec = e.last_exec;
  out = e.out;
}
Step-IsStuck (activate e) c = record {
  current_exec = e.current_exec;
  last_exec = e.last_exec;
  out = e.out;
}
Step-IsStuck (touch idx) c = assumption refl
Step-IsStuck (assign v n p q r) c = assumption refl
Step-IsStuck (mark_prepare idx) c = assumption refl
Step-IsStuck (mark_commit idx) c = assumption refl
Step-IsStuck (add_prepare p a b d) c = assumption refl
Step-IsStuck (add_commit p a b) c = assumption refl
Step-IsStuck (own_checkpoint n id) c = assumption refl
Step-IsStuck (store_checkpoint k a) c = assumption refl
Step-IsStuck (clean n k e) c = assumption refl
Step-IsStuck leave_view c = assumption refl
Step-IsStuck (jump v) c = assumption refl
Step-IsStuck (store_view_change idx vc a) c = assumption refl
Step-IsStuck (run_batch v n d b p q r) c = cc
Step-IsStuck (start_null n p q) c = cc
Step-IsStuck (run_null n p q r) c = cc

pub Reach-IsStuck : {s t : Core} {n : ℕ} → Reach s t → s.current_exec ≡ some n → IsStuck s t
Reach-IsStuck here c = assumption refl
Reach-IsStuck (move st r) c =
    let a = Step-IsStuck st c in
    let b = Reach-IsStuck r (a.current_exec ∙ c) in
    record {
      current_exec = b.current_exec ∙ a.current_exec;
      last_exec = b.last_exec ∙ a.last_exec;
      out = b.out ∙ a.out;
    }

-- No batch is handed over, or one is and runs from then on.
abbrev Once : Core → Core → Type 0
Once s t =
    (executions t.out ≡ executions s.out)
    ⊎ ((n : ℕ) × (b : Option RequestBatch) × (executions t.out ≡ (n, b) ∷ executions s.out)
        × (t.current_exec ≡ some n))

Step-Once : {s t : Core} → Step s t → Once s t
unfolding update_cert clean_stores enter_next_view
Step-Once (quiet e) = inl e.out
Step-Once (activate e) = inl e.out
Step-Once (touch idx) = inl refl
Step-Once (assign v n p q r) = inl refl
Step-Once (mark_prepare idx) = inl refl
Step-Once (mark_commit idx) = inl refl
Step-Once (add_prepare p a b d) = inl refl
Step-Once (add_commit p a b) = inl refl
Step-Once (own_checkpoint n id) = inl refl
Step-Once (store_checkpoint k a) = inl refl
Step-Once (clean n k e) = inl refl
Step-Once leave_view = inl refl
Step-Once (jump v) = inl refl
Step-Once (store_view_change idx vc a) = inl refl
Step-Once (run_batch v n d b p q r) = inr (n, b, refl, refl)
Step-Once (start_null n p q) = inl refl
Step-Once (run_null n p q r) = inl (Reach-IsStuck {n = n} r refl).out

Reach-Once : {s t : Core} → Reach s t → Once s t
Reach-Once here = inl refl
Reach-Once (move st r) = elim (Step-Once st) [
  | inl e ↦ elim (Reach-Once r) [
    | inl d ↦ inl (d ∙ e)
    | inr (n, b, d, c) ↦ inr (n, b, d ∙ ap (λ es. (n, b) ∷ es) e, c)
  ]
  | inr (n, b, e, c) ↦ let k = Reach-IsStuck r c in inr (n, b, k.out ∙ e, k.current_exec ∙ c)
]

-- The states of a replica that processes events one after another, each with its fuel.
unfoldable pub process_all : Env → List (ℕ × Event) → Core → Core
process_all env [] s = s
process_all env ((fuel, e) ∷ rest) s = process_all env rest (final (process_event env fuel e s))

pub process_all-Reach :
    (env : Env) (es : List (ℕ × Event)) (s : Core) → Reach s (process_all env es s)
unfolding process_all
process_all-Reach env [] s = here
process_all-Reach env ((fuel, e) ∷ rest) s =
    after (process_event-Reach env fuel e s)
      (process_all-Reach env rest (final (process_event env fuel e s)))

-- Once a batch runs, no sequence of events ends it: `currentExec` and `lastExec` stay as they are,
-- and no further batch is handed to the consumer.
pub running_batch_never_ends :
    (env : Env) (es : List (ℕ × Event)) (s : Core) (n : ℕ)
    → s.current_exec ≡ some n
    → let t = process_all env es s in
      (t.current_exec ≡ some n)
      × (t.last_exec ≡ s.last_exec)
      × (executions t.out ≡ executions s.out)
running_batch_never_ends env es s n c =
    let k = Reach-IsStuck (process_all-Reach env es s) c in (k.current_exec ∙ c, k.last_exec, k.out)

-- So from any state and for any events, at most one more batch is handed to the consumer.
pub one_batch_at_most :
    (env : Env) (es : List (ℕ × Event)) (s : Core)
    → length (executions (process_all env es s).out) ≤ length (executions s.out) + 1
one_batch_at_most env es s = elim (Reach-Once (process_all-Reach env es s)) [
  | inl e ↦ omega (arith, ap length e)
  | inr (n, b, e, c) ↦ omega (arith, ap length e)
]
