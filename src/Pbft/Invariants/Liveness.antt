-- ===== src/Pbft/Invariants/Liveness.antt =====
-- A committed batch that is next in turn is executed.
use spree.Base.{
  ◌≡◌, refl, sym, ap, ◌∙◌, subst, Bool, true, false, Option, none, some, List, [], ◌∷◌, any, get_or,
  is_some, ◌==◌, list_eq, nat_eq, arith, Bool-cases, inl, inr,
}
use spree.Base.Map.{keys, lookup}
use spree.Pbft.Messages.{RequestBatch, MsgId, msg_id_eq}
use spree.Pbft.Core.{
  Core, Env, MsgCert, Outcome, ok, final, M, execute, and_then, skip, if◌then◌else◌, ◌>>=◌,
}
use spree.Pbft.Cert.{get_cert, cert_or_new}
use spree.Pbft.Calls.{Calls}
use spree.Pbft.Timers.{soft_start_timer, start_timer_if_outstanding_requests}
use spree.Pbft.Execution.{
  is_executable, start_execution, execute_cert, execute_one, try_each, execute_outstanding,
}
use spree.Pbft.Steps.{executions}
use spree.Pbft.Steps.Helpers.{start_timer_if-runs}
use spree.Pbft.Invariants.Execution.{Reach-IsStuck}

abbrev pub is_ready_cert : Core → MsgId → Option MsgCert → Bool
is_ready_cert s idx none = false
is_ready_cert s idx (some cert) = is_executable s idx cert

-- The certificate passes the tests of `executeOne`.
abbrev pub is_ready : Core → MsgId → Bool
is_ready s idx = is_ready_cert s idx (lookup idx s.cert_store)

-- The batch that is stored under the digest of this certificate.
abbrev pub batch_of : Core → MsgId → Option RequestBatch
batch_of s idx = get_or (lookup (get_cert s idx).digest s.req_batch_store) none

-- The replica with the batch of this certificate handed to the consumer.
abbrev handed_over : Core → MsgId → Core
handed_over s idx = record s {
  current_exec = some idx.n;
  out = execute idx.n (batch_of s idx) ∷ s.out;
}

if-false : {A : Type 0} (b : Bool) (m n : M A) (s : Core) → b ≡ false → (if b then m else n) s ≡ n s
unfolding ◌>>=◌
if-false true m n s h = cc
if-false false m n s h = refl

if-true : {A : Type 0} (b : Bool) (m n : M A) (s : Core) → b ≡ true → (if b then m else n) s ≡ m s
unfolding ◌>>=◌
if-true true m n s h = refl
if-true false m n s h = cc

-- The timer is set without a handover.
timer_hands_nothing :
    (s : Core) → executions (final (start_timer_if_outstanding_requests s)).out ≡ executions s.out
unfolding start_timer_if_outstanding_requests soft_start_timer ◌>>=◌
timer_hands_nothing s = ground arith

module _ (env : Env) (calls : Calls) (s : Core) where
  not_ready :
      (idx : MsgId) (o : Option MsgCert)
      → is_ready_cert s idx o ≡ false
      → execute_cert env calls idx o s ≡ ok false s
  unfolding ◌>>=◌
  not_ready idx none h = refl
  not_ready idx (some cert) h = rw h refl

  ready :
      (idx : MsgId) (o : Option MsgCert)
      → is_ready_cert s idx o ≡ true
      → ((cert_or_new o).digest == []) ≡ false
      → execute_cert env calls idx o s
        ≡ ok true (record s {
          current_exec = some idx.n;
          out =
              execute idx.n (get_or (lookup (cert_or_new o).digest s.req_batch_store) none) ∷ s.out;
        })
  unfolding start_execution ◌>>=◌
  ready idx none h d = cc
  ready idx (some cert) h d = rw (h, d) refl

  -- The first certificate that is ready is executed, if it is not for a null request.
  tried :
      (idxs : List MsgId)
      → ((idx : MsgId) → is_ready s idx ≡ true → ((get_cert s idx).digest == []) ≡ false)
      → any (is_ready s) idxs ≡ true
      → (idx : MsgId) × (is_ready s idx ≡ true)
        × (try_each env calls idxs s ≡ ok tt (handed_over s idx))
  unfolding try_each execute_one get_cert ◌>>=◌
  tried [] full h = cc
  tried (idx ∷ rest) full h = elim (Bool-cases (is_ready s idx)) [
    | inl r ↦ (
      idx,
      r,
      ap (λ o. and_then o (λ done. if done then skip else try_each env calls rest))
          (ready idx (lookup idx s.cert_store) r (full idx r)),
    )
    | inr n ↦
        let (found, r, e) = tried rest full (ground arith) in
        (
          found,
          r,
          ap (λ o. and_then o (λ done. if done then skip else try_each env calls rest))
                (not_ready idx (lookup idx s.cert_store) n)
              ∙ e,
        )
  ]

  started :
      (idx : MsgId) (o : Outcome (Unit {0}))
      → o ≡ ok tt (handed_over s idx)
      → let t = final (and_then o (λ _. start_timer_if_outstanding_requests)) in
        (t.current_exec ≡ some idx.n)
        × (executions t.out ≡ (idx.n, batch_of s idx) ∷ executions s.out)
  started idx o e =
      let u = handed_over s idx in
      let k = Reach-IsStuck {s = u} {n = idx.n} start_timer_if-runs.reach refl in
      subst
        (λ o.
          let t = final (and_then o (λ _. start_timer_if_outstanding_requests)) in
          (t.current_exec ≡ some idx.n)
          × (executions t.out ≡ (idx.n, batch_of s idx) ∷ executions s.out))
        (sym e) (k.current_exec, k.out)

  idle_tries :
      s.current_exec ≡ none
      → execute_outstanding env calls s
        ≡ and_then
            (try_each env calls (keys s.cert_store) s)
            (λ _. start_timer_if_outstanding_requests)
  unfolding execute_outstanding ◌>>=◌
  idle_tries idle = if-false (is_some s.current_exec) skip _ s (ap is_some idle)

  -- If no batch is running and a certificate passes the tests of `executeOne` (it is next in turn, has
  -- a pre-prepare and is committed, and the replica is not looking for a starting point), then
  -- `executeOutstanding` hands the batch that is stored under the digest of such a certificate to the
  -- consumer, under its number and just that one, and it runs from then on; provided that no certificate that passes the tests is for a null request.
  pub execute_outstanding-executes :
      s.current_exec ≡ none
      → ((idx : MsgId) → is_ready s idx ≡ true → ((get_cert s idx).digest == []) ≡ false)
      → any (is_ready s) (keys s.cert_store) ≡ true
      → let t = final (execute_outstanding env calls s) in
        (idx : MsgId) × (is_ready s idx ≡ true)
        × (t.current_exec ≡ some idx.n)
        × (executions t.out ≡ (idx.n, batch_of s idx) ∷ executions s.out)
  execute_outstanding-executes idle full h =
      let (idx, r, e) = tried (keys s.cert_store) full h in
      let (now, told) = started idx (try_each env calls (keys s.cert_store) s) e in
      (
        idx,
        r,
        subst (λ o. (final o).current_exec ≡ some idx.n) (sym (idle_tries idle)) now,
        subst (λ o. executions (final o).out ≡ (idx.n, batch_of s idx) ∷ executions s.out)
            (sym (idle_tries idle)) told,
      )

  not_tried :
      (idxs : List MsgId) → any (is_ready s) idxs ≡ false → try_each env calls idxs s ≡ ok tt s
  unfolding try_each execute_one ◌>>=◌
  not_tried [] h = refl
  not_tried (idx ∷ rest) h =
      ap (λ o. and_then o (λ done. if done then skip else try_each env calls rest))
        (not_ready idx (lookup idx s.cert_store) (ground arith))
      ∙ not_tried rest (ground arith)

  pub busy_waits : is_some s.current_exec ≡ true → execute_outstanding env calls s ≡ ok tt s
  unfolding execute_outstanding ◌>>=◌
  busy_waits busy = if-true (is_some s.current_exec) skip _ s busy

  -- Without a certificate that is ready, nothing is handed over.
  pub none_handed :
      s.current_exec ≡ none
      → any (is_ready s) (keys s.cert_store) ≡ false
      → executions (final (execute_outstanding env calls s)).out ≡ executions s.out
  none_handed idle h = rw (idle_tries idle, not_tried (keys s.cert_store) h) (timer_hands_nothing s)
