-- ===== src/Pbft/Invariants/Handovers.antt =====
-- What stands behind a batch that `executeOutstanding` (pbft/core.go) hands to the consumer.
use spree.Base.{
  ℕ, ◌≡◌, refl, sym, ap, subst, ◌∙◌, ◌≤◌, Bool-cases, Option-cases, inl, inr, true, false, Option,
  none, some, List, [], ◌∷◌, any, length, add64, arith, nat_eq, nat_beq_iff, list_eq, ◌==◌, is_some,
}
use mathlib.Core.List.{head-eq_of_cons-eq}
use spree.Base.Counting.{IsDistinct}
use spree.Base.Map.{keys, lookup}
use spree.Pbft.Messages.{RequestBatch, MsgId, msg_id_eq}
use spree.Pbft.Core.{Core, Env, MsgCert, final}
use spree.Pbft.Quorum.{intersection_quorum}
use spree.Pbft.Cert.{get_cert, committed, prepared, cert_or_new}
use spree.Pbft.Calls.{Calls}
use spree.Pbft.Execution.{execute_outstanding}
use spree.Pbft.Steps.{executions}
use spree.Pbft.Invariants.Certs.{AreSound, commit_senders}
use spree.Pbft.Invariants.Quorums.{committed-quorum}
use spree.Pbft.Invariants.Liveness.{
  is_ready, is_ready_cert, batch_of, busy_waits, none_handed, execute_outstanding-executes,
}

-- This certificate of the replica backs the handover of the batch under the number.
pub record IsBacked (s : Core) (n : ℕ) (b : Option RequestBatch) : Type 0 where
  pub idx : MsgId
  pub number : idx.n ≡ n
  pub next : n ≡ add64 s.last_exec 1
  pub batch : b ≡ batch_of s idx
  pub once : IsDistinct (commit_senders (get_cert s idx))
  pub enough : intersection_quorum s.config ≤ length (commit_senders (get_cert s idx))
  pub is_prepared : prepared s (get_cert s idx).digest idx.v idx.n ≡ true

ready-next :
    (s : Core) (idx : MsgId) (o : Option MsgCert)
    → is_ready_cert s idx o ≡ true
    → idx.n ≡ add64 s.last_exec 1
ready-next s idx none h = cc
ready-next s idx (some cert) h = ground (arith, nat_beq_iff idx.n (add64 s.last_exec 1))

ready-committed :
    (s : Core) (idx : MsgId) (o : Option MsgCert)
    → is_ready_cert s idx o ≡ true
    → committed s (cert_or_new o).digest idx.v idx.n ≡ true
ready-committed s idx none h = cc
ready-committed s idx (some cert) h = ground arith

ready-IsBacked :
    (s : Core) (idx : MsgId)
    → AreSound s
    → is_ready s idx ≡ true
    → IsBacked s idx.n (batch_of s idx)
unfolding get_cert
ready-IsBacked s idx sound r =
    let o = lookup idx s.cert_store in
    let (once, enough, p) =
      committed-quorum s (cert_or_new o).digest idx.v idx.n sound (ready-committed s idx o r) in
    record {
      idx = idx;
      number = refl;
      next = ready-next s idx o r;
      batch = refl;
      once = once;
      enough = enough;
      is_prepared = p;
    }

longer : {A : Type 0} (x : A) (xs : List A) → xs ≡ x ∷ xs → ⊥
longer x xs e = omega (arith, ap length e)

-- If `executeOutstanding` hands a batch to the consumer, then in the state in which it was called no
-- batch was running, the number is the next after `lastExec`, the batch is the one stored under
-- the digest of a certificate for that number, this certificate has commits of an intersection
-- quorum of replicas, each counted once, and the digest is `prepared`; provided that the
-- certificates are sound and none that passes the tests of `executeOne` is for a null request.
pub execute_outstanding-IsBacked :
    (env : Env) (calls : Calls) (s : Core) (n : ℕ) (b : Option RequestBatch)
    → AreSound s
    → ((idx : MsgId) → is_ready s idx ≡ true → ((get_cert s idx).digest == []) ≡ false)
    → executions (final (execute_outstanding env calls s)).out ≡ (n, b) ∷ executions s.out
    → (s.current_exec ≡ none) × IsBacked s n b
execute_outstanding-IsBacked env calls s n b sound full told = elim (Option-cases s.current_exec) [
  | inr (m, busy) ↦
      let same = busy_waits env calls s (ap is_some busy) in
      absurd
        (longer (n, b) (executions s.out) (sym (ap (λ o. executions (final o).out) same) ∙ told))
  | inl idle ↦ elim (Bool-cases (any (is_ready s) (keys s.cert_store))) [
    | inr none_ready ↦
        absurd
          (longer (n, b) (executions s.out) (sym (none_handed env calls s idle none_ready) ∙ told))
    | inl some_ready ↦
        let (idx, r, now, out) = execute_outstanding-executes env calls s idle full some_ready in
        let same : (idx.n, batch_of s idx) ≡ (n, b) = head-eq_of_cons-eq (sym out ∙ told) in
        (
          idle,
          subst (λ (p : ℕ × Option RequestBatch). IsBacked s p.0 p.1) same
              (ready-IsBacked s idx sound r),
        )
  ]
]
