-- ===== src/Pbft/Steps/Execution.antt =====
-- Execution makes moves only, and starts a batch only while none runs.
use spree.Base.{
  ℕ, ◌≡◌, refl, ◌%◌, Bool, true, false, not, Option, none, some, List, [], ◌∷◌, Bytes, arith, add64,
  is_some, get_or, ◌==◌, nat_eq, nat_beq_iff, list_eq,
}
use spree.Base.Map.{lookup}
use spree.Pbft.Messages.{RequestBatch, MsgId, msg_id_eq}
use spree.Pbft.Core.{
  Core, Env, MsgCert, Outcome, ok, fault, final, and_then, M, execute, emit, skip, if◌then◌else◌,
  ◌>>=◌,
}
use spree.Pbft.Cert.{committed}
use spree.Pbft.Calls.{Calls}
use spree.Pbft.Checkpoints.{take_checkpoint}
use spree.Pbft.Execution.{
  is_executable, exec_done_sync, start_execution, execute_cert, execute_one, try_each,
  execute_outstanding,
}
use spree.Pbft.Steps.{run_batch, start_null, run_null, Reach, here, move}
use spree.Pbft.Steps.Rules.{
  Runs, runs_skip, runs_if, runs_get, runs_bind, runs_pure_bind, runs_assoc, runs_if_bind,
  runs_if_true,
}
use spree.Pbft.Steps.Helpers.{start_timer_if-runs}
use spree.Pbft.Steps.Views.{CallsRun}
use spree.Pbft.Steps.Checkpoints.{take_checkpoint-runs}

abbrev started : ℕ → Core → Core
started n s = record s { current_exec = some n; last_exec = n }

-- A null request: the moves of its checkpoint, and then what follows it.
null-Reach :
    {s : Core} {n : ℕ} (o : Outcome (Unit {0})) (k : M (Unit {0}))
    → s.current_exec ≡ none
    → n ≡ add64 s.last_exec 1
    → Reach (started n s) (final o)
    → ((t : Core) → Runs t k)
    → Reach s (final (and_then o (λ _ t. k (record t { current_exec = none }))))
null-Reach (ok a t) k idle next r h = move (run_null _ idle next r) (h _).reach
null-Reach (fault x t) k idle next r h = move (start_null _ idle next) r

module _ (env : Env) {calls : Calls} (run : CallsRun calls) where
  check-runs :
      {s : Core} (n : ℕ) (due : Bool) (id : Bytes)
      → Runs s (if due then take_checkpoint env calls n id else skip)
  check-runs n due id = runs_if _ _ _ (λ _. take_checkpoint-runs env run n _) (λ _. runs_skip)

  exec_done_sync-Reach :
      {s : Core} {n : ℕ}
      → s.current_exec ≡ none
      → n ≡ add64 s.last_exec 1
      → Reach s (final (exec_done_sync env calls (record s { current_exec = some n })))
  unfolding exec_done_sync ◌>>=◌
  exec_done_sync-Reach {s} {n} idle next =
      let check : M (Unit {0}) =
        if n % s.k == 0 then take_checkpoint env calls n (env.get_state s.out) else skip in
      null-Reach (check (started n s)) calls.execute_outstanding idle next
        (check-runs n (n % s.k == 0) (env.get_state s.out)).reach run.execute_outstanding

  start_execution-Reach :
      {s : Core} (idx : MsgId) (cert : MsgCert) (null : Bool) (b : M (Unit {0}))
      → s.current_exec ≡ none
      → idx.n ≡ add64 s.last_exec 1
      → Reach s (final (b (record s { current_exec = some idx.n })))
      → Reach s (
          final (
            (if null then exec_done_sync env calls else b)
              (record s { current_exec = some idx.n })))
  unfolding ◌>>=◌
  start_execution-Reach idx cert true b idle next r = exec_done_sync-Reach idle next
  start_execution-Reach idx cert false b idle next r = r

  start_execution-runs :
      {s : Core} (idx : MsgId) (cert : MsgCert)
      → s.current_exec ≡ none
      → idx.n ≡ add64 s.last_exec 1
      → committed s cert.digest idx.v idx.n ≡ true
      → Runs s (start_execution env calls idx cert)
  unfolding start_execution ◌>>=◌
  start_execution-runs {s} idx cert idle next c =
      let b : Option RequestBatch = get_or (lookup cert.digest s.req_batch_store) none in
      record {
        reach =
            start_execution-Reach idx cert (cert.digest == []) (emit (execute idx.n b)) idle next
              (move (run_batch idx.v idx.n cert.digest b idle next c) here);
      }

-- What the tests of `executeOne` come to.
is_executable→next :
    (s : Core) (idx : MsgId) (cert : MsgCert)
    → not (is_executable s idx cert) ≡ false
    → idx.n ≡ add64 s.last_exec 1
is_executable→next s idx cert h = ground (arith, nat_beq_iff idx.n (add64 s.last_exec 1))

is_executable→committed :
    (s : Core) (idx : MsgId) (cert : MsgCert)
    → not (is_executable s idx cert) ≡ false
    → committed s cert.digest idx.v idx.n ≡ true
is_executable→committed s idx cert h = ground arith

not_some : {A : Type 0} (o : Option A) → is_some o ≡ false → o ≡ none
not_some none h = refl
not_some (some a) h = cc

module _ (env : Env) {calls : Calls} (run : CallsRun calls) where
  -- One round of the loop: what follows it starts from the same state if nothing was executed.
  execute_cert-runs :
      {s : Core} (idx : MsgId) (cert : Option MsgCert) (rest : M (Unit {0}))
      → s.current_exec ≡ none
      → Runs s rest
      → Runs s (execute_cert env calls idx cert >>= λ done. if done then skip else rest)
  execute_cert-runs idx none rest idle r =
      runs_pure_bind _ _ (runs_if _ _ _ (λ _. runs_skip) (λ _. r))
  execute_cert-runs idx (some cert) rest idle r = runs_assoc _ _ _ (
      runs_get _ (
        runs_if_bind _ _ _ _ (λ _. runs_pure_bind _ _ (runs_if _ _ _ (λ _. runs_skip) (λ _. r)))
          λ pass. runs_assoc _ _ _ (
            runs_bind _ _
              (start_execution-runs env run idx cert idle (is_executable→next _ idx cert pass)
                (is_executable→committed _ idx cert pass))
              λ _ t. runs_pure_bind _ _ (runs_if_true _ _ runs_skip))))

  try_each-runs :
      {s : Core} (idxs : List MsgId) → s.current_exec ≡ none → Runs s (try_each env calls idxs)
  unfolding try_each execute_one
  try_each-runs [] idle = runs_skip
  try_each-runs {s} (idx ∷ rest) idle = runs_assoc _ _ _ (
      runs_get _ (execute_cert-runs idx (lookup idx s.cert_store) _ idle (try_each-runs rest idle)))

  pub execute_outstanding-runs : {s : Core} → Runs s (execute_outstanding env calls)
  unfolding execute_outstanding
  execute_outstanding-runs {s} = runs_get _ (
      runs_if _ _ _ (λ _. runs_skip)
        λ idle. runs_bind _ _ (try_each-runs _ (not_some _ idle)) (λ _ t. start_timer_if-runs))
