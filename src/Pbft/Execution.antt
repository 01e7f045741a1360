-- ===== src/Pbft/Execution.antt =====
-- Execution: `executeOutstanding`, `executeOne` and `execDoneSync` of pbft/core.go.
use spree.Base.{
  ℕ, ◌%◌, Bool, true, false, not, ◌||◌, Option, none, some, List, [], ◌∷◌, add64, ◌==◌, nat_eq,
  list_eq, is_some, get_or, cond,
}
use spree.Base.Map.{keys, lookup}
use spree.Pbft.Messages.{MsgId, msg_id_eq}
use spree.Pbft.Core.{
  Core, Env, MsgCert, execute, M, modify, emit, get, skip, pure, ◌>>=◌, ◌>>◌, if◌then◌else◌,
}
use spree.Pbft.Cert.{committed}
use spree.Pbft.Timers.{start_timer_if_outstanding_requests}
use spree.Pbft.Calls.{Calls}
use spree.Pbft.Checkpoints.{take_checkpoint}

-- The tests of `executeOne`, in its order.
abbrev pub is_executable : Core → MsgId → MsgCert → Bool
is_executable s idx cert =
    cond (not (idx.n == add64 s.last_exec 1) || not (is_some cert.pre_prepare)) false
      (cond s.skip_in_progress false (committed s cert.digest idx.v idx.n))

module _ (env : Env) (calls : Calls) where
  abbrev pub finish_exec : Option ℕ → M (Unit {0})
  finish_exec none = modify (λ s. record s { skip_in_progress = true })
  finish_exec (some n) = do
    modify (λ s. record s { last_exec = n })
    s ← get
    if n % s.k == 0 then take_checkpoint env calls n (env.get_state s.out) else skip

  -- `execDoneSync`
  unfoldable pub exec_done_sync : M (Unit {0})
  exec_done_sync = do
    s ← get
    finish_exec s.current_exec
    modify (λ s. record s { current_exec = none })
    calls.execute_outstanding

  -- What `executeOne` does once its tests are passed.
  unfoldable pub start_execution : MsgId → MsgCert → M (Unit {0})
  start_execution idx cert = do
    s ← get
    modify (λ s. record s { current_exec = some idx.n })
    if cert.digest == []
        then exec_done_sync
        else emit (execute idx.n (get_or (lookup cert.digest s.req_batch_store) none))

  abbrev pub execute_cert : MsgId → Option MsgCert → M Bool
  execute_cert idx none = pure false
  execute_cert idx (some cert) = do
    s ← get
    if not (is_executable s idx cert) then pure false else do start_execution idx cert; pure true

  -- `executeOne`
  unfoldable pub execute_one : MsgId → M Bool
  execute_one idx = do s ← get; execute_cert idx (lookup idx s.cert_store)

  -- The loop of `executeOutstanding`, which stops at the first execution.
  unfoldable pub try_each : List MsgId → M (Unit {0})
  try_each [] = skip
  try_each (idx ∷ rest) = do done ← execute_one idx; if done then skip else try_each rest

  -- `executeOutstanding`
  unfoldable pub execute_outstanding : M (Unit {0})
  execute_outstanding = do
    s ← get
    if is_some s.current_exec
        then skip
        else do try_each (keys s.cert_store); start_timer_if_outstanding_requests
