-- ===== src/Pbft/Ends/Normal.antt =====
-- Normal operation comes to its end while a batch runs: `executeOutstanding` has nothing to do then.
use spree.Base.{ℕ, ◌≡◌, ap, ◌∙◌, true, Option, Bytes, is_some, count-le-length, add64, arith}
use spree.Base.Map.{keys}
use spree.Pbft.Messages.{RequestBatch, PrePrepare, Prepare, Commit}
use spree.Pbft.Core.{Core, Env, ok, M, and_then, ◌>>=◌}
use spree.Pbft.Calls.{Calls}
use spree.Pbft.Views.{send_view_change}
use spree.Pbft.Views.Later.{is_later}
use spree.Pbft.Normal.{
  on_committed, recv_commit, maybe_send_commit, recv_prepare, send_pre_prepare, recv_request_batch,
  follow_pre_prepare, store_pre_prepared, recv_pre_prepare,
}
use spree.Pbft.Ends.Joining.{JoinsEnd, send-Ends}
use spree.Pbft.Ends.Running.{IsEnding, ending_rules}

-- The method behind the interface does nothing while a batch runs.
abbrev pub Waits : Calls → Type 0
Waits calls = (s : Core) → is_some s.current_exec ≡ true → calls.execute_outstanding s ≡ ok tt s

module _ (env : Env) (calls : Calls) (bound : ℕ) (joins : JoinsEnd calls bound)
    (waits : Waits calls) where
  execute-IsEnding :
      {B : Type 0} (f : Unit {0} → M B)
      → IsEnding bound (f tt)
      → IsEnding bound (calls.execute_outstanding >>= f)
  unfolding ◌>>=◌
  execute-IsEnding f k = record {
    ends = λ s r.
        let e = k.ends s r in
        record {
          result = e.result;
          end = e.end;
          ends = ap (λ o. and_then o f) (waits s r.running) ∙ e.ends;
        };
  }

  send_view_change-IsEnding : IsEnding bound (send_view_change env calls)
  send_view_change-IsEnding = record {
    ends = λ s r.
        let counted = count-le-length (is_later (add64 s.view 1)) (keys s.view_change_store) in
        let few = r.few in send-Ends env calls bound joins s r.words (omega arith);
  }

  on_committed-IsEnding : (m : Commit) → IsEnding bound (on_committed env calls m)
  unfolding on_committed
  on_committed-IsEnding m =
      search (ending_rules, execute-IsEnding, send_view_change-IsEnding) depth 12

  pub recv_commit-IsEnding : (m : Commit) → IsEnding bound (recv_commit env calls m)
  unfolding recv_commit
  recv_commit-IsEnding m = search (ending_rules, on_committed-IsEnding) depth 12

  maybe_send_commit-IsEnding :
      (digest : Bytes) (v n : ℕ) → IsEnding bound (maybe_send_commit env calls digest v n)
  unfolding maybe_send_commit
  maybe_send_commit-IsEnding digest v n = search (ending_rules, recv_commit-IsEnding) depth 12

  pub recv_prepare-IsEnding : (p : Prepare) → IsEnding bound (recv_prepare env calls p)
  unfolding recv_prepare
  recv_prepare-IsEnding p = search (ending_rules, maybe_send_commit-IsEnding) depth 12

  send_pre_prepare-IsEnding :
      (batch : Option RequestBatch) (digest : Bytes)
      → IsEnding bound (send_pre_prepare env calls batch digest)
  unfolding send_pre_prepare
  send_pre_prepare-IsEnding batch digest =
      search (ending_rules, maybe_send_commit-IsEnding) depth 14

  pub recv_request_batch-IsEnding :
      (batch : Option RequestBatch) → IsEnding bound (recv_request_batch env calls batch)
  unfolding recv_request_batch
  recv_request_batch-IsEnding batch = search (ending_rules, send_pre_prepare-IsEnding) depth 12

  follow_pre_prepare-IsEnding : (pp : PrePrepare) → IsEnding bound (follow_pre_prepare env calls pp)
  unfolding follow_pre_prepare
  follow_pre_prepare-IsEnding pp = search (ending_rules, recv_prepare-IsEnding) depth 12

  store_pre_prepared-IsEnding : (pp : PrePrepare) → IsEnding bound (store_pre_prepared env calls pp)
  unfolding store_pre_prepared
  store_pre_prepared-IsEnding pp = search (ending_rules, follow_pre_prepare-IsEnding) depth 12

  pub recv_pre_prepare-IsEnding : (pp : PrePrepare) → IsEnding bound (recv_pre_prepare env calls pp)
  unfolding recv_pre_prepare
  recv_pre_prepare-IsEnding pp =
      search (ending_rules, send_view_change-IsEnding, store_pre_prepared-IsEnding) depth 12
