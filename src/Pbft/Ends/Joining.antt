-- ===== src/Pbft/Ends/Joining.antt =====
-- A view change comes to its end: every view change that a replica sends in answer to others leaves
-- fewer of them to answer.
use spree.Base.{
  ℕ, Bytes, ◌+◌, ◌≤◌, ◌<◌, ◌≡◌, refl, sym, ◌∙◌, subst, true, Option, none, some, List, [], ◌∷◌, leb,
  length, count, leb→le, add64, sub64, u64_mod, arith,
}
use spree.Base.Map.{keys, put, keep_if-All, All-put}
use spree.Pbft.Messages.{ViewChange, Vcidx, vcidx_eq, view_change}
use spree.Pbft.Core.{Core, Env, Effect, view_change_quorum, ◌>>=◌}
use spree.Pbft.Timers.{start_timer}
use spree.Pbft.Persist.{sign, bytes_or_nil}
use spree.Pbft.Ends.{
  Ends, aside-Ends, get-Ends, modify-Ends, if-Ends, pure-Ends, stop_timer-IsAside,
  inner_broadcast-IsAside,
}
use spree.Pbft.Calls.{Calls}
use spree.Pbft.Views.{
  enter_next_view, own_view_change, jump_to_view, report_quorum, count_view_changes,
  recv_view_change, send_view_change, replicas_above, min_view_above,
}
use spree.Pbft.Views.Later.{
  is_later, later, AreWords, AreWords-lt, replicas_above-later, min_view_above-fewer, later-keep_if,
  later-put,
}

signed-view :
    (env : Env) (out : List Effect) (vc : ViewChange) (o : Option Bytes)
    → let signed : ViewChange = elim o [
      | none ↦ record vc { signature = [] }
      | some raw ↦ record vc { signature = bytes_or_nil (env.sign out raw) }
    ] in
      signed.view ≡ vc.view
signed-view env out vc none = refl
signed-view env out vc (some raw) = refl

sign-view : (env : Env) (out : List Effect) (vc : ViewChange) → (sign env out vc).view ≡ vc.view
unfolding sign
sign-view env out vc =
    signed-view env out vc (env.marshal_view_change (record vc { signature = [] }))

-- From states with fewer than `bound` view changes beyond the next view, the method behind the
-- interface ends.
abbrev pub JoinsEnd : Calls → ℕ → Type 0
JoinsEnd calls bound =
    (s : Core)
    → AreWords s.view_change_store
    → later (add64 s.view 1) s.view_change_store < bound
    → Ends calls.send_view_change s

module _ (env : Env) (calls : Calls) (bound : ℕ) (joins : JoinsEnd calls bound) where
  jump-Ends :
      (s : Core)
      → AreWords s.view_change_store
      → 0 < later s.view s.view_change_store
      → later s.view s.view_change_store ≤ bound
      → Ends (jump_to_view env calls (keys s.view_change_store)) s
  unfolding jump_to_view ◌>>=◌
  jump-Ends s words some_later enough =
      let idxs = keys s.view_change_store in
      let (up, found, fewer) = min_view_above-fewer s.view idxs some_later in
      let least = min_view_above s.view idxs 0 in
      let word = AreWords-lt least s.view_change_store found words in
      let next : add64 (sub64 least 1) 1 ≡ least = omega arith in
      let e =
        joins (record s { view = sub64 least 1 }) words
          (subst (λ v. later v s.view_change_store < bound) (sym next) (omega arith)) in
      record { result = e.result; end = e.end; ends = e.ends }

  report_quorum-Ends : (s : Core) → Ends (report_quorum env calls) s
  unfolding report_quorum start_timer ◌>>=◌
  report_quorum-Ends s = record { result = some view_change_quorum; end = _; ends = refl }

  count-Ends :
      (vc : ViewChange) (s : Core)
      → AreWords s.view_change_store
      → later s.view s.view_change_store ≤ bound
      → Ends (count_view_changes env calls vc) s
  unfolding count_view_changes
  count-Ends vc s words enough = get-Ends _ s (
      let idxs = keys s.view_change_store in
      if-Ends _ _ _
        (λ (weak : leb (s.f + 1) (length (replicas_above s.view idxs)) ≡ true).
          jump-Ends s words
            (replicas_above-later s.view idxs
              (omega (arith, leb→le (s.f + 1) (length (replicas_above s.view idxs)) weak)))
            enough)
        (λ few. if-Ends _ _ _ (λ q. report_quorum-Ends s) (λ q. pure-Ends none s)))

  pub recv-Ends :
      (vc : ViewChange) (s : Core)
      → AreWords s.view_change_store
      → vc.view < u64_mod
      → (let idx : Vcidx = record { v = vc.view; id = vc.replica_id } in
          count (is_later s.view) (idx ∷ keys s.view_change_store) ≤ bound)
      → Ends (recv_view_change env calls vc) s
  unfolding recv_view_change
  recv-Ends vc s words word enough = get-Ends _ s (
      let idx : Vcidx = record { v = vc.view; id = vc.replica_id } in
      let more = later-put s.view idx vc s.view_change_store in
      if-Ends _ _ _ (λ _. pure-Ends none s)
        (λ _.
          if-Ends _ _ _ (λ _. pure-Ends none s)
            (λ _.
              if-Ends _ _ _ (λ _. pure-Ends none s)
                (λ _.
                  if-Ends _ _ _ (λ _. pure-Ends none s)
                    (λ _. modify-Ends _ _ s (
                      count-Ends vc
                        (record s { view_change_store = put idx vc s.view_change_store })
                        (All-put (λ (x : Vcidx × ViewChange). x.0.v < u64_mod) idx vc
                          s.view_change_store word words)
                        (omega arith)))))))

  recv_own-Ends :
      (vc : ViewChange) (s : Core)
      → AreWords s.view_change_store
      → vc.view ≡ s.view
      → s.view < u64_mod
      → later s.view s.view_change_store ≤ bound
      → Ends (recv_view_change env calls vc) s
  recv_own-Ends vc s words own word enough = recv-Ends vc s words (omega arith) (ground arith)

  pub send-Ends :
      (s : Core)
      → AreWords s.view_change_store
      → later (add64 s.view 1) s.view_change_store ≤ bound
      → Ends (send_view_change env calls) s
  unfolding send_view_change enter_next_view own_view_change
  send-Ends s words enough =
      let stopped = stop_timer-IsAside in
      let t = stopped.end s in
      let u = enter_next_view t in
      let sent = inner_broadcast-IsAside env (view_change (sign env u.out (own_view_change u))) in
      let v = sent.end u in
      let words_t = subst AreWords (sym (stopped.view_change_store s)) words in
      let words_u : AreWords u.view_change_store =
        keep_if-All (λ (x : Vcidx × ViewChange). x.0.v < u64_mod) _ t.view_change_store words_t in
      let enough_t : later (add64 t.view 1) t.view_change_store ≤ bound =
        subst (λ n. later (add64 n 1) t.view_change_store ≤ bound) (sym (stopped.view s))
          (subst (λ m. later (add64 s.view 1) m ≤ bound) (sym (stopped.view_change_store s))
            enough) in
      let enough_u : later u.view u.view_change_store ≤ bound =
        omega (arith, later-keep_if u.view u.view t.view_change_store) in
      aside-Ends _ s stopped (
        modify-Ends _ _ t (
          get-Ends _ u (
            aside-Ends _ u sent (
              modify-Ends _ _ v (
                recv_own-Ends _ _ (subst AreWords (sym (sent.view_change_store u)) words_u)
                  (sign-view env u.out (own_view_change u) ∙ sym (sent.view u))
                  (subst (λ n. n < u64_mod) (sym (sent.view u)) (omega arith))
                  (subst (λ n. later n v.view_change_store ≤ bound) (sym (sent.view u))
                    (subst (λ m. later u.view m ≤ bound) (sym (sent.view_change_store u))
                      enough_u)))))))
