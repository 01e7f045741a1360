-- ===== src/Pbft/Init/Sound.antt =====
-- A new replica has what every run keeps.
use spree.Base.{
  ℕ, ◌+◌, ◌*◌, ◌≤◌, ◌≡◌, refl, sym, ap, ◌∙◌, subst, Option, none, some, List, [], ◌∷◌, Bytes, leb,
  some_inj, mul64, if_cases, All, arith, codes,
}
use spree.Base.Map.{Map}
use spree.Pbft.Messages.{PqEntry}
use spree.Pbft.Core.{Core, Config, Env, Outcome, ok, fault, final, and_then, modify, ◌>>=◌}
use spree.Pbft.Quorum.{update_view_change_seq_no}
use spree.Pbft.Calls.{Calls}
use spree.Pbft.Replica.{Event, calls}
use spree.Pbft.Steps.{Reach}
use spree.Pbft.Steps.Settings.{Reach-config}
use spree.Pbft.Steps.Views.{CallsRun}
use spree.Pbft.Steps.NewView.{move_watermarks-runs}
use spree.Pbft.Steps.Replica.{calls-run}
use spree.Pbft.Invariants.Execution.{process_all, process_all-Reach}
use spree.Pbft.Invariants.Certs.{AreSound, IsSound, Reach-AreSound}
use spree.Pbft.Invariants.Stores.{AreKept, IsCorrect, Reach-AreKept}
use spree.Pbft.Init.{
  Settings, Stored, infinity, configure, fresh, update_seq_view, restore_sets, restore_batches,
  restore_chkpts, restore_before_chkpts, put_chkpts, put_pset, put_qset, restore_pq_set,
  restore_state, new_pbft_core,
}
use spree.Pbft.Init.Configured.{configure_lem}

-- The two states have the same constants, certificates, view changes, outstanding batches and low
-- watermark.
pub record Untouched (s t : Core) : Type 0 where
  pub config : t.config ≡ s.config
  pub h : t.h ≡ s.h
  pub cert_store : t.cert_store ≡ s.cert_store
  pub view_change_store : t.view_change_store ≡ s.view_change_store
  pub outstanding : t.outstanding_req_batches ≡ s.outstanding_req_batches

Untouched-after : {s t u : Core} → Untouched s t → Untouched t u → Untouched s u
Untouched-after a b = record {
  config = b.config ∙ a.config;
  h = b.h ∙ a.h;
  cert_store = b.cert_store ∙ a.cert_store;
  view_change_store = b.view_change_store ∙ a.view_change_store;
  outstanding = b.outstanding ∙ a.outstanding;
}

update_seq_view-Untouched : (es : List PqEntry) (s : Core) → Untouched s (update_seq_view es s)
unfolding update_seq_view
update_seq_view-Untouched [] s = assumption refl
update_seq_view-Untouched (e ∷ es) s =
    Untouched-after (assumption refl) (update_seq_view-Untouched es _)

restore_sets-Untouched : (stored : Stored) (s : Core) → Untouched s (restore_sets stored s)
unfolding restore_sets
restore_sets-Untouched stored s =
    let pset = restore_pq_set stored (codes "pset") in
    let qset = restore_pq_set stored (codes "qset") in
    let s1 : Core = record s { pset = put_pset pset s.pset } in
    let s2 = update_seq_view pset s1 in
    let s3 : Core = record s2 { qset = put_qset qset s2.qset } in
    let one : Untouched s s1 = assumption refl in
    let two : Untouched s1 s2 = update_seq_view-Untouched pset s1 in
    let three : Untouched s2 s3 = assumption refl in
    let four : Untouched s3 (update_seq_view qset s3) = update_seq_view-Untouched qset s3 in
    Untouched-after (Untouched-after (Untouched-after one two) three) four

pub restore_before_chkpts-Untouched :
    (env : Env) (stored : Stored) (s : Core) → Untouched s (restore_before_chkpts env stored s)
unfolding restore_before_chkpts restore_batches
restore_before_chkpts-Untouched env stored s =
    let t = restore_sets stored s in
    let one = restore_sets-Untouched stored s in
    record {
      config = one.config;
      h = one.h;
      cert_store = one.cert_store;
      view_change_store = one.view_change_store;
      outstanding = one.outstanding;
    }

finish-Untouched :
    (s : Core)
    → Untouched s (update_view_change_seq_no (record s { view_change_seq_no = infinity }))
unfolding update_view_change_seq_no
finish-Untouched s =
    if_cases (Untouched s) (leb s.view_change_period 0) _ _ (λ y. assumption refl)
      (λ n. assumption refl)

-- What a new replica has, and what runs keep.
pub record IsProper (c : Config) (s : Core) : Type 0 where
  pub config : s.config ≡ c
  pub sound : AreSound s
  pub kept : AreKept s

pub Reach-IsProper : {c : Config} {s t : Core} → Reach s t → IsProper c s → IsProper c t
Reach-IsProper r p = record {
  config = Reach-config r ∙ p.config;
  sound = Reach-AreSound r p.sound;
  kept = Reach-AreKept r p.kept;
}

fresh-IsProper : (c : Config) → IsProper c (fresh c)
unfolding fresh
fresh-IsProper c = record {
  config = refl;
  sound = tt;
  kept = record { periods = 0; aligned = omega arith; correct = tt };
}

Untouched-IsProper : {c : Config} {s t : Core} → Untouched s t → IsProper c s → IsProper c t
Untouched-IsProper {c} {s} {t} u p = record {
  config = u.config ∙ p.config;
  sound =
      subst (λ d. All (IsSound d) t.cert_store) (sym u.config)
        (subst (All (IsSound s.config)) (sym u.cert_store) p.sound);
  kept = record {
    periods = p.kept.periods;
    aligned = u.h ∙ p.kept.aligned ∙ ap (λ (d : Config). p.kept.periods * d.k) (sym u.config);
    correct =
        subst (λ d. All (IsCorrect d) t.view_change_store) (sym u.config)
          (subst (All (IsCorrect s.config)) (sym u.view_change_store) p.kept.correct);
  };
}

module _ (env : Env) (stored : Stored) {c : Config} where
  restore_chkpts-IsProper :
      {calls : Calls} (run : CallsRun calls) (saved : Option (Map Bytes Bytes)) (s : Core)
      → IsProper c s
      → IsProper c (final (restore_chkpts env stored calls saved s))
  unfolding ◌>>=◌
  restore_chkpts-IsProper run none s p = p
  restore_chkpts-IsProper run (some saved) s p =
      let r = put_chkpts saved s.chkpts s.last_exec in
      let s1 : Core = record s { chkpts = r.0 } in
      let u : Untouched s s1 = assumption refl in
      Reach-IsProper (move_watermarks-runs run r.1).reach (Untouched-IsProper u p)

  restore_state-IsProper :
      {calls : Calls} (run : CallsRun calls) (s : Core)
      → IsProper c s
      → IsProper c (final (restore_state env stored calls s))
  unfolding restore_state
  restore_state-IsProper run s p =
      let u = restore_before_chkpts-Untouched env stored s in
      restore_chkpts-IsProper run (stored.read_state_set (codes "chkpt."))
        (restore_before_chkpts env stored s) (Untouched-IsProper u p)

  -- Setting the number of the next view change touches nothing else.
  finish-IsProper :
      (o : Outcome (Unit {0}))
      → IsProper c (final o)
      → IsProper c (
          final (
            and_then o (λ _.
              modify
                (λ s. update_view_change_seq_no (record s { view_change_seq_no = infinity })))))
  unfolding ◌>>=◌
  finish-IsProper (ok a s) p = Untouched-IsProper (finish-Untouched s) p
  finish-IsProper (fault x s) p = p

pub built :
    (f : Config → Outcome (Unit {0})) (m : Option Config) (c : Config) (o : Outcome (Unit {0}))
    → m ≡ some c
    → (elim m [ none ↦ none | some d ↦ some (f d) ]) ≡ some o
    → f c ≡ o
built f none c o e h = cc
built f (some d) c o e h = ap f (sym (some_inj e)) ∙ some_inj h

made-IsProper :
    (env : Env) (stored : Stored) (fuel id : ℕ) (settings : Settings) (c : Config)
    (o : Outcome (Unit {0}))
    → configure id settings ≡ some c
    → new_pbft_core env stored (calls env fuel) id settings ≡ some o
    → IsProper c (final o)
unfolding new_pbft_core ◌>>=◌
made-IsProper env stored fuel id settings c o con new =
    let made =
      restore_state-IsProper env stored (calls-run env fuel) (fresh c) (fresh-IsProper c) in
    let started =
      finish-IsProper env stored (restore_state env stored (calls env fuel) (fresh c)) made in
    subst (λ r. IsProper c (final r)) (built _ (configure id settings) c o con new) started

-- Whatever is stored, and with whatever fuel for the calls below it: where the constructor does not
-- panic, there are at least `3f + 1` replicas, `L` is the log multiplier times `K` in 64 bits, and
-- after any events that it then processes the replica has its configuration unchanged, only sound
-- certificates, a low watermark that is a multiple of `K`, and only correct view changes.
pub new_pbft_core-IsProper :
    (env : Env) (stored : Stored) (fuel id : ℕ) (settings : Settings) (c : Config)
    (o : Outcome (Unit {0})) (es : List (ℕ × Event))
    → configure id settings ≡ some c
    → new_pbft_core env stored (calls env fuel) id settings ≡ some o
    → (3 * c.f + 1 ≤ c.n)
      × (c.l ≡ mul64 c.log_multiplier c.k)
      × (c.replica_count ≡ c.n)
      × IsProper c (process_all env es (final o))
new_pbft_core-IsProper env stored fuel id settings c o es con new =
    let (n, l, r) = configure_lem id settings c con in
    (
      n,
      l,
      r,
      Reach-IsProper (process_all-Reach env es (final o))
          (made-IsProper env stored fuel id settings c o con new),
    )
