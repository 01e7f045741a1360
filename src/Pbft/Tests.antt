-- ===== src/Pbft/Tests.antt =====
-- Runs of the replica's code on small states, and the theorems applied to them.
use spree.Base.{
  ◌⊎◌, sym, beq_sound, list_eq, length, count, leb, ◌+◌, ◌<◌, ◌↔◌, ℕ, ◌≤◌, ◌≡◌, refl, true, none,
  some, [], ◌∷◌, Bytes, arith, Bool, nat_eq, ◌==◌, List,
}
use spree.Base.Counting.{IsDistinct, count_below}
use spree.Base.Map.{lookup, put, delete}
use spree.Pbft.Messages.{Prepare, Commit, msg_id_eq}
use spree.Pbft.Core.{Core, ◌>>=◌, for_each}
use spree.Pbft.Quorum.{intersection_quorum, primary, in_w, in_wv, all_correct_replicas_quorum}
use spree.Pbft.Quorum.Laws.{intersection_quorum_lem, in_w_iff}
use spree.Pbft.PqSets.{calc_pset, extend_pset}
use spree.Pbft.PqSets.Laws.{HasView, calc_pset_covers, calc_pset_sound}
use spree.Pbft.Checkpoints.{reached_by_weak_quorum}
use spree.Pbft.Checkpoints.Weak.{reached_by_weak_quorum_lem}
use spree.Pbft.Cert.{get_cert, update_cert, pre_prepared, prepared, committed}
use spree.Pbft.Normal.{msg_id, recv_commit, on_committed}
use spree.Pbft.Timers.{stop_timer, start_timer_if_outstanding_requests}
use spree.Pbft.Execution.{execute_outstanding, try_each, execute_one, start_execution}
use spree.Pbft.Replica.{process_event, calls}
use spree.Pbft.Steps.{executions}
use spree.Pbft.Invariants.Execution.{process_all, running_batch_never_ends, one_batch_at_most}
use spree.Pbft.Invariants.Certs.{AreSound, commit_senders, process_all-AreSound}
use spree.Pbft.Invariants.Quorums.{prepared-quorum, committed-quorum, supporters}
use spree.Pbft.Invariants.Stores.{AreKept, process_all-AreKept}
use spree.Pbft.Invariants.Agreement.{AreHonest, prepared-agree}
use spree.Pbft.Quorum.{update_view_change_seq_no}
use spree.Pbft.Core.{MsgCert}
use spree.Pbft.Messages.{Prepare, Commit}
use spree.Pbft.Quorum.{in_wv}
use spree.Pbft.Fixtures.{
  pre_prepare_of, four, idle, mute, prepare_of, commit_of, cert_with, with_cert, nearly, other,
  third_commit, last_commit,
}

nearly-AreSound : AreSound nearly
unfolding primary
nearly-AreSound = (
  record {
    fits = (refl, refl, refl);
    prepares = ((refl, refl, refl), ((refl, refl, refl), tt));
    prepare_once = (refl, (refl, tt));
    commits = ((refl, refl), ((refl, refl), tt));
    commit_once = (refl, (refl, tt));
  },
  tt,
)

other-AreSound : AreSound other
unfolding primary
other-AreSound = (
  record {
    fits = (refl, refl, refl);
    prepares = ((refl, refl, refl), ((refl, refl, refl), tt));
    prepare_once = (refl, (refl, tt));
    commits = tt;
    commit_once = tt;
  },
  tt,
)

nearly-prepared : prepared nearly (7 ∷ []) 0 1 ≡ true
unfolding prepared primary lookup
nearly-prepared = refl

other-prepared : prepared other (7 ∷ []) 0 1 ≡ true
unfolding prepared primary lookup
other-prepared = refl

-- The third commit has the batch handed over.
nearly_runs : executions (process_all mute last_commit nearly).out ≡ (1, none) ∷ []
unfolding process_all process_event recv_commit on_committed stop_timer calls execute_outstanding
    try_each execute_one start_execution start_timer_if_outstanding_requests committed get_cert
    update_cert lookup put in_wv delete ◌>>=◌ for_each
nearly_runs = refl

pub third_commit-AreSound : AreSound third_commit
unfolding primary
third_commit-AreSound = (
  record {
    fits = (refl, refl, refl);
    prepares = ((refl, refl, refl), ((refl, refl, refl), tt));
    prepare_once = (refl, (refl, tt));
    commits = ((refl, refl), ((refl, refl), ((refl, refl), tt)));
    commit_once = (refl, (refl, (refl, tt)));
  },
  tt,
)

-- Replica 3 is the faulty one.
abbrev is_faulty : ℕ → Bool
is_faulty x = x == 3

abbrev says_seven : ℕ → Bytes
says_seven x = 7 ∷ []

pre_prepared-seven :
    (ps : List Prepare) (cs : List Commit) (digest : Bytes)
    → pre_prepared (with_cert (cert_with ps cs)) digest 0 1 ≡ true
    → digest ≡ 7 ∷ []
unfolding pre_prepared lookup
pre_prepared-seven ps cs digest h = sym (beq_sound (7 ∷ []) digest (ground arith))

nearly-AreHonest : AreHonest is_faulty says_seven nearly 0 1
unfolding get_cert lookup primary
nearly-AreHonest = record {
  prepares = ((omega arith, λ g. refl), ((omega arith, λ g. refl), tt));
  pre_prepare = λ digest h g. pre_prepared-seven _ _ digest h;
}

other-AreHonest : AreHonest is_faulty says_seven other 0 1
unfolding get_cert lookup primary
other-AreHonest = record {
  prepares = ((omega arith, λ g. refl), ((omega arith, λ g. refl), tt));
  pre_prepare = λ digest h g. pre_prepared-seven _ _ digest h;
}

abbrev seven : Bytes
seven = 7 ∷ []

prepared-agree_example : seven ≡ seven
unfolding lookup count_below
prepared-agree_example =
    prepared-agree nearly other is_faulty says_seven 0 1 seven seven nearly-AreSound other-AreSound
      (omega arith) refl refl refl refl (omega arith) nearly-AreHonest other-AreHonest refl refl
      nearly-prepared other-prepared

process_all-AreSound_example : AreSound (process_all mute last_commit nearly)
process_all-AreSound_example = process_all-AreSound mute last_commit nearly nearly-AreSound

prepared-quorum_example :
    let ids = supporters four (7 ∷ []) 0 1 (get_cert nearly (msg_id 0 1)) in
    IsDistinct ids × (intersection_quorum four ≤ length ids)
unfolding lookup
prepared-quorum_example = prepared-quorum nearly (7 ∷ []) 0 1 nearly-AreSound refl nearly-prepared

committed-quorum_example :
    let ids = commit_senders (get_cert third_commit (msg_id 0 1)) in
    IsDistinct ids
    × (intersection_quorum four ≤ length ids)
    × (prepared third_commit (7 ∷ []) 0 1 ≡ true)
unfolding committed lookup
committed-quorum_example = committed-quorum third_commit (7 ∷ []) 0 1 third_commit-AreSound refl

abbrev busy : Core
busy = record idle { current_exec = some 3; last_exec = 2 }

running_batch_never_ends_example :
    let t = process_all mute last_commit busy in
    (t.current_exec ≡ some 3) × (t.last_exec ≡ 2) × (executions t.out ≡ [])
running_batch_never_ends_example = running_batch_never_ends mute last_commit busy 3 refl

one_batch_at_most_example : length (executions (process_all mute last_commit nearly).out) ≤ 1
one_batch_at_most_example = one_batch_at_most mute last_commit nearly

intersection_quorum_lem_example :
    (4 + 1 < intersection_quorum four + intersection_quorum four)
    × (intersection_quorum four ≤ all_correct_replicas_quorum four)
    × (2 < intersection_quorum four)
intersection_quorum_lem_example = intersection_quorum_lem four (omega arith)

in_w_iff_example : (in_w idle 40 ≡ true) ↔ ((0 < 40) × (40 ≤ 40))
in_w_iff_example = in_w_iff idle 40 (omega arith) (omega arith)

abbrev nearly_cert : MsgCert
nearly_cert = cert_with (prepare_of 1 ∷ prepare_of 2 ∷ []) (commit_of 1 ∷ commit_of 2 ∷ [])

calc_pset_covers_example : HasView (lookup 1 (calc_pset nearly)) 0
unfolding lookup
calc_pset_covers_example =
    calc_pset_covers nearly (msg_id 0 1) nearly_cert refl refl nearly-prepared

nearly_pset :
    lookup 1 (calc_pset nearly)
    ≡ some (record { sequence_number = 1; batch_digest = 7 ∷ []; view = 0 })
unfolding lookup calc_pset extend_pset prepared primary put
nearly_pset = refl

calc_pset_sound_example :
    (lookup 1 nearly.pset ≡ some (record { sequence_number = 1; batch_digest = 7 ∷ []; view = 0 }))
    ⊎ ((pre_prepare_of.sequence_number ≡ 1) × (prepared nearly (7 ∷ []) 0 1 ≡ true))
calc_pset_sound_example =
    calc_pset_sound nearly 1 (record { sequence_number = 1; batch_digest = 7 ∷ []; view = 0 })
      nearly_pset

abbrev cycling : Core
cycling = record idle { config = record four { view_change_period = 2 }; seq_no = 13 }

cycles_at_thirty : (update_view_change_seq_no cycling).view_change_seq_no ≡ 30
unfolding update_view_change_seq_no
cycles_at_thirty = refl

-- Two replicas have reported checkpoints, at 50 and 60.
abbrev pub behind : Core
behind = record idle { h_chkpts = (2, 60) ∷ (3, 50) ∷ [] }

reached_by_weak_quorum_lem_example :
    (m : ℕ) × (reached_by_weak_quorum behind ≡ some m) × (2 ≤ count (leb m) (60 ∷ 50 ∷ []))
reached_by_weak_quorum_lem_example = reached_by_weak_quorum_lem behind (omega arith)

process_all-AreKept_example : AreKept (process_all mute last_commit nearly)
process_all-AreKept_example =
    process_all-AreKept mute last_commit nearly
      (record { periods = 0; aligned = refl; correct = tt })
