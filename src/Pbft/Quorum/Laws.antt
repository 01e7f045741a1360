-- ===== src/Pbft/Quorum/Laws.antt =====
-- Quorum sizes, watermarks and the view changes that come by number.
use spree.Base.{
  if_cases, ◌*◌, ◌/◌, ◌%◌, add64, mul64, sub64, ℕ, ◌+◌, ◌*◌, ◌≤◌, ◌<◌, ◌≡◌, ◌↔◌, true, u64_mod,
  arith, leb, leb→le, Bool-cases, inl, inr, sub64-small, sub64-wrap,
}
use native.Mathlib.Nat.{add-mul, mod-lt, div-add-mod', mul-le-mul_right}
use spree.Pbft.Core.{Core, Config}
use spree.Pbft.Quorum.{
  intersection_quorum, all_correct_replicas_quorum, in_w, update_view_change_seq_no,
}

-- For `N` replicas of which `f` are faulty with `3f + 1 ≤ N`: two intersection quorums have more
-- than `f` replicas in common, the correct replicas are enough for one, and it has more than `2f`.
pub intersection_quorum_lem :
    (c : Config)
    → 3 * c.f + 1 ≤ c.n
    → (c.n + c.f < intersection_quorum c + intersection_quorum c)
      × (intersection_quorum c ≤ all_correct_replicas_quorum c)
      × (2 * c.f < intersection_quorum c)
unfolding intersection_quorum all_correct_replicas_quorum
intersection_quorum_lem c h = (omega arith, omega arith, omega arith)

-- As long as the high watermark fits in 64 bits, `inW` is the test `h < n ≤ h + L`.
pub in_w_iff :
    (s : Core) (n : ℕ)
    → s.h + s.l < u64_mod
    → n < u64_mod
    → (in_w s n ≡ true) ↔ ((s.h < n) × (n ≤ s.h + s.l))
unfolding in_w
in_w_iff s n fit small = elim (Bool-cases (leb s.h n)) [
  | inl above ↦
      let d = sub64-small n s.h (leb→le s.h n above) small in
      let a = leb→le s.h n above in (λ w. (ground arith, ground arith), λ b. ground arith)
  | inr under ↦
      let d = sub64-wrap n s.h (ground arith) (omega arith) in
      (λ w. ground arith, λ b. ground arith)
]

wrapped_change :
    (seq period k : ℕ)
    → 0 < k
    → 1 ≤ period
    → seq + period * k < u64_mod
    → let n = sub64 (add64 seq (mul64 period k)) (seq % k) in
      (seq < n) × (n ≤ seq + period * k) × (n ≡ (seq / k + period) * k)
wrapped_change seq period k pos on fit =
    let least : 1 * k ≤ period * k = mul-le-mul_right k on in
    let rem : seq % k < k = mod-lt seq pos in
    let parts : seq / k * k + seq % k ≡ seq = div-add-mod' seq k in
    let sum : (seq / k + period) * k ≡ seq / k * k + period * k = add-mul (seq / k) period k in
    let all : seq + period * k ≡ add64 seq (mul64 period k) = omega arith in
    (omega arith, omega arith, omega arith)

-- With automatic view changes on, a positive `K`, and nothing that wraps round, the next one is
-- set to a multiple of `K` that is above `seqNo` and at most a whole period of checkpoints further.
update_view_change_seq_no_lem :
    (s : Core)
    → 0 < s.view_change_period
    → 0 < s.k
    → s.seq_no + s.view_change_period * s.k < u64_mod
    → let n = (update_view_change_seq_no s).view_change_seq_no in
      (s.seq_no < n)
      × (n ≤ s.seq_no + s.view_change_period * s.k)
      × (n ≡ (s.seq_no / s.k + s.view_change_period) * s.k)
unfolding update_view_change_seq_no
update_view_change_seq_no_lem s on pos fit =
    if_cases
      (λ (t : Core).
        (s.seq_no < t.view_change_seq_no)
        × (t.view_change_seq_no ≤ s.seq_no + s.view_change_period * s.k)
        × (t.view_change_seq_no ≡ (s.seq_no / s.k + s.view_change_period) * s.k))
      (leb s.view_change_period 0) _ _ (λ off. absurd (ground arith))
      (λ shown. wrapped_change s.seq_no s.view_change_period s.k pos (omega arith) fit)
