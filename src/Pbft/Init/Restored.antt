-- ===== src/Pbft/Init/Restored.antt =====
-- What is restored of what was stored.
use spree.Base.{
  ℕ, ◌*◌, ◌/◌, ◌≤◌, ◌<◌, ◌≡◌, ap, ◌∙◌, sym, subst, refl, some, none, List, [], ◌∷◌, Bytes, codes,
  ltb, leb, not, cond, arith, u64_mod, nat_eq, list_eq, beq_refl, beq_sound, nat_beq_iff,
  Option-cases, Bool-cases, inl, inr, ◌==◌, All, if_cases, Option, some_inj,
}
use spree.Base.Map.{Map, keys, lookup, put, lookup-put, lookup-keep_if}
use spree.Base.Scan.{scan_after, scan_after-decimal}
use spree.Base.Text.{base64_encode}
use spree.Pbft.Messages.{MsgId}
use spree.Pbft.Core.{
  Core, Config, Env, Effect, del_state, MsgCert, M, modify, ◌>>◌, Outcome, ok, final, for_each,
  and_then, ◌>>=◌,
}
use spree.Pbft.Quorum.{primary}
use spree.Pbft.Persist.{checkpoint_key, persist_del_checkpoint}
use spree.Pbft.Calls.{Calls}
use spree.Pbft.Watermarks.{
  clean_stores, drop_batch, drop_checkpoint, move_watermarks, resubmit_request_batches,
}
use spree.Pbft.Init.{
  Stored, fresh, put_chkpts, restore_before_chkpts, restore_chkpts, restore_state,
}
use spree.Pbft.Init.Sound.{restore_before_chkpts-Untouched}

-- Whatever key is read as this number has this id, as where `persistCheckpoint` is the only writer.
abbrev pub IsKeptAt : ℕ → Bytes → Bytes × Bytes → Type 0
IsKeptAt n id (key, value) = scan_after (codes "chkpt.") key ≡ some n → value ≡ id

-- The watermark is lowered only, and an entry stays.
put_chkpts-below :
    (saved : Map Bytes Bytes) (m : Map ℕ Bytes) (low : ℕ) → (put_chkpts saved m low).1 ≤ low
unfolding put_chkpts scan_after
put_chkpts-below [] m low = omega arith
put_chkpts-below ((key, id) ∷ rest) m low = elim (Option-cases (scan_after (codes "chkpt.") key)) [
  | inl e ↦ rw e (put_chkpts-below rest m low)
  | inr (n, e) ↦
      let below = put_chkpts-below rest (put n (base64_encode id) m) (cond (ltb n low) n low) in
      rw e (ground arith)
]

put-stays :
    (n j : ℕ) (id value : Bytes) (m : Map ℕ Bytes)
    → lookup n m ≡ some (base64_encode id)
    → (j ≡ n → value ≡ id)
    → lookup n (put j (base64_encode value) m) ≡ some (base64_encode id)
put-stays n j id value m h same = elim (Bool-cases (j == n)) [
  | inl e ↦
      rw (lookup-put j n (base64_encode value) m, e)
        (ap (λ b. some (base64_encode b)) (same ((nat_beq_iff j n).0 e)))
  | inr d ↦ rw (lookup-put j n (base64_encode value) m, d) h
]

put_chkpts-stays :
    (saved : Map Bytes Bytes) (m : Map ℕ Bytes) (low n : ℕ) (id : Bytes)
    → All (IsKeptAt n id) saved
    → lookup n m ≡ some (base64_encode id)
    → lookup n (put_chkpts saved m low).0 ≡ some (base64_encode id)
unfolding put_chkpts scan_after
put_chkpts-stays [] m low n id a h = h
put_chkpts-stays ((key, value) ∷ rest) m low n id a h =
    elim (Option-cases (scan_after (codes "chkpt.") key)) [
      | inl e ↦ rw e (put_chkpts-stays rest m low n id a.1 h)
      | inr (j, e) ↦ rw e (
          put_chkpts-stays rest (put j (base64_encode value) m) (cond (ltb j low) j low) n id a.1
            (put-stays n j id value m h (λ same. a.0 (e ∙ ap some same))))
    ]

put_chkpts-persisted :
    (saved : Map Bytes Bytes) (m : Map ℕ Bytes) (low n : ℕ) (id : Bytes)
    → n < u64_mod
    → All (IsKeptAt n id) saved
    → lookup (checkpoint_key n) saved ≡ some id
    → let r = put_chkpts saved m low in (lookup n r.0 ≡ some (base64_encode id)) × (r.1 ≤ n)
unfolding put_chkpts lookup scan_after
put_chkpts-persisted [] m low n id b a h = cc
put_chkpts-persisted ((key, value) ∷ rest) m low n id b a h =
    elim (Bool-cases (key == checkpoint_key n)) [
      | inl same ↦
          let e : scan_after (codes "chkpt.") key ≡ some n =
            ap (scan_after (codes "chkpt.")) (beq_sound key (checkpoint_key n) same)
            ∙ scan_after-decimal (codes "chkpt.") n b in
          let low2 = cond (ltb n low) n low in
          let below = put_chkpts-below rest (put n (base64_encode value) m) low2 in
          let here : lookup n (put n (base64_encode value) m) ≡ some (base64_encode id) =
            rw (lookup-put n n (base64_encode value) m, beq_refl n)
              (ap (λ v. some (base64_encode v)) (a.0 e)) in
          rw e
            (put_chkpts-stays rest (put n (base64_encode value) m) low2 n id a.1 here, ground arith)
      | inr other ↦ elim (Option-cases (scan_after (codes "chkpt.") key)) [
        | inl e ↦ rw e (put_chkpts-persisted rest m low n id b a.1 (ground arith))
        | inr (j, e) ↦ rw e (
            put_chkpts-persisted rest (put j (base64_encode value) m) (cond (ltb j low) j low) n id
              b a.1 (ground arith))
      ]
    ]

-- Deleting the old checkpoints from the consumer's store changes nothing of the replica.
drop_checkpoints-quiet :
    (h : ℕ) (ns : List ℕ) (s : Core)
    → (out : List Effect) × (for_each ns (drop_checkpoint h) s ≡ ok tt (record s { out = out }))
unfolding for_each drop_checkpoint persist_del_checkpoint ◌>>=◌
drop_checkpoints-quiet h [] s = (s.out, refl)
drop_checkpoints-quiet h (n ∷ ns) s = elim (Bool-cases (ltb n h)) [
  | inl old ↦
      let (out, e) =
        drop_checkpoints-quiet h ns (record s { out = del_state (checkpoint_key n) ∷ s.out }) in
      (out, rw old e)
  | inr young ↦ let (out, e) = drop_checkpoints-quiet h ns s in (out, rw young e)
]

no_certs :
    (h : ℕ) (certs : Map MsgId MsgCert) (s : Core) (rest : M (Unit {0}))
    → certs ≡ []
    → and_then (for_each certs (drop_batch h) s) (λ _. rest) ≡ rest s
unfolding for_each
no_certs h certs s rest e = rw e refl

module _ (calls : Calls) where
  resubmits_nothing :
      (s : Core) → s.outstanding_req_batches ≡ [] → resubmit_request_batches calls s ≡ ok tt s
  unfolding resubmit_request_batches for_each ◌>>=◌
  resubmits_nothing s none_left =
      if_cases (λ (m : Core → Outcome (Unit {0})). m s ≡ ok tt s)
        (not (primary s.config s.view == s.id)) _ _ (λ backup. refl) (λ first. rw none_left refl)

  moved :
      (n : ℕ) (s : Core)
      → s.cert_store ≡ []
      → s.outstanding_req_batches ≡ []
      → (out : List Effect) × (move_watermarks calls n s
          ≡ ok tt (clean_stores (n / s.k * s.k) (record s { out = out })))
  unfolding move_watermarks clean_stores for_each ◌>>=◌
  moved n s certs none_left =
      let h = n / s.k * s.k in
      let (out, e) = drop_checkpoints-quiet h (keys s.chkpts) s in
      (
        out,
        no_certs h s.cert_store s _ certs
            ∙ ap (λ o. and_then o (λ _. modify (clean_stores h) >> resubmit_request_batches calls))
                e
            ∙ resubmits_nothing (clean_stores h (record s { out = out })) none_left,
      )

rounded-below : (n k : ℕ) → n / k * k ≤ n
rounded-below n k = grind arith

fresh-certs : (c : Config) → (fresh c).cert_store ≡ []
unfolding fresh
fresh-certs c = refl

fresh-outstanding : (c : Config) → (fresh c).outstanding_req_batches ≡ []
unfolding fresh
fresh-outstanding c = refl

module _ (env : Env) (stored : Stored) (calls : Calls) where
  -- The loop over the stored checkpoints, and the move to the watermark that it finds.
  restore_chkpts-persisted :
      (o : Option (Map Bytes Bytes)) (saved : Map Bytes Bytes) (s : Core) (n : ℕ) (id : Bytes)
      → o ≡ some saved
      → s.cert_store ≡ []
      → s.outstanding_req_batches ≡ []
      → (lookup n (put_chkpts saved s.chkpts s.last_exec).0 ≡ some (base64_encode id))
        × ((put_chkpts saved s.chkpts s.last_exec).1 ≤ n)
      → let t = final (restore_chkpts env stored calls o s) in
        (lookup n t.chkpts ≡ some (base64_encode id)) × (t.h ≤ n)
  unfolding clean_stores
  restore_chkpts-persisted none saved s n id e certs left (found, below) = cc
  restore_chkpts-persisted (some other) saved s n id e certs left (found, below) =
      let r = put_chkpts other s.chkpts s.last_exec in
      let (found, below) =
        subst
          (λ m.
            (lookup n (put_chkpts m s.chkpts s.last_exec).0 ≡ some (base64_encode id))
            × ((put_chkpts m s.chkpts s.last_exec).1 ≤ n))
          (sym (some_inj e)) (found, below) in
      let u : Core = record s { chkpts = r.0 } in
      let (out, moves) = moved calls r.1 u certs left in
      let low = r.1 / s.k * s.k in
      let fits : low ≤ n = omega (arith, rounded-below r.1 s.k) in
      subst (λ x. (lookup n (final x).chkpts ≡ some (base64_encode id)) × ((final x).h ≤ n))
        (sym moves) (lookup-keep_if (λ (m : ℕ). leb low m) n r.0 ∙ ground arith, fits)

  -- Let the store give back, at a restart, a checkpoint under the key that `persistCheckpoint` writes
  -- for a number of 64 bits, and let no key that is read as this number have another id. Then after
  -- `restoreState` the replica has this checkpoint, with the base64 text of its id, among its own, and
  -- its low watermark is not above it.
  pub restore_state-persisted :
      (c : Config) (saved : Map Bytes Bytes) (n : ℕ) (id : Bytes)
      → stored.read_state_set (codes "chkpt.") ≡ some saved
      → n < u64_mod
      → All (IsKeptAt n id) saved
      → lookup (checkpoint_key n) saved ≡ some id
      → let t = final (restore_state env stored calls (fresh c)) in
        (lookup n t.chkpts ≡ some (base64_encode id)) × (t.h ≤ n)
  unfolding restore_state
  restore_state-persisted c saved n id e b only h =
      let s = restore_before_chkpts env stored (fresh c) in
      let same = restore_before_chkpts-Untouched env stored (fresh c) in
      restore_chkpts-persisted (stored.read_state_set (codes "chkpt.")) saved s n id e
        (same.cert_store ∙ fresh-certs c) (same.outstanding ∙ fresh-outstanding c)
        (put_chkpts-persisted saved s.chkpts s.last_exec n id b only h)
