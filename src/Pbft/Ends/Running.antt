-- ===== src/Pbft/Ends/Running.antt =====
-- Methods of pbft/core.go that end well while a batch runs: rules for their parts.
use spree.Base.{
  ℕ, ◌≤◌, ◌≡◌, refl, sym, ap, ◌∙◌, subst, Bool, true, Option, none, some, Bytes, is_some, length,
}
use spree.Base.Map.{keys}
use spree.Pbft.Messages.{MsgId, vcidx_eq}
use spree.Pbft.Core.{Core, Env, MsgCert, M, skip, get, modify, and_then, if◌then◌else◌, ◌>>=◌}
use spree.Pbft.Cert.{update_cert}
use spree.Pbft.Timers.{soft_start_timer}
use spree.Pbft.Persist.{
  store_marshalled, persist_request_batch, persist_pset, persist_qset, persist_pq_set,
}
use spree.Pbft.Views.Later.{AreWords}
use spree.Pbft.Ends.{
  Ends, IsAside, skip-IsAside, modify-IsAside, bind-IsAside, get-IsAside, if-IsAside,
  stop_timer-IsAside, inner_broadcast-IsAside, aside-Ends, get-Ends, if-Ends,
}

pub update_cert-IsAside :
    (idx : MsgId) (f : MsgCert → MsgCert) → IsAside (modify (update_cert idx f))
unfolding update_cert
update_cert-IsAside idx f = modify-IsAside _ (λ s. refl) (λ s. refl) (λ s. refl)

pub soft_start_timer-IsAside :
    (timeout : ℕ) (reason : Bytes) → IsAside (soft_start_timer timeout reason)
unfolding soft_start_timer
soft_start_timer-IsAside timeout reason =
    bind-IsAside _ _ (modify-IsAside _ (λ s. refl) (λ s. refl) (λ s. refl))
      (modify-IsAside _ (λ s. refl) (λ s. refl) (λ s. refl))

pub store_marshalled-IsAside :
    (key : Bytes) (raw : Option Bytes) → IsAside (store_marshalled key raw)
store_marshalled-IsAside key none = skip-IsAside
store_marshalled-IsAside key (some raw) = modify-IsAside _ (λ s. refl) (λ s. refl) (λ s. refl)

module _ (env : Env) where
  pub persist_request_batch-IsAside : (digest : Bytes) → IsAside (persist_request_batch env digest)
  unfolding persist_request_batch
  persist_request_batch-IsAside digest = get-IsAside _ (λ s. store_marshalled-IsAside _ _)

  pub persist_qset-IsAside : IsAside (persist_qset env)
  unfolding persist_qset persist_pq_set
  persist_qset-IsAside = get-IsAside _ (λ s. store_marshalled-IsAside _ _)

  pub persist_pset-IsAside : IsAside (persist_pset env)
  unfolding persist_pset persist_pq_set
  persist_pset-IsAside = get-IsAside _ (λ s. store_marshalled-IsAside _ _)

-- A batch runs, the stored view changes are for views that fit in 64 bits, and there are at most
-- `bound` of them.
pub record IsRunning (bound : ℕ) (s : Core) : Type 0 where
  pub running : is_some s.current_exec ≡ true
  pub words : AreWords s.view_change_store
  pub few : length (keys s.view_change_store) ≤ bound

-- The method ends well while a batch runs.
pub record IsEnding (bound : ℕ) {A : Type 0} (m : M A) : Type 0 where
  pub ends : (s : Core) → IsRunning bound s → Ends m s

module _ {bound : ℕ} where
  aside-IsRunning :
      {m : M (Unit {0})} (a : IsAside m) (s : Core) → IsRunning bound s → IsRunning bound (a.end s)
  aside-IsRunning a s r = record {
    running = ap is_some (a.current_exec s) ∙ r.running;
    words = subst AreWords (sym (a.view_change_store s)) r.words;
    few = subst (λ m. length (keys m) ≤ bound) (sym (a.view_change_store s)) r.few;
  }

  pub skip-IsEnding : IsEnding bound skip
  unfolding ◌>>=◌
  skip-IsEnding = record { ends = λ s r. record { result = tt; end = s; ends = refl } }

  pub then-IsEnding :
      {B : Type 0} (m : M (Unit {0})) (f : Unit {0} → M B)
      → IsAside m
      → IsEnding bound (f tt)
      → IsEnding bound (m >>= f)
  then-IsEnding m f a k = record {
    ends = λ s r. aside-Ends f s a (k.ends (a.end s) (aside-IsRunning a s r));
  }

  pub get-IsEnding :
      {B : Type 0} (f : Core → M B)
      → ((s : Core) → IsEnding bound (f s))
      → IsEnding bound (get >>= f)
  get-IsEnding f k = record { ends = λ s r. get-Ends f s ((k s).ends s r) }

  pub if-IsEnding :
      {A : Type 0} (b : Bool) (m n : M A)
      → IsEnding bound m
      → IsEnding bound n
      → IsEnding bound (if b then m else n)
  if-IsEnding b m n p q = record { ends = λ s r. if-Ends b m n (λ _. p.ends s r) (λ _. q.ends s r) }

  -- What follows may have another state, and ends well from every one.
  pub last-IsEnding :
      {A : Type 0} (m : M A) (f : A → M (Unit {0}))
      → IsEnding bound m
      → ((a : A) → IsAside (f a))
      → IsEnding bound (m >>= f)
  unfolding ◌>>=◌
  last-IsEnding m f p k = record {
    ends = λ s r.
        let e = p.ends s r in
        let a = k e.result in
        record {
          result = tt;
          end = a.end e.end;
          ends = ap (λ o. and_then o f) e.ends ∙ a.ends e.end;
        };
  }

pub ruleset ending_rules = (
  skip-IsEnding, then-IsEnding, get-IsEnding, if-IsEnding, last-IsEnding, skip-IsAside,
  modify-IsAside, if-IsAside, update_cert-IsAside, soft_start_timer-IsAside,
  persist_request_batch-IsAside, persist_qset-IsAside, persist_pset-IsAside, stop_timer-IsAside,
  inner_broadcast-IsAside,
)
