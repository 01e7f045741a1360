-- ===== src/Pbft/Hashes.antt =====
-- The stored batches (`reqBatchStore`, pbft/core.go) under their hashes: rules for the methods.
pub mod Helpers
pub mod Views
pub mod Normal
pub mod NewView
pub mod Execution
pub mod Events
pub mod Restored
mod Tests
use spree.Base.{
  ℕ, ◌≡◌, refl, sym, subst, Bool, true, false, Option, none, some, List, [], ◌∷◌, Bytes, All,
}
use spree.Base.Map.{Map, keep_if-All, delete}
use spree.Pbft.Messages.{RequestBatch, Message, MsgId}
use spree.Pbft.Core.{
  Core, Env, Effect, MsgCert, Outcome, Fault, ok, fault, final, M, get, modify, emit, pure, skip,
  raise, and_then, for_each, if◌then◌else◌, ◌>>=◌, ◌>>◌,
}
use spree.Pbft.Persist.{hash}
use spree.Pbft.Calls.{Calls}

module _ (env : Env) where
  -- The key is the hash of the batch.
  abbrev pub IsHashed : Bytes × Option RequestBatch → Type 0
  IsHashed e = hash env e.1 ≡ e.0

  -- Every stored batch is under its hash.
  pub record AreHashed (s : Core) : Type 0 where
    pub hashed : All IsHashed s.req_batch_store

  -- The method leaves every stored batch under its hash, up to its end or its fault.
  pub record KeepsHashes {A : Type 0} (m : M A) : Type 0 where
    pub keeps : (s : Core) → AreHashed s → AreHashed (final (m s))

  -- The methods behind the interface do too.
  pub record CallsKeep (c : Calls) : Type 0 where
    pub execute_outstanding : KeepsHashes c.execute_outstanding
    pub recv_request_batch :
        (batch : Option RequestBatch) → KeepsHashes (c.recv_request_batch batch)
    pub send_view_change : KeepsHashes c.send_view_change

module _ {env : Env} where
  pub pure-KeepsHashes : {A : Type 0} (a : A) → KeepsHashes env (pure a)
  unfolding ◌>>=◌
  pure-KeepsHashes a = record { keeps = λ s h. h }

  pub skip-KeepsHashes : KeepsHashes env skip
  unfolding ◌>>=◌
  skip-KeepsHashes = record { keeps = λ s h. h }

  pub raise-KeepsHashes : {A : Type 0} (x : Fault) → KeepsHashes env (raise {A = A} x)
  unfolding ◌>>=◌
  raise-KeepsHashes x = record { keeps = λ s h. h }

  pub get-KeepsHashes :
      {B : Type 0} (f : Core → M B)
      → ((s : Core) → KeepsHashes env (f s))
      → KeepsHashes env (get >>= f)
  unfolding ◌>>=◌
  get-KeepsHashes f k = record { keeps = λ s h. (k s).keeps s h }

  pub modify-KeepsHashes :
      (g : Core → Core)
      → ((s : Core) → (g s).req_batch_store ≡ s.req_batch_store)
      → KeepsHashes env (modify g)
  unfolding ◌>>=◌
  modify-KeepsHashes g e = record {
    keeps = λ s h. record { hashed = subst (All (IsHashed env)) (sym (e s)) h.hashed };
  }

  and_then-AreHashed :
      {A B : Type 0} (o : Outcome A) (f : A → M B)
      → AreHashed env (final o)
      → ((a : A) → KeepsHashes env (f a))
      → AreHashed env (final (and_then o f))
  and_then-AreHashed (ok a s) f h k = (k a).keeps s h
  and_then-AreHashed (fault x s) f h k = h

  pub bind-KeepsHashes :
      {A B : Type 0} (m : M A) (f : A → M B)
      → KeepsHashes env m
      → ((a : A) → KeepsHashes env (f a))
      → KeepsHashes env (m >>= f)
  unfolding ◌>>=◌
  bind-KeepsHashes m f p k = record { keeps = λ s h. and_then-AreHashed (m s) f (p.keeps s h) k }

  pub if-KeepsHashes :
      {A : Type 0} (b : Bool) (m n : M A)
      → KeepsHashes env m
      → KeepsHashes env n
      → KeepsHashes env (if b then m else n)
  unfolding ◌>>=◌
  if-KeepsHashes true m n p q = p
  if-KeepsHashes false m n p q = q

  pub for_each-KeepsHashes :
      {A : Type 0} (xs : List A) (body : A → M (Unit {0}))
      → ((a : A) → KeepsHashes env (body a))
      → KeepsHashes env (for_each xs body)
  unfolding for_each
  for_each-KeepsHashes [] body k = skip-KeepsHashes
  for_each-KeepsHashes (x ∷ xs) body k =
      bind-KeepsHashes _ _ (k x) (λ _. for_each-KeepsHashes xs body k)

pub ruleset hash_rules = (
  pure-KeepsHashes, skip-KeepsHashes, raise-KeepsHashes, get-KeepsHashes, modify-KeepsHashes,
  if-KeepsHashes, for_each-KeepsHashes, bind-KeepsHashes,
)
