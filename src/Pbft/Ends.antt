-- ===== src/Pbft/Ends.antt =====
-- Methods of pbft/core.go that end well: rules for their parts.
pub mod Joining
pub mod Running
pub mod Normal
pub mod Events
mod Tests
use spree.Base.{ℕ, ◌≡◌, refl, ap, ◌∙◌, Bool, true, false, Option, none, some, List, [], ◌∷◌}
use spree.Pbft.Messages.{vcidx_eq, Message}
use spree.Pbft.Core.{
  Core, Env, ok, M, skip, get, modify, pure, and_then, for_each, if◌then◌else◌, ◌>>=◌,
}
use spree.Pbft.Timers.{stop_timer}
use spree.Pbft.Persist.{send_raw, send_marshalled, inner_broadcast}

-- The method ends well.
pub record Ends {A : Type 0} (m : M A) (s : Core) : Type 0 where
  pub result : A
  pub end : Core
  pub ends : m s ≡ ok result end

-- The method ends well, and leaves the view, the stored view changes and the batch that runs.
pub record IsAside (m : M (Unit {0})) : Type 0 where
  pub end : Core → Core
  pub ends : (s : Core) → m s ≡ ok tt (end s)
  pub view : (s : Core) → (end s).view ≡ s.view
  pub view_change_store : (s : Core) → (end s).view_change_store ≡ s.view_change_store
  pub current_exec : (s : Core) → (end s).current_exec ≡ s.current_exec

pub skip-IsAside : IsAside skip
unfolding ◌>>=◌
skip-IsAside = record {
  end = λ s. s;
  ends = λ s. refl;
  view = λ s. refl;
  view_change_store = λ s. refl;
  current_exec = λ s. refl;
}

pub modify-IsAside :
    (g : Core → Core)
    → ((s : Core) → (g s).view ≡ s.view)
    → ((s : Core) → (g s).view_change_store ≡ s.view_change_store)
    → ((s : Core) → (g s).current_exec ≡ s.current_exec)
    → IsAside (modify g)
unfolding ◌>>=◌
modify-IsAside g v w x = record {
  end = g;
  ends = λ s. refl;
  view = v;
  view_change_store = w;
  current_exec = x;
}

pub bind-IsAside :
    (m : M (Unit {0})) (f : Unit {0} → M (Unit {0}))
    → IsAside m
    → IsAside (f tt)
    → IsAside (m >>= f)
unfolding ◌>>=◌
bind-IsAside m f a b = record {
  end = λ s. b.end (a.end s);
  ends = λ s. ap (λ o. and_then o f) (a.ends s) ∙ b.ends (a.end s);
  view = λ s. b.view (a.end s) ∙ a.view s;
  view_change_store = λ s. b.view_change_store (a.end s) ∙ a.view_change_store s;
  current_exec = λ s. b.current_exec (a.end s) ∙ a.current_exec s;
}

pub get-IsAside : (f : Core → M (Unit {0})) → ((s : Core) → IsAside (f s)) → IsAside (get >>= f)
unfolding ◌>>=◌
get-IsAside f k = record {
  end = λ s. (k s).end s;
  ends = λ s. (k s).ends s;
  view = λ s. (k s).view s;
  view_change_store = λ s. (k s).view_change_store s;
  current_exec = λ s. (k s).current_exec s;
}

pub if-IsAside :
    (b : Bool) (m n : M (Unit {0})) → IsAside m → IsAside n → IsAside (if b then m else n)
unfolding ◌>>=◌
if-IsAside true m n a b = a
if-IsAside false m n a b = b

pub for_each-IsAside :
    {A : Type 0} (xs : List A) (body : A → M (Unit {0}))
    → ((x : A) → IsAside (body x))
    → IsAside (for_each xs body)
unfolding for_each
for_each-IsAside [] body k = skip-IsAside
for_each-IsAside (x ∷ xs) body k = bind-IsAside _ _ (k x) (for_each-IsAside xs body k)

pub stop_timer-IsAside : IsAside stop_timer
unfolding stop_timer
stop_timer-IsAside =
    bind-IsAside _ _ (modify-IsAside _ (λ s. refl) (λ s. refl) (λ s. refl))
      (modify-IsAside _ (λ s. refl) (λ s. refl) (λ s. refl))

module _ (env : Env) where
  send_raw-IsAside : (raw : List ℕ) (byzantine : Option ℕ) → IsAside (send_raw env raw byzantine)
  send_raw-IsAside raw none = modify-IsAside _ (λ s. refl) (λ s. refl) (λ s. refl)
  send_raw-IsAside raw (some ignored) = get-IsAside _ (λ s. for_each-IsAside _ _ (λ i.
      get-IsAside _ (λ t.
        if-IsAside _ _ _ (modify-IsAside _ (λ u. refl) (λ u. refl) (λ u. refl)) skip-IsAside)))

  send_marshalled-IsAside : (raw : Option (List ℕ)) → IsAside (send_marshalled env raw)
  send_marshalled-IsAside none = skip-IsAside
  send_marshalled-IsAside (some raw) = get-IsAside _ (λ s. send_raw-IsAside raw _)

  pub inner_broadcast-IsAside : (msg : Message) → IsAside (inner_broadcast env msg)
  unfolding inner_broadcast
  inner_broadcast-IsAside msg = send_marshalled-IsAside (env.marshal_message msg)

pub aside-Ends :
    {B : Type 0} {m : M (Unit {0})} (f : Unit {0} → M B) (s : Core) (a : IsAside m)
    → Ends (f tt) (a.end s)
    → Ends (m >>= f) s
unfolding ◌>>=◌
aside-Ends f s a e = record {
  result = e.result;
  end = e.end;
  ends = ap (λ o. and_then o f) (a.ends s) ∙ e.ends;
}

pub get-Ends : {B : Type 0} (f : Core → M B) (s : Core) → Ends (f s) s → Ends (get >>= f) s
unfolding ◌>>=◌
get-Ends f s e = record { result = e.result; end = e.end; ends = e.ends }

pub modify-Ends :
    {B : Type 0} (g : Core → Core) (f : Unit {0} → M B) (s : Core)
    → Ends (f tt) (g s)
    → Ends (modify g >>= f) s
unfolding ◌>>=◌
modify-Ends g f s e = record { result = e.result; end = e.end; ends = e.ends }

pub if-Ends :
    {A : Type 0} {s : Core} (b : Bool) (m n : M A)
    → (b ≡ true → Ends m s)
    → (b ≡ false → Ends n s)
    → Ends (if b then m else n) s
unfolding ◌>>=◌
if-Ends true m n p q = let e = p refl in record { result = e.result; end = e.end; ends = e.ends }
if-Ends false m n p q = let e = q refl in record { result = e.result; end = e.end; ends = e.ends }

pub pure-Ends : {A : Type 0} (a : A) (s : Core) → Ends (pure a) s
unfolding ◌>>=◌
pure-Ends a s = record { result = a; end = s; ends = refl }
