-- ===== src/Pbft/Init/Configured.antt =====
-- What `NewPbftCore` makes of its configuration.
use spree.Base.{
  ℕ, ◌+◌, ◌*◌, ◌≤◌, ◌≡◌, refl, subst, Option, none, some, ltb, some_inj, Bool-cases, inl, inr,
  mul64, arith,
}
use spree.Pbft.Core.{Config}
use spree.Pbft.Init.{Settings, with_timeouts, configure}

with_timeouts_lem :
    (id : ℕ) (settings : Settings) (request resend new_view broadcast : Option ℕ) (c : Config)
    → with_timeouts id settings request resend new_view broadcast ≡ some c
    → (c.n ≡ settings.n)
      × (c.f ≡ settings.f)
      × (c.l ≡ mul64 c.log_multiplier c.k)
      × (c.replica_count ≡ c.n)
with_timeouts_lem id settings (some a) (some b) (some d) (some e) c h =
    subst
      (λ (c : Config).
        (c.n ≡ settings.n)
        × (c.f ≡ settings.f)
        × (c.l ≡ mul64 c.log_multiplier c.k)
        × (c.replica_count ≡ c.n))
      (some_inj h) (refl, refl, refl, refl)
with_timeouts_lem id settings none b d e c h = cc
with_timeouts_lem id settings (some a) none d e c h = cc
with_timeouts_lem id settings (some a) (some b) none e c h = cc
with_timeouts_lem id settings (some a) (some b) (some d) none c h = cc

pub configure_lem :
    (id : ℕ) (settings : Settings) (c : Config)
    → configure id settings ≡ some c
    → (3 * c.f + 1 ≤ c.n) × (c.l ≡ mul64 c.log_multiplier c.k) × (c.replica_count ≡ c.n)
unfolding configure
configure_lem id settings c h = elim (Bool-cases (ltb settings.n (settings.f * 3 + 1))) [
  | inl few ↦ absurd (ground arith)
  | inr enough ↦ elim (Bool-cases (ltb settings.log_multiplier 2)) [
    | inl small ↦ absurd (ground arith)
    | inr large ↦
        let (n, f, l, r) =
          with_timeouts_lem id settings settings.request settings.resend_view_change
            settings.view_change settings.broadcast c (ground arith) in
        (ground arith, l, r)
  ]
]
