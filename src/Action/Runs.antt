-- ===== src/Action/Runs.antt =====
-- What the run of a block shows of its steps.
use yggdrasil_authentication.Base.{◌≡◌, refl, arith}
use yggdrasil_authentication.Platform.{Platform}
use yggdrasil_authentication.Action.{Action, World, Exit, next, reply, fail, panic, ◌>>=◌}

module _ ⦃P : Platform⦄ where
  -- A block that goes on: its first step went on, and then the rest did.
  pub bind_next {ℓ κ} :
      {A : Type ℓ} {B : Type κ} (m : Action A) (f : A → Action B) (w : World P) {b : B}
      {w' : World P}
      → (m >>= f) w ≡ (next b, w')
      → (a : A) × (w1 : World P) × (m w ≡ (next a, w1)) × (f a w1 ≡ (next b, w'))
  bind_next {A = A} m f w {b = b} {w' = w'} h = by_exit (m w).0 (m w).1 refl
    where
      by_exit :
          (e : Exit A) (w1 : World P)
          → m w ≡ (e, w1)
          → (a : A) × (w1 : World P) × (m w ≡ (next a, w1)) × (f a w1 ≡ (next b, w'))
      by_exit (next a) w1 e = (a, w1, e, ground (arith, e, h))
      by_exit (reply r) w1 e = ground (arith, e, h)
      by_exit (fail x) w1 e = ground (arith, e, h)
      by_exit panic w1 e = ground (arith, e, h)

  -- An action that leaves the database alone, whatever it returns.
  abbrev pub KeepsDb {ℓ} : {A : Type ℓ} → Action A → Type 0
  KeepsDb m = (w : World P) → (m w).1.db ≡ w.db
