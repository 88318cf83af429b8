-- ===== src/Action/Keeps.antt =====
-- What an action leaves as it was, of what can be read of the database.
use yggdrasil_authentication.Base.{◌≡◌, refl, Bool, true, false, Option, none, some, arith}
use yggdrasil_authentication.Types.{Result, ok, err, Error}
use yggdrasil_authentication.Platform.{Platform}
use yggdrasil_authentication.Action.{
  Action, World, Exit, next, reply, fail, panic, ◌>>=◌, ◌>>◌, or_return, check, write, when,
}

module _ {κ} ⦃P : Platform⦄ {V : Type κ} (view : P.Db → V) where
  abbrev pub Keeps {ℓ} : {A : Type ℓ} → Action A → Type κ
  Keeps m = (w : World P) → view (m w).1.db ≡ view w.db

  pub bind-Keeps {ℓ ℓ'} :
      {A : Type ℓ} {B : Type ℓ'} (m : Action A) (f : A → Action B)
      → Keeps m
      → ((a : A) → Keeps (f a))
      → Keeps (m >>= f)
  bind-Keeps {A = A} m f hm hf w = by_exit (m w).0 (m w).1 refl
    where
      by_exit : (e : Exit A) (w1 : World P) → m w ≡ (e, w1) → view ((m >>= f) w).1.db ≡ view w.db
      by_exit (next a) w1 e = ground (arith, e, hm w, hf a w1)
      by_exit (reply r) w1 e = ground (arith, e, hm w)
      by_exit (fail x) w1 e = ground (arith, e, hm w)
      by_exit panic w1 e = ground (arith, e, hm w)

  pub or_return-Keeps {ℓ} : {A : Type ℓ} (r : Result A) → Keeps (or_return r)
  or_return-Keeps (ok a) w = refl
  or_return-Keeps (err e) w = refl

  pub check-Keeps : (r : Option Error) → Keeps (check r)
  check-Keeps none w = refl
  check-Keeps (some e) w = refl

  pub when-Keeps : (b : Bool) (m : Action (Unit {0})) → Keeps m → Keeps (when b m)
  when-Keeps true m hm = hm
  when-Keeps false m hm = λ w. refl

  -- A write whose error is returned, and what follows it.
  pub write-Keeps {ℓ} :
      {B : Type ℓ} (f : P.Db → Option Error × P.Db) (k : Action B)
      → ((db : P.Db) → view (f db).1 ≡ view db)
      → Keeps k
      → Keeps ((write f >>= check) >> k)
  write-Keeps f k hf hk =
      bind-Keeps (write f >>= check) (λ _. k)
        (bind-Keeps (write f) check (λ w. hf w.db) check-Keeps) λ _. hk
