-- ===== src/Startup/Invited.antt =====
-- About the end of `setup` of main.go: the invite whose URL is printed.
use yggdrasil_authentication.Base.{◌≡◌, refl, ℕ, ◌+◌, Option, none, some, Text, arith}
use yggdrasil_authentication.Types.{
  Result, ok, err, Error, record_not_found, http_error, errors_new, Invite,
}
use yggdrasil_authentication.Platform.{Platform}
use yggdrasil_authentication.Platform.Transactions.{FirstInviteLaws}
use yggdrasil_authentication.Action.{
  App, World, Exit, next, reply, fail, panic, ◌>>=◌, check, write,
}
use yggdrasil_authentication.Action.Runs.{bind_next}
use yggdrasil_authentication.Random.{random_base62}
use yggdrasil_authentication.Model.Names.{invite_url}
use yggdrasil_authentication.Users.{create_invite}
use yggdrasil_authentication.Startup.{initial_invite, initial_invite_url, post_setup}

module _ ⦃P : Platform⦄ (app : App P) (laws : FirstInviteLaws P) where
  create_invite_lem :
      (w w' : World P) (i : Invite)
      → create_invite app w ≡ (next i, w')
      → P.first_invite i.code w'.db ≡ ok i
  unfolding create_invite random_base62
  create_invite_lem w w' i h = by_code _ refl
    where
      by_created :
          (code : Text)
          → P.rand_read w.moment 8 ≡ ok code
          → (e : Option Error) (db : P.Db)
          → P.create_invite
              (record { code = P.base62_encode code; created_at = P.clock (w.moment + 1) })
              w.db
            ≡ (e, db)
          → P.first_invite i.code w'.db ≡ ok i
      by_created code r none db c = ground (
        arith,
        h,
        r,
        c,
        laws.create_invite_found
            (record { code = P.base62_encode code; created_at = P.clock (w.moment + 1) }) w.db db c,
      )
      by_created code r (some e) db c = absurd (ground (arith, h, r, c))

      by_code :
          (code : Result Text) → P.rand_read w.moment 8 ≡ code → P.first_invite i.code w'.db ≡ ok i
      by_code (ok code) r = by_created code r _ _ refl
      by_code (err e) r = absurd (ground (arith, h, r))

  initial_invite_lem :
      (w w' : World P) (i : Invite)
      → initial_invite app w ≡ (next i, w')
      → P.first_invite i.code w'.db ≡ ok i
  unfolding initial_invite
  initial_invite_lem w w' i h = by_invite _ refl
    where
      by_invite :
          (found : Result Invite) → P.any_invite w.db ≡ found → P.first_invite i.code w'.db ≡ ok i
      by_invite (ok j) f = ground (arith, h, f, laws.any_invite_found j w.db f)
      by_invite (err record_not_found) f = create_invite_lem w w' i (ground (arith, h, f))
      by_invite (err (http_error code message)) f = absurd (ground (arith, h, f))
      by_invite (err (errors_new s)) f = absurd (ground (arith, h, f))

  module _ (url : Text) (w w' : World P)
      (h : initial_invite_url app w ≡ (next (some url), w')) where
    abbrev Printed : Type 0
    Printed = (i : Invite) × (invite_url app i ≡ ok url) × (P.first_invite i.code w'.db ≡ ok i)

    by_invite_url :
        (n : ℕ) (i : Invite) (w1 : World P)
        → P.count_users w.db ≡ ok n
        → initial_invite app w ≡ (next i, w1)
        → (r : Result Text) → invite_url app i ≡ r
        → Printed
    unfolding initial_invite_url
    by_invite_url n i w1 c run (ok u) r = (
      i,
      ground (arith, h, c, run, r),
      ground (arith, h, c, run, r, initial_invite_lem w w1 i run),
    )
    by_invite_url n i w1 c run (err e) r = absurd (ground (arith, h, c, run, r))

    by_initial :
        (n : ℕ)
        → P.count_users w.db ≡ ok n
        → (e : Exit Invite) (w1 : World P) → initial_invite app w ≡ (e, w1)
        → Printed
    unfolding initial_invite_url
    by_initial n c (next i) w1 run = by_invite_url n i w1 c run _ refl
    by_initial n c (reply r) w1 run = absurd (ground (arith, h, c, run))
    by_initial n c (fail e) w1 run = absurd (ground (arith, h, c, run))
    by_initial n c panic w1 run = absurd (ground (arith, h, c, run))

    by_count : (r : Result ℕ) → P.count_users w.db ≡ r → Printed
    unfolding initial_invite_url
    by_count (ok n) c = by_initial n c _ _ refl
    by_count (err e) c = absurd (ground (arith, h, c))

  -- Where the start of the program prints the URL of an invite, it is that of an invite which a
  -- registration with its code finds, in the database as the start leaves it. This rests on the
  -- documented behaviour of GORM.
  pub post_setup_invites :
      (url : Text) (w w' : World P)
      → post_setup app w ≡ (next (some url), w')
      → (i : Invite) × (invite_url app i ≡ ok url) × (P.first_invite i.code w'.db ≡ ok i)
  unfolding post_setup
  post_setup_invites url w w' h =
      let (_, w1, admins, prints) =
        bind_next (write (P.make_admins app.config.default_admins) >>= check)
          (λ _. initial_invite_url app) w h in
      by_count url w1 w' prints _ refl
