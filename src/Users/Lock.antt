-- ===== src/Users/Lock.antt =====
-- About `SetIsLocked` of common.go.
use yggdrasil_authentication.Base.{◌≡◌, refl, true, Option, none, some, arith}
use yggdrasil_authentication.Types.{Error, User}
use yggdrasil_authentication.Platform.{Platform}
use yggdrasil_authentication.Platform.Laws.{JwtLaws, ClientLaws}
use yggdrasil_authentication.Action.{App, World, next}
use yggdrasil_authentication.Model.Ids.{make_null_string}
use yggdrasil_authentication.Auth.{invalidate_user}
use yggdrasil_authentication.Auth.Invalidation.{Revokes, increment_versions-Revokes}
use yggdrasil_authentication.Users.{set_is_locked}

module _ ⦃P : Platform⦄ (app : App P) where
  lock_steps :
      (user user' : User) (w w' : World P)
      → set_is_locked app user true w ≡ (next user', w')
      → (done : Option Error × P.Db) → P.increment_versions user.uuid w.db ≡ done
      → (done.0 ≡ none)
        × (done.1 ≡ w'.db)
        × (user' ≡ record user { is_locked = true; browser_token = make_null_string none })
  unfolding set_is_locked invalidate_user
  lock_steps user user' w w' h (none, db) d = (refl, ground (arith, h, d), ground (arith, h, d))
  lock_steps user user' w w' h (some e, db) d = ground (arith, h, d)

  -- When `SetIsLocked` locks a user and returns no error, the user is locked and has no browser
  -- token, and every access token that was accepted before for a client of the user, with a version
  -- below 2 ^ 63 - 1, is refused, under either policy, as long as the database is as `SetIsLocked`
  -- left it. This rests on the documented behaviour of golang-jwt and GORM.
  pub set_is_locked-Revokes :
      (jwt_laws : JwtLaws P) (client_laws : ClientLaws P) (user user' : User) (w w' : World P)
      → set_is_locked app user true w ≡ (next user', w')
      → (user' ≡ record user { is_locked = true; browser_token = make_null_string none })
        × Revokes app jwt_laws client_laws w user w'.db
  set_is_locked-Revokes jwt_laws client_laws user user' w w' h =
      let (done, same_db, same_user) = lock_steps user user' w w' h _ refl in
      (same_user, increment_versions-Revokes app jwt_laws client_laws w user w'.db (cc))
