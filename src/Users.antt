-- ===== src/Users.antt =====
-- Locking of users and invites in common.go.
pub mod Lock
use yggdrasil_authentication.Base.{Bool, true, false, Option, none, some, Text, text_eq}
use yggdrasil_authentication.Types.{Result, ok, err, Error, User, Invite, Time}
use yggdrasil_authentication.Platform.{Platform}
use yggdrasil_authentication.Action.{
  App, Action, World, Exit, next, reply, fail, panic, ◌>>=◌, ◌>>◌, pure, or_return, check, write,
  now,
}
use yggdrasil_authentication.Random.{random_base62}
use yggdrasil_authentication.Util.{contains}
use yggdrasil_authentication.Model.Ids.{make_null_string}
use yggdrasil_authentication.Auth.{invalidate_user}

module _ ⦃P : Platform⦄ (app : App P) where
  -- `IsDefaultAdmin`.
  unfoldable pub is_default_admin : User → Bool
  is_default_admin user = contains app.config.default_admins user.username

  -- `SetIsLocked`: the user afterwards, who is saved by the caller. The transaction that it is given
  -- is not used.
  unfoldable pub set_is_locked : User → Bool → Action User
  set_is_locked user false = pure (record user { is_locked = false })
  set_is_locked user true = do
    let locked = record user { is_locked = true; browser_token = make_null_string none }
    invalidate_user app locked
    pure locked

  -- `CreateInvite`.
  unfoldable pub create_invite : Action Invite
  create_invite = do
    code ← random_base62 8 >>= or_return
    created_at ← now
    let invite : Invite = record { code = code; created_at = created_at }
    created ← write (P.create_invite invite)
    check created
    pure invite
