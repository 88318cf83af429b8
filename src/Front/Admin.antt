-- ===== src/Front/Admin.antt =====
-- `FrontUpdateUsers` of front.go: who is an admin, and who is locked.
pub mod Updates
pub mod Unlocked
use yggdrasil_authentication.Base.{
  Bool, true, false, not, ◌&&◌, ◌||◌, Option, none, some, List, [], ◌∷◌, ◌++◌, ◌==◌, text_eq, Text,
  text, if◌then◌else◌,
}
use yggdrasil_authentication.Types.{Result, ok, err, Error, User, redirect}
use yggdrasil_authentication.Platform.{Platform}
use yggdrasil_authentication.Action.{
  App, Action, Handler, World, Exit, next, reply, fail, panic, ◌>>=◌, ◌>>◌, pure, respond,
  or_return, query, write, when,
}
use yggdrasil_authentication.Transaction.{begin, commit, deferred_rollback}
use yggdrasil_authentication.Users.{is_default_admin, set_is_locked}
use yggdrasil_authentication.Front.{
  Request, set_error_message, set_success_message, get_return_url, with_browser_admin,
}

-- `a != b`.
abbrev pub differs : Bool → Bool → Bool
differs true b = not b
differs false b = b

module _ ⦃P : Platform⦄ (app : App P) where
  -- `shouldBeAdmin` and `shouldBeLocked`.
  unfoldable pub should_be_admin : Request → User → Bool
  should_be_admin req user =
      if is_default_admin app user
      then true
      else req.form_value (text "admin-" ++ user.username) == text "on"

  unfoldable pub should_be_locked : Request → User → Bool
  should_be_locked req user = req.form_value (text "locked-" ++ user.username) == text "on"

  -- The condition of the change.
  unfoldable pub is_changed : Request → User → Bool
  is_changed req user =
      differs user.is_admin (should_be_admin req user)
      || differs user.is_locked (should_be_locked req user)

  -- The change of one user; the error of `tx.Save` is passed over.
  unfoldable pub update_user : P.Tx → Request → User → Action (Unit {0})
  update_user tx req user = do
    changed ←
        set_is_locked app (record user { is_admin = should_be_admin req user })
          (should_be_locked req user)
    write (P.tx_save_user tx changed)
    pure tt

  -- The loop, with `anyUnlockedAdmins` so far.
  unfoldable pub update_users : P.Tx → Request → Bool → List User → Action Bool
  update_users tx req any_unlocked_admins [] = pure any_unlocked_admins
  update_users tx req any_unlocked_admins (user ∷ users) = do
    when (is_changed req user) (update_user tx req user)
    update_users tx req
        (any_unlocked_admins || should_be_admin req user && not (should_be_locked req user)) users

  -- What follows the loop; the error of `tx.Commit` is passed over.
  unfoldable pub finish_update : P.Tx → Request → Bool → Handler
  finish_update tx req any_unlocked_admins =
      if not any_unlocked_admins
      then (do
        set_error_message app "There must be at least one unlocked admin account."
        respond (redirect 303 (get_return_url app req)))
      else (do
        commit tx
        set_success_message app "Changes saved."
        respond (redirect 303 (get_return_url app req)))

  -- The part of `FrontUpdateUsers` that an admin reaches.
  unfoldable pub update_all : Request → Handler
  update_all req = do
    users ← query P.find_users >>= or_return
    tx ← begin
    deferred_rollback tx (update_users tx req false users >>= finish_update tx req)

  -- `FrontUpdateUsers`.
  unfoldable pub front_update_users : Request → Handler
  front_update_users req = with_browser_admin app (λ user. update_all req) req
