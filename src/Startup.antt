-- ===== src/Startup.antt =====
-- What main.go does once the application is set up: the default admins and the first invite; and which
-- requests are counted against the rate limit.
pub mod Invited
use yggdrasil_authentication.Base.{
  Bool, not, ◌&&◌, ◌||◌, Option, none, some, List, [], ◌∷◌, ◌==◌, nat_eq, text_eq, Text, String,
  text, map, if◌then◌else◌,
}
use yggdrasil_authentication.Types.{ok, err, record_not_found, http_error, errors_new, Invite}
use yggdrasil_authentication.Platform.{Platform}
use yggdrasil_authentication.Action.{
  App, Action, Handler, ◌>>=◌, ◌>>◌, pure, return_error, or_return, check, query, write,
}
use yggdrasil_authentication.Util.{contains}
use yggdrasil_authentication.Model.Names.{invite_url}
use yggdrasil_authentication.Users.{create_invite}
use yggdrasil_authentication.Errors.{is_yggdrasil_path}
use yggdrasil_authentication.Front.{Request, refuse, get_return_url}

-- The paths that `Skipper` of `makeRateLimiter` does not skip.
abbrev pub limited_paths : List String
limited_paths =
    "/" ∷ "/drasl/delete-user" ∷ "/drasl/login" ∷ "/drasl/logout" ∷ "/drasl/register"
    ∷ "/drasl/update" ∷ []

unfoldable pub skipper : Text → Bool
skipper path = not (contains (map text limited_paths) path)

module _ ⦃P : Platform⦄ (app : App P) where
  -- `DenyHandler` of `makeRateLimiter`.
  unfoldable pub deny_handler : Text → Request → Handler
  deny_handler path req =
      if is_yggdrasil_path path
      then return_error (http_error 429 (some (text "Too many requests. Try again later.")))
      else refuse app (get_return_url app req) (text "Too many requests. Try again later.")

  -- Some registration wants an invite.
  unfoldable pub wants_invite : Bool
  wants_invite =
      let new_player = app.config.registration_new_player in
      let existing_player = app.config.registration_existing_player in
      new_player.allow && new_player.require_invite
      || existing_player.allow && existing_player.require_invite

  -- The invite whose URL is printed; a new one if there is none.
  unfoldable pub initial_invite : Action Invite
  initial_invite = do
    result ← query P.any_invite
    elim result [
      | ok invite ↦ pure invite
      | err record_not_found ↦ create_invite app
      | err (http_error code message) ↦ return_error (http_error code message)
      | err (errors_new s) ↦ return_error (errors_new s)
    ]

  -- `Print an initial invite link if necessary`: the URL.
  unfoldable pub initial_invite_url : Action (Option Text)
  initial_invite_url =
      if not app.config.test_mode && wants_invite
      then (do
        count ← query P.count_users >>= or_return
        (if count == 0
            then (do
              invite ← initial_invite
              url ← or_return (invite_url app invite)
              pure (some url))
            else pure none))
      else pure none

  -- The end of `setup`. An error of `Check`, `Unwrap` or `log.Fatal` ends the program; it is an error
  -- here.
  unfoldable pub post_setup : Action (Option Text)
  post_setup = do write (P.make_admins app.config.default_admins) >>= check; initial_invite_url
