-- ===== src/Front/Register.antt =====
-- `FrontRegister` and `FrontChallengeSkin` of front.go.
pub mod Keeps
pub mod Rows
pub mod Invites
pub mod Outcome
pub mod Once
pub mod Success
pub mod Returns
use yggdrasil_authentication.Base.{
  Bool, true, false, not, ◌&&◌, ◌||◌, Option, none, some, List, [], ◌∷◌, ◌++◌, ◌==◌, text_eq, Text,
  text, if◌then◌else◌,
}
use yggdrasil_authentication.Base.Int.{pos}
use yggdrasil_authentication.Types.{
  Result, ok, err, Error, record_not_found, http_error, errors_new, User, Invite, redirect,
  render_challenge_skin,
}
use yggdrasil_authentication.Platform.{Platform}
use yggdrasil_authentication.Action.{
  App, Action, Handler, World, Exit, next, reply, fail, panic, ◌>>=◌, ◌>>◌, pure, respond,
  or_return, return_error, check, query, write, set_cookie, attempt, when, rand_read, now, new_uuid,
}
use yggdrasil_authentication.Transaction.{begin, commit, deferred_rollback}
use yggdrasil_authentication.Util.{contains}
use yggdrasil_authentication.Random.{random_hex}
use yggdrasil_authentication.Model.Ids.{make_null_string, skin_model_classic}
use yggdrasil_authentication.Model.Names.{validate_username, validate_password, hash_password}
use yggdrasil_authentication.Model.Offline.{offline_uuid}
use yggdrasil_authentication.Errors.{is_error_unique_failed_field}
use yggdrasil_authentication.Challenge.{
  ProxiedAccountDetails, get_challenge, draw_challenge, validate_challenge,
}
use yggdrasil_authentication.Front.Messages.{page_messages}
use yggdrasil_authentication.Front.{
  Request, browser_token_age_sec, set_error_message, refuse, validated, get_return_url,
  with_browser_authentication,
}

-- `username`, `accountUUID` and `invite`, if `inviteUsed`, as the checks leave them.
pub record NewAccount : Type 0 where
  pub username : Text
  pub uuid : Text
  pub invite : Option Invite

module _ ⦃P : Platform⦄ (app : App P) where
  -- `StripQueryParam`.
  unfoldable pub strip_query_param : Text → Text → Result Text
  strip_query_param url param = elim (P.parse_url url) [
    | err e ↦ err e
    | ok parsed ↦ ok (P.url_string (P.without_query_param parsed param))
  ]

  -- The invite, where one is required.
  unfoldable pub find_invite : Bool → Text → Text → Action (Option Invite)
  find_invite false code url = pure none
  find_invite true code url = do
    result ← query (P.first_invite code)
    elim result [
      | ok invite ↦ pure (some invite)
      | err record_not_found ↦ refuse app url (text "Invite not found!")
      | err (http_error status message) ↦ return_error (http_error status message)
      | err (errors_new s) ↦ return_error (errors_new s)
    ]

  -- `message` where the challenge cannot be verified.
  abbrev pub challenge_message : Error → Text
  challenge_message e =
      if app.config.registration_existing_player.require_skin_verification
      then text "Couldn't verify your skin, maybe try again: " ++ P.error_string e
      else text "Couldn't find your account, maybe try again: " ++ P.error_string e

  -- Registration from an existing account on another server.
  unfoldable pub existing_account : Request → Text → Text → Action NewAccount
  existing_account req failure_url no_invite_failure_url = do
    when (not app.config.registration_existing_player.allow)
        (refuse app failure_url (text "Registration from an existing account is not allowed."))
    invite ←
        find_invite app.config.registration_existing_player.require_invite
          (req.form_value (text "inviteCode")) no_invite_failure_url
    result ← attempt (
        validate_challenge app (req.form_value (text "username"))
          (req.form_value (text "challengeToken")))
    elim result [
      | err e ↦ refuse app failure_url (challenge_message e)
      | ok details ↦ (do
        validated app failure_url (text "Invalid username: ")
            (validate_username app details.username)
        pure (record { username = details.username; uuid = details.uuid; invite = invite }))
    ]

  -- The UUID of a new player.
  unfoldable pub choose_uuid : Text → Text → Action Text
  choose_uuid failure_url chosen_uuid =
      if chosen_uuid == []
      then new_uuid
      else if not app.config.registration_new_player.allow_choosing_uuid
      then refuse app failure_url (text "Choosing a UUID is not allowed.")
      else elim (P.uuid_parse chosen_uuid) [
        | err e ↦ refuse app failure_url (text "Invalid UUID: " ++ P.error_string e)
        | ok parsed ↦ pure (P.uuid_string parsed)
      ]

  -- Registration of a new player.
  unfoldable pub new_account : Request → Text → Text → Action NewAccount
  new_account req failure_url no_invite_failure_url = do
    when (not app.config.registration_new_player.allow)
        (refuse app failure_url (text "Registration without some existing account is not allowed."))
    invite ←
        find_invite app.config.registration_new_player.require_invite
          (req.form_value (text "inviteCode")) no_invite_failure_url
    account_uuid ← choose_uuid failure_url (req.form_value (text "uuid"))
    pure (record {
      username = req.form_value (text "username");
      uuid = account_uuid;
      invite = invite;
    })

  -- `if existingPlayer`.
  unfoldable pub choose_account : Request → Text → Text → Action NewAccount
  choose_account req failure_url no_invite_failure_url =
      if req.form_value (text "existingPlayer") == text "on"
      then existing_account req failure_url no_invite_failure_url
      else new_account req failure_url no_invite_failure_url

  -- The checks of `FrontRegister`.
  unfoldable pub check_registration : Request → Action NewAccount
  check_registration req = do
    let failure_url = get_return_url app req
    no_invite_failure_url ← or_return (strip_query_param failure_url (text "invite"))
    when (not (req.form_value (text "email") == []))
        (refuse app failure_url (text "You are now covered in bee stings."))
    validated app failure_url (text "Invalid username: ")
        (validate_username app (req.form_value (text "username")))
    validated app failure_url (text "Invalid password: ")
        (validate_password app (req.form_value (text "password")))
    choose_account req failure_url no_invite_failure_url

  -- The user's row, and its browser token.
  unfoldable pub new_user : Text → NewAccount → Action (User × Text)
  new_user password account = do
    password_salt ← rand_read 16 >>= or_return
    password_hash ← or_return (hash_password app password password_salt)
    browser_token ← random_hex 32 >>= or_return
    offline ← or_return (offline_uuid account.username)
    created_at ← now
    name_last_changed_at ← now
    pure (
      record {
        is_admin = contains app.config.default_admins account.username;
        is_locked = false;
        uuid = account.uuid;
        username = account.username;
        password_salt = password_salt;
        password_hash = password_hash;
        clients = [];
        server_id = make_null_string none;
        player_name = account.username;
        offline_uuid = offline;
        fallback_player = account.uuid;
        preferred_language = app.config.default_preferred_language;
        browser_token = make_null_string (some browser_token);
        skin_hash = make_null_string none;
        skin_model = skin_model_classic;
        cape_hash = make_null_string none;
        created_at = created_at;
        name_last_changed_at = name_last_changed_at;
      },
      browser_token,
    )

  -- What is answered where the row cannot be created.
  unfoldable pub check_created : Text → Option Error → Action (Unit {0})
  check_created failure_url none = pure tt
  check_created failure_url (some e) =
      if is_error_unique_failed_field (some e) (text "users.username")
        || is_error_unique_failed_field (some e) (text "users.player_name")
      then refuse app failure_url (text "That username is taken.")
      else if is_error_unique_failed_field (some e) (text "users.uuid")
      then refuse app failure_url (text "That UUID is taken.")
      else return_error e

  -- The use of the invite.
  unfoldable pub use_invite : P.Tx → Option Invite → Action (Unit {0})
  use_invite tx none = pure tt
  use_invite tx (some invite) = write (P.tx_delete_invite tx invite) >>= check

  -- The transaction.
  unfoldable pub save_registration : Text → Option Invite → User → P.Tx → Action (Unit {0})
  save_registration failure_url invite user tx = do
    created ← write (P.tx_create_user tx user)
    check_created failure_url created
    use_invite tx invite
    committed ← commit tx
    check committed

  -- The end of `FrontRegister`.
  unfoldable pub log_in : Text → Text → Handler
  log_in return_url browser_token = do
    set_cookie (record {
      name = text "browserToken";
      value = browser_token;
      max_age = pos browser_token_age_sec;
    })
    respond (redirect 303 return_url)

  -- The part of `FrontRegister` from the transaction on. The deferred rollback is run last.
  unfoldable pub register_user : Text → Text → Option Invite → User → Text → Handler
  register_user return_url failure_url invite user browser_token = do
    tx ← begin
    deferred_rollback tx
        (save_registration failure_url invite user tx >> log_in return_url browser_token)

  -- `FrontRegister`, given the URL that it sends a new user to.
  unfoldable pub front_register : Text → Request → Handler
  front_register return_url req = do
    account ← check_registration req
    user ← new_user (req.form_value (text "password")) account
    register_user return_url (get_return_url app req) account.invite user.0 user.1

  -- The challenge token of the browser, or a new one, which is set as a cookie.
  unfoldable pub challenge_token_of : Request → Action Text
  challenge_token_of req = elim (req.cookie (text "challengeToken")) [
    | none ↦ new_challenge_token
    | some value ↦ if value == [] then new_challenge_token else pure value
  ]
    where
      new_challenge_token : Action Text
      new_challenge_token = do
        challenge_token ← random_hex 32 >>= or_return
        set_cookie (record {
          name = text "challengeToken";
          value = challenge_token;
          max_age = pos browser_token_age_sec;
        })
        pure challenge_token

  -- `FrontChallengeSkin`, given the verification skin that it reads once.
  unfoldable pub front_challenge_skin : P.Image → Request → Handler
  front_challenge_skin verification_img req =
      with_browser_authentication app false
        (λ user. (do
          let username = req.query_param (text "username")
          validated app (get_return_url app req) (text "Invalid username: ")
              (validate_username app username)
          challenge_token ← challenge_token_of req
          let challenge = get_challenge app username challenge_token
          encoded ← or_return (P.png_encode (draw_challenge challenge verification_img))
          messages ← page_messages req
          respond (
              render_challenge_skin 200 (record {
                user = user;
                messages = messages;
                username = username;
                skin_base64 = P.base64_encode encoded;
                skin_filename = username ++ text "-challenge.png";
                challenge_token = challenge_token;
                invite_code = req.query_param (text "inviteCode");
              }))))
        req
