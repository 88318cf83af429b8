-- ===== src/Front.antt =====
-- The browser sessions of front.go: the guards of the pages, login and logout, deletion of users, and
-- invites.
pub mod Login
pub mod Admin
pub mod Register
pub mod Update
pub mod Profile
pub mod Messages
pub mod Pages
use yggdrasil_authentication.Base.{
  ℕ, Bool, true, false, not, ◌||◌, Option, none, some, [], ◌∷◌, ◌++◌, ◌==◌, text_eq, Text, String,
  text, if◌then◌else◌,
}
use yggdrasil_authentication.Base.Int.{pos, negsuc}
use yggdrasil_authentication.Types.{
  Result, ok, err, Error, record_not_found, http_error, errors_new, User, redirect, no_content,
}
use yggdrasil_authentication.Platform.{Platform, Reader, by_username, by_browser_token}
use yggdrasil_authentication.Action.{
  App, Action, Handler, World, Exit, next, reply, fail, panic, ◌>>=◌, ◌>>◌, pure, respond,
  or_return, return_error, check, query, write, set_cookie, attempt, when,
}
use yggdrasil_authentication.Random.{random_hex}
use yggdrasil_authentication.Model.Ids.{make_null_string}
use yggdrasil_authentication.Model.Names.{transient_login_eligible, hash_password}
use yggdrasil_authentication.Textures.{delete_user}
use yggdrasil_authentication.Users.{create_invite}

-- What the handlers read of a request: form values and query parameters, empty where there are none,
-- cookies, and the files of a form, each with the reader or the error that opening it gives.
pub record Request : Type 0 where
  pub form_value : Text → Text
  pub query_param : Text → Text
  pub cookie : Text → Option Text
  pub form_file : Text → Option (Result Reader)

-- BROWSER_TOKEN_AGE_SEC
abbrev pub browser_token_age_sec : ℕ
browser_token_age_sec = 86400

module _ ⦃P : Platform⦄ (app : App P) where
  -- `setErrorMessage` and `setSuccessMessage`.
  abbrev pub set_error_message : String → Action (Unit {0})
  set_error_message message = set_cookie (record {
    name = text "errorMessage";
    value = P.query_escape (text message);
    max_age = pos 0;
  })

  -- The same for a message that is not a constant.
  abbrev pub set_error_text : Text → Action (Unit {0})
  set_error_text message =
      set_cookie
        (record { name = text "errorMessage"; value = P.query_escape message; max_age = pos 0 })

  -- An error message, and the browser is sent back.
  abbrev pub refuse {ℓ} : {A : Type ℓ} → Text → Text → Action A
  refuse url message = set_error_text message >> respond (redirect 303 url)

  -- `if err := Validate…; err != nil`, with the start of the message.
  abbrev pub validated : Text → Text → Option Error → Action (Unit {0})
  validated url message none = pure tt
  validated url message (some e) = refuse url (message ++ P.error_string e)

  abbrev pub set_success_message : String → Action (Unit {0})
  set_success_message message = set_cookie (record {
    name = text "successMessage";
    value = P.query_escape (text message);
    max_age = pos 0;
  })

  -- The cookie that removes the browser token.
  abbrev pub clear_browser_token : Action (Unit {0})
  clear_browser_token =
      set_cookie (record { name = text "browserToken"; value = []; max_age = negsuc 0 })

  -- `getReturnURL`, which tests one query parameter and returns another.
  unfoldable pub get_return_url : Request → Text
  get_return_url req =
      if not (req.form_value (text "returnUrl") == [])
      then req.form_value (text "returnUrl")
      else if not (req.query_param (text "returnUrl") == [])
      then req.query_param (text "username")
      else app.front_end_url

  -- The value of the browser token's cookie, if it is not empty.
  unfoldable pub browser_token_of : Request → Option Text
  browser_token_of req = elim (req.cookie (text "browserToken")) [
    | none ↦ none
    | some value ↦ if value == [] then none else some value
  ]

  -- `withBrowserAuthentication`. Where the query fails in another way than by finding no row, the
  -- nil error of reading the cookie is returned and nothing is written, which the client sees as 200.
  unfoldable pub with_browser_authentication : Bool → (Option User → Handler) → Request → Handler
  with_browser_authentication require_login f req = elim (browser_token_of req) [
    | none ↦
        if require_login
        then (do
          set_error_message "You are not logged in."
          respond (redirect 303 (get_return_url req)))
        else f none
    | some token ↦ (do
      result ← query (P.first_user (by_browser_token token))
      elim result [
        | ok user ↦ f (some user)
        | err record_not_found ↦
            if require_login
            then (do
              clear_browser_token
              set_error_message "You are not logged in."
              respond (redirect 303 (get_return_url req)))
            else f none
        | err (http_error code message) ↦ respond (no_content 200)
        | err (errors_new s) ↦ respond (no_content 200)
      ])
  ]

  -- A page for users who are logged in: the user is there.
  unfoldable pub with_login : (User → Handler) → Request → Handler
  with_login f =
      with_browser_authentication true
        λ user. elim user [ none ↦ (λ w. (panic, w)) | some user ↦ f user ]

  -- `withBrowserAdmin`.
  unfoldable pub with_browser_admin : (User → Handler) → Request → Handler
  with_browser_admin f req =
      with_login
        (λ user.
          if not user.is_admin
          then (do
            set_error_message "You are not an admin."
            respond (redirect 303 (get_return_url req)))
          else f user)
        req

  -- The last part of `FrontLogin`: a new browser token for the user.
  unfoldable pub start_session : User → Handler
  start_session user = do
    browser_token ← random_hex 32 >>= or_return
    set_cookie (record {
      name = text "browserToken";
      value = browser_token;
      max_age = pos browser_token_age_sec;
    })
    write (P.save_user (record user { browser_token = make_null_string (some browser_token) }))
    respond (redirect 303 (app.front_end_url ++ text "/drasl/profile"))

  -- A refusal of `FrontLogin`.
  abbrev pub refuse_login : Request → String → Handler
  refuse_login req message =
      set_error_message message >> respond (redirect 303 (get_return_url req))

  -- The checks of the user's row.
  unfoldable pub login_user : Request → User → Handler
  login_user req user = if user.is_locked then refuse_login req "Account is locked." else (do
    password_hash ←
        or_return (hash_password app (req.form_value (text "password")) user.password_salt)
    (if not (password_hash == user.password_hash)
        then refuse_login req "Incorrect password!"
        else start_session user))

  -- `FrontLogin`.
  unfoldable pub front_login : Request → Handler
  front_login req =
      if transient_login_eligible app (req.form_value (text "username"))
      then refuse_login req "Transient accounts cannot access the web interface."
      else (do
        result ← query (P.first_user (by_username (req.form_value (text "username"))))
        elim result [
          | ok user ↦ login_user req user
          | err record_not_found ↦ refuse_login req "User not found!"
          | err (http_error code message) ↦ return_error (http_error code message)
          | err (errors_new s) ↦ return_error (errors_new s)
        ])

  -- `FrontLogout`.
  unfoldable pub front_logout : Request → Handler
  front_logout = with_login λ user. (do
    clear_browser_token
    write (P.save_user (record user { browser_token = make_null_string none }))
    respond (redirect 303 app.front_end_url))

  -- The end of `FrontDeleteUser`; whether the user deletes themself, and errors of the deletion are
  -- passed over.
  unfoldable pub finish_deletion : Request → Bool → User → Handler
  finish_deletion req is_self target_user = do
    attempt (delete_user app target_user)
    when is_self clear_browser_token
    set_success_message "Account deleted"
    respond (redirect 303 (get_return_url req))

  -- `FrontDeleteUser`.
  unfoldable pub front_delete_user : Request → Handler
  front_delete_user req =
      with_login
        (λ user.
          let target_username = req.form_value (text "username") in
          if target_username == [] || target_username == user.username
          then finish_deletion req true user
          else if not user.is_admin
          then (do
            set_error_message "You are not an admin."
            respond (redirect 303 app.front_end_url))
          else (do
            result ← query (P.first_user (by_username target_username))
            elim result [
              | ok target_user ↦ finish_deletion req false target_user
              | err e ↦ (do
                set_error_message "User not found."
                respond (redirect 303 (get_return_url req)))
            ]))
        req

  -- `FrontDeleteInvite`, given the URL that it returns to.
  unfoldable pub front_delete_invite : Text → Request → Handler
  front_delete_invite return_url req =
      with_browser_admin
        (λ user. (do
          deleted ← write (P.delete_invite (req.form_value (text "inviteCode")))
          check deleted
          respond (redirect 303 return_url)))
        req

  -- `FrontNewInvite`.
  unfoldable pub front_new_invite : Request → Handler
  front_new_invite req =
      with_browser_admin
        (λ user. (do
          created ← attempt (create_invite app)
          elim created [
            | err e ↦ (do
              set_error_message "Error creating new invite."
              respond (redirect 303 (get_return_url req)))
            | ok invite ↦ respond (redirect 303 (get_return_url req))
          ]))
        req
