-- ===== src/Auth.antt =====
-- auth.go: the authentication server.
pub mod Clients
pub mod Login
pub mod Session
pub mod Revocation
pub mod Invalidation
use yggdrasil_authentication.Base.{
  ℕ, ◌+◌, Bool, true, false, ◌&&◌, ◌||◌, not, Option, none, some, List, [], ◌∷◌, ◌++◌, ◌==◌,
  text_eq, Text, text, if◌then◌else◌,
}
use yggdrasil_authentication.Types.{
  Error, record_not_found, http_error, errors_new, Result, ok, err, User, Client, next_version,
  stale_policy_allow, stale_policy_deny, ErrorResponse, Agent, Profile, UserProperty, UserResponse,
  AuthenticateResponse, RefreshResponse, Body, error_response, authenticate_response,
  refresh_response, Response, no_content, json,
}
use yggdrasil_authentication.Platform.{Platform, by_username}
use yggdrasil_authentication.Action.{
  App, Action, Handler, ◌>>=◌, ◌>>◌, pure, respond, return_error, or_return, check, when, query,
  write, World, Exit, next, reply, fail, panic,
}
use yggdrasil_authentication.Random.{random_hex}
use yggdrasil_authentication.Model.Ids.{uuid_to_id}
use yggdrasil_authentication.Model.Names.{
  transient_login_eligible, make_transient_user, hash_password,
}
use yggdrasil_authentication.Model.Tokens.{make_access_token, get_client}

-- The body of `invalidCredentialsBlob`.
abbrev pub invalid_credentials : Body
invalid_credentials = error_response (record {
  path = none;
  error = some (text "ForbiddenOperationException");
  error_message = some (text "Invalid credentials. Invalid username or password.");
})

-- The body of `invalidAccessTokenBlob`.
abbrev pub invalid_access_token : Body
invalid_access_token = error_response (record {
  path = none;
  error = some (text "ForbiddenOperationException");
  error_message = some (text "Invalid token.");
})

pub record AuthenticateRequest : Type 0 where
  pub username : Text
  pub password : Text
  pub client_token : Option Text
  pub agent : Option Agent
  pub request_user : Bool

pub record RefreshRequest : Type 0 where
  pub access_token : Text
  pub client_token : Text
  pub request_user : Bool

-- `validateRequest` and `invalidateRequest`.
pub record TokenPair : Type 0 where
  pub access_token : Text
  pub client_token : Text

pub record SignoutRequest : Type 0 where
  pub username : Text
  pub password : Text

-- `Version += 1`.
abbrev pub bump : Client → Client
bump c = record c { version = next_version c.version }

-- A new `Client`; GORM fills in its foreign key when the user is saved.
abbrev pub new_client : Text → Client
new_client client_token = record { client_token = client_token; version = 0; user_uuid = [] }

-- The loop over `user.Clients` in `AuthAuthenticate`: the clients afterwards, and the client whose
-- token it is, if any.
unfoldable pub bump_clients : Bool → Text → List Client → List Client × Option Client
bump_clients allow_multiple client_token [] = ([], none)
bump_clients allow_multiple client_token (c ∷ cs) =
    let (rest, found) = bump_clients allow_multiple client_token cs in
    if c.client_token == client_token
    then (bump c ∷ cs, some (bump c))
    else ((if not allow_multiple then bump c else c) ∷ rest, found)

-- The clients and the client with a token that the request names.
unfoldable pub use_client_token : Bool → Text → List Client → List Client × Client
use_client_token allow_multiple client_token clients =
    let (rest, found) = bump_clients allow_multiple client_token clients in
    elim found [
      | some client ↦ (rest, client)
      | none ↦ (rest ++ new_client client_token ∷ [], new_client client_token)
    ]

-- The optional parts of the answers.
abbrev pub user_response : Bool → Text → User → Option UserResponse
user_response request_user id user =
    if request_user
    then some (record {
      id = id;
      properties = record { name = text "preferredLanguage"; value = user.preferred_language } ∷ [];
    })
    else none

abbrev pub profile_of : Text → User → Profile
profile_of id user = record { id = id; name = user.player_name }

-- What is sent only if the request has an agent.
abbrev pub if_agent {ℓ} : {A : Type ℓ} → Option Agent → A → Option A
if_agent none a = none
if_agent (some agent) a = some a

module _ ⦃P : Platform⦄ (app : App P) where
  -- The user of an `AuthAuthenticate` request: the row, or a transient user that is created.
  unfoldable pub find_or_create_user : Text → Action User
  find_or_create_user username = do
    result ← query (P.first_user_with_clients (by_username username))
    elim result [
      | ok user ↦ pure user
      | err e ↦ elim e [
        | record_not_found ↦
            if transient_login_eligible app username
            then (do
              user ← make_transient_user app username
              created ← write (P.create_user user)
              check created
              pure user)
            else respond (json 401 invalid_credentials)
        | http_error code message ↦ return_error (http_error code message)
        | errors_new s ↦ return_error (errors_new s)
      ]
    ]

  -- The password check of `AuthAuthenticate`.
  unfoldable pub check_password : Text → Text → User → Action (Unit {0})
  check_password username password user =
      if transient_login_eligible app username
      then when (not (password == app.config.transient_users.password))
          (respond (json 401 invalid_credentials))
      else (do
        password_hash ← or_return (hash_password app password user.password_salt)
        when (not (password_hash == user.password_hash)) (respond (json 401 invalid_credentials)))

  -- The user's clients with the client of the request, and that client.
  unfoldable pub choose_client : Option Text → User → Action (List Client × Client)
  choose_client none user = do
    client_token ← random_hex 16 >>= or_return
    pure (user.clients ++ new_client client_token ∷ [], new_client client_token)
  choose_client (some client_token) user =
      pure (use_client_token app.config.allow_multiple_access_tokens client_token user.clients)

  -- `AuthAuthenticate`; the argument is what `c.Bind` made of the request's body.
  unfoldable pub auth_authenticate : Result AuthenticateRequest → Handler
  auth_authenticate bound = do
    req ← or_return bound
    user ← find_or_create_user req.username
    check_password req.username req.password user
    chosen ← choose_client req.client_token user
    saved ← write (P.save_user (record user { clients = chosen.0 }))
    check saved
    id ← or_return (uuid_to_id user.uuid)
    access_token ← make_access_token app chosen.1
    respond (
        json 200 (
          authenticate_response (record {
            access_token = access_token;
            client_token = chosen.1.client_token;
            selected_profile = if_agent req.agent (profile_of id user);
            available_profiles = if_agent req.agent (profile_of id user ∷ []);
            user = user_response req.request_user id user;
          })))

  -- `InvalidateUser`.
  unfoldable pub invalidate_user : User → Action (Unit {0})
  invalidate_user user = write (P.increment_versions user.uuid) >>= check

  -- `client == nil || client.ClientToken != req.ClientToken`, with the response for it.
  unfoldable pub require_client : Response → Text → Option (Client × User) → Action (Client × User)
  require_client refusal client_token none = respond refusal
  require_client refusal client_token (some (client, user)) =
      if not (client.client_token == client_token) then respond refusal else pure (client, user)

  -- `AuthRefresh`.
  unfoldable pub auth_refresh : Result RefreshRequest → Handler
  auth_refresh bound = do
    req ← or_return bound
    found ← get_client app req.access_token stale_policy_allow
    authorized ← require_client (json 401 invalid_access_token) req.client_token found
    let client = authorized.0
    let user = authorized.1
    id ← or_return (uuid_to_id user.uuid)
    access_token ← make_access_token app (bump client)
    saved ← write (P.save_client (bump client, user))
    check saved
    respond (
        json 200 (
          refresh_response (record {
            access_token = access_token;
            client_token = client.client_token;
            selected_profile = profile_of id user;
            available_profiles = profile_of id user ∷ [];
            user = user_response req.request_user id user;
          })))

  -- `AuthValidate`.
  unfoldable pub auth_validate : Result TokenPair → Handler
  auth_validate bound = do
    req ← or_return bound
    found ← get_client app req.access_token stale_policy_deny
    require_client (no_content 403) req.client_token found
    respond (no_content 204)

  -- `AuthSignout`.
  unfoldable pub auth_signout : Result SignoutRequest → Handler
  auth_signout bound = do
    req ← or_return bound
    user ← query (P.first_user (by_username req.username)) >>= or_return
    password_hash ← or_return (hash_password app req.password user.password_salt)
    when (not (password_hash == user.password_hash)) (respond (json 401 invalid_credentials))
    invalidate_user user
    respond (no_content 204)

  -- `AuthInvalidate`.
  unfoldable pub auth_invalidate : Result TokenPair → Handler
  auth_invalidate bound = do
    req ← or_return bound
    found ← get_client app req.access_token stale_policy_allow
    authorized ← require_client (json 401 invalid_access_token) req.client_token found
    invalidate_user authorized.1
    respond (no_content 204)
