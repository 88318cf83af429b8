-- ===== src/Auth/Login.antt =====
-- About the checks of `AuthAuthenticate` and `AuthValidate` of auth.go.
use yggdrasil_authentication.Base.{◌≡◌, ◌≢◌, refl, false, some, text_eq, text_beq_iff, Text, arith}
use yggdrasil_authentication.Types.{
  Error, record_not_found, http_error, errors_new, Result, ok, err, User, Client, stale_policy_deny,
  AuthenticateResponse, authenticate_response, json, no_content,
}
use yggdrasil_authentication.Platform.{Platform, by_username}
use yggdrasil_authentication.Action.{App, World, next, reply}
use yggdrasil_authentication.Model.Names.{transient_login_eligible, hash_password}
use yggdrasil_authentication.Model.Tokens.{get_client}
use yggdrasil_authentication.Auth.{
  AuthenticateRequest, require_client, find_or_create_user, check_password, auth_authenticate,
  auth_validate, invalid_credentials,
}

module _ ⦃P : Platform⦄ (app : App P) where
  -- `/validate` answers 204 for a token that `GetClient` accepts under StalePolicyDeny and whose
  -- client has the client token of the request.
  pub validate_accepted :
      (t client_token : Text) (w : World P) (c : Client) (u : User)
      → (get_client app t stale_policy_deny w).0 ≡ next (some (c, u))
      → c.client_token ≡ client_token
      → (auth_validate app (ok (record { access_token = t; client_token = client_token })) w).0
        ≡ reply (no_content 204)
  unfolding auth_validate require_client
  validate_accepted t client_token w c u g same =
      ground (arith, g, text_beq_iff c.client_token client_token)

  -- Anyone but a transient user who sends a password with another hash is refused, and the database
  -- is left alone; so is an unknown username.
  pub authenticate_wrong_password :
      (req : AuthenticateRequest) (w : World P) (user : User) (hash : Text)
      → transient_login_eligible app req.username ≡ false
      → P.first_user_with_clients (by_username req.username) w.db ≡ ok user
      → hash_password app req.password user.password_salt ≡ ok hash
      → hash ≢ user.password_hash
      → auth_authenticate app (ok req) w ≡ (reply (json 401 invalid_credentials), w)
  unfolding auth_authenticate find_or_create_user check_password
  authenticate_wrong_password req w user hash ordinary found hashed wrong =
      ground (arith, text_beq_iff hash user.password_hash)

  authenticate_hashed :
      (req : AuthenticateRequest) (w w' : World P) (r : AuthenticateResponse)
      → transient_login_eligible app req.username ≡ false
      → auth_authenticate app (ok req) w ≡ (reply (json 200 (authenticate_response r)), w')
      → (user : User) → P.first_user_with_clients (by_username req.username) w.db ≡ ok user
      → (hashed : Result Text) → hash_password app req.password user.password_salt ≡ hashed
      → hashed ≡ ok user.password_hash
  unfolding auth_authenticate find_or_create_user check_password
  authenticate_hashed req w w' r ordinary h user f (err e) m = ground (arith, f, m)
  authenticate_hashed req w w' r ordinary h user f (ok hash) m =
      ground (arith, f, m, text_beq_iff hash user.password_hash)

  authenticate_unknown :
      (req : AuthenticateRequest) (w w' : World P) (r : AuthenticateResponse) (e : Error)
      → transient_login_eligible app req.username ≡ false
      → auth_authenticate app (ok req) w ≡ (reply (json 200 (authenticate_response r)), w')
      → P.first_user_with_clients (by_username req.username) w.db ≢ err e
  unfolding auth_authenticate find_or_create_user
  authenticate_unknown req w w' r record_not_found ordinary h f = ground (arith, f)
  authenticate_unknown req w w' r (http_error code message) ordinary h f = ground (arith, f)
  authenticate_unknown req w w' r (errors_new s) ordinary h f = ground (arith, f)

  -- `/authenticate` succeeds for no one but a transient user unless a user with that username
  -- exists and the password that was sent has the stored hash.
  pub authenticate_checks_password :
      (req : AuthenticateRequest) (w w' : World P) (r : AuthenticateResponse)
      → transient_login_eligible app req.username ≡ false
      → auth_authenticate app (ok req) w ≡ (reply (json 200 (authenticate_response r)), w')
      → (user : User) × (P.first_user_with_clients (by_username req.username) w.db ≡ ok user)
        × (hash_password app req.password user.password_salt ≡ ok user.password_hash)
  authenticate_checks_password req w w' r ordinary h = by_found _ refl
    where
      by_found :
          (found : Result User)
          → P.first_user_with_clients (by_username req.username) w.db ≡ found
          → (user : User) × (P.first_user_with_clients (by_username req.username) w.db ≡ ok user)
            × (hash_password app req.password user.password_salt ≡ ok user.password_hash)
      by_found (err e) f = absurd (authenticate_unknown req w w' r e ordinary h f)
      by_found (ok user) f = (user, f, authenticate_hashed req w w' r ordinary h user f _ refl)
