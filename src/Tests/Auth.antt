-- ===== src/Tests/Auth.antt =====
-- The authentication server at the sample.
use yggdrasil_authentication.Base.{
  ◌+◌, ◌≡◌, ◌≢◌, refl, true, false, none, some, [], Text, text, text_beq, ◌↔◌, text_eq,
}
use yggdrasil_authentication.Base.Int.{◌<ℤ◌}
use yggdrasil_authentication.Types.{
  User, Client, ok, err, record_not_found, stale_policy_allow, stale_policy_deny, RefreshResponse,
  refresh_response, AuthenticateResponse, authenticate_response, json, no_content,
}
use yggdrasil_authentication.Platform.{by_username}
use yggdrasil_authentication.Action.{World, Exit, next, reply}
use yggdrasil_authentication.Util.{contains}
use yggdrasil_authentication.Model.Ids.{uuid_to_id, remove_dashes}
use yggdrasil_authentication.Model.Names.{transient_login_eligible, hash_password}
use yggdrasil_authentication.Model.Tokens.{
  duration_seconds, date_after, new_claims, make_access_token, is_stale, client_of_claims,
  get_client,
}
use yggdrasil_authentication.Model.Tokens.Lookup.{Accepts, IsFresh, get_client_iff}
use yggdrasil_authentication.Model.Tokens.Fresh.{claims_at}
use yggdrasil_authentication.Auth.{
  AuthenticateRequest, RefreshRequest, TokenPair, SignoutRequest, auth_authenticate, auth_refresh,
  auth_validate, auth_invalidate, auth_signout, find_or_create_user, check_password, choose_client,
  use_client_token, bump_clients, require_client, invalidate_user, new_client,
}
use yggdrasil_authentication.Auth.Revocation.{refresh-revokes}
use yggdrasil_authentication.Auth.Invalidation.{Revokes, invalidate-Revokes, signout-Revokes}
use yggdrasil_authentication.Auth.Session.{CanLogin, authenticate-validate}
use yggdrasil_authentication.Auth.Login.{authenticate_checks_password}
use yggdrasil_authentication.Tests.Memory.{Db, platform, encode}
use yggdrasil_authentication.Tests.MemoryLaws.{jwt_laws, client_laws}
use yggdrasil_authentication.Tests.Sample.{app, steve, launcher, logged_in, logged_out}

-- The token of the launcher, as signed in the state with the client.
abbrev old_token : Text
old_token = encode (claims_at app launcher logged_in)

abbrev refresh_request : RefreshRequest
refresh_request = record {
  access_token = old_token;
  client_token = text "launcher";
  request_user = true;
}

abbrev refresh_body : Exit ⊥ → RefreshResponse → RefreshResponse
refresh_body (reply (json code (refresh_response r))) d = r
refresh_body _ d = d

abbrev no_refresh : RefreshResponse
no_refresh = record {
  access_token = [];
  client_token = [];
  selected_profile = record { id = []; name = [] };
  available_profiles = [];
  user = none;
}

abbrev run_refresh : Exit ⊥ × World platform
run_refresh = auth_refresh app (ok refresh_request) logged_in

abbrev refreshed : RefreshResponse
refreshed = refresh_body run_refresh.0 no_refresh

run_refresh_succeeds : run_refresh ≡ (reply (json 200 (refresh_response refreshed)), run_refresh.1)
unfolding auth_refresh require_client get_client client_of_claims is_stale make_access_token
    new_claims date_after uuid_to_id remove_dashes duration_seconds text text_beq
run_refresh_succeeds = refl

refresh-revokes_example :
    (get_client app old_token stale_policy_allow run_refresh.1).0 ≢ next (some (launcher, steve))
refresh-revokes_example =
    refresh-revokes app jwt_laws client_laws refresh_request refreshed logged_in run_refresh.1
      run_refresh.1 run_refresh_succeeds refl stale_policy_allow (launcher, steve)

abbrev pair : TokenPair
pair = record { access_token = old_token; client_token = text "launcher" }

abbrev run_invalidate : Exit ⊥ × World platform
run_invalidate = auth_invalidate app (ok pair) logged_in

run_invalidate_succeeds : run_invalidate ≡ (reply (no_content 204), run_invalidate.1)
unfolding auth_invalidate invalidate_user require_client get_client client_of_claims is_stale
    duration_seconds text text_beq
run_invalidate_succeeds = refl

invalidate-Revokes_example :
    (client : Client) × (user : User) × Accepts app old_token stale_policy_allow logged_in client
      user
    × (client.client_token ≡ text "launcher")
    × Revokes app jwt_laws client_laws logged_in user run_invalidate.1.db
invalidate-Revokes_example =
    invalidate-Revokes app jwt_laws client_laws pair logged_in run_invalidate.1
      run_invalidate_succeeds

abbrev credentials : SignoutRequest
credentials = record { username = text "steve"; password = text "password" }

abbrev run_signout : Exit ⊥ × World platform
run_signout = auth_signout app (ok credentials) logged_in

run_signout_succeeds : run_signout ≡ (reply (no_content 204), run_signout.1)
unfolding auth_signout invalidate_user hash_password text text_beq
run_signout_succeeds = refl

signout-Revokes_example :
    (user : User) × (platform.first_user (by_username (text "steve")) logged_in.db ≡ ok user)
    × (hash_password app (text "password") user.password_salt ≡ ok user.password_hash)
    × Revokes app jwt_laws client_laws logged_in user run_signout.1.db
signout-Revokes_example =
    signout-Revokes app jwt_laws client_laws credentials logged_in run_signout.1
      run_signout_succeeds

abbrev login_request : AuthenticateRequest
login_request = record {
  username = text "steve";
  password = text "password";
  client_token = some (text "phone");
  agent = none;
  request_user = true;
}

abbrev phone : Client
phone = record { client_token = text "phone"; version = 0; user_uuid = steve.uuid }

abbrev login_db : Db
login_db = record { user = some steve; client = some phone }

abbrev login_token : Text
login_token =
    encode (claims_at app (new_client (text "phone")) (record logged_out { db = login_db }))

steve-CanLogin : CanLogin app login_request steve (text "phone") login_db logged_out login_token
unfolding transient_login_eligible hash_password text text_beq contains
steve-CanLogin = record {
  ordinary = refl;
  found = refl;
  matched = refl;
  client_token = refl;
  new_token = refl;
  saved = refl;
  valid_uuid = refl;
  signed = refl;
}

phone_unused : platform.first_client_with_user (text "phone") logged_out.db ≡ err record_not_found
phone_unused = refl

authenticate-validate_example :
    (w' : World platform) × (r : AuthenticateResponse) × (auth_authenticate app
        (ok login_request)
        logged_out
      ≡ (reply (json 200 (authenticate_response r)), w'))
    × ((later : World platform)
        → later.db ≡ w'.db
        → platform.clock later.moment
          <ℤ (claims_at app
              (new_client (text "phone"))
              (record logged_out { db = login_db })).expires_at
        → IsFresh stale_policy_deny
            (claims_at app (new_client (text "phone")) (record logged_out { db = login_db }))
            (platform.clock (later.moment + 1))
        → (auth_validate app
            (ok (record { access_token = r.access_token; client_token = r.client_token }))
            later).0
          ≡ reply (no_content 204))
authenticate-validate_example =
    authenticate-validate app login_request steve (text "phone") login_db logged_out login_token
      steve-CanLogin jwt_laws client_laws phone_unused refl

abbrev wrong_request : AuthenticateRequest
wrong_request = record login_request { password = text "guess" }

abbrev run_login : Exit ⊥ × World platform
run_login = auth_authenticate app (ok login_request) logged_out

abbrev login_body : Exit ⊥ → AuthenticateResponse → AuthenticateResponse
login_body (reply (json code (authenticate_response r))) d = r
login_body _ d = d

abbrev no_login : AuthenticateResponse
no_login = record {
  access_token = [];
  client_token = [];
  selected_profile = none;
  available_profiles = none;
  user = none;
}

run_login_succeeds :
    run_login
    ≡ (reply (json 200 (authenticate_response (login_body run_login.0 no_login))), run_login.1)
unfolding auth_authenticate find_or_create_user check_password choose_client use_client_token
    bump_clients transient_login_eligible hash_password make_access_token new_claims date_after
    uuid_to_id remove_dashes duration_seconds text text_beq
run_login_succeeds = refl

steve_is_ordinary : transient_login_eligible app login_request.username ≡ false
unfolding transient_login_eligible
steve_is_ordinary = refl

authenticate_checks_password_example :
    (user : User) × (platform.first_user_with_clients (by_username (text "steve")) logged_out.db
      ≡ ok user)
    × (hash_password app (text "password") user.password_salt ≡ ok user.password_hash)
authenticate_checks_password_example =
    authenticate_checks_password app login_request logged_out run_login.1
      (login_body run_login.0 no_login) steve_is_ordinary run_login_succeeds

old_token_made :
    make_access_token app launcher logged_in
    ≡ (next old_token, (make_access_token app launcher logged_in).1)
unfolding make_access_token new_claims date_after duration_seconds
old_token_made = refl

launcher_found :
    platform.first_client_with_user launcher.client_token logged_in.db ≡ ok (launcher, steve)
unfolding text text_beq
launcher_found = refl

get_client_iff_example :
    ((get_client app old_token stale_policy_deny logged_in).0 ≡ next (some (launcher, steve)))
    ↔ Accepts app old_token stale_policy_deny logged_in launcher steve
get_client_iff_example = get_client_iff app old_token stale_policy_deny logged_in launcher steve
