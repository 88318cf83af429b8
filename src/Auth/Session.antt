-- ===== src/Auth/Session.antt =====
-- About `AuthAuthenticate` and `AuthValidate` of auth.go, one after the other.
use yggdrasil_authentication.Base.{
  ◌+◌, ◌≡◌, refl, true, false, none, some, [], ◌∷◌, ◌++◌, text_eq, text_beq_iff, Text, arith, ap,
  ◌∙◌, length,
}
use yggdrasil_authentication.Base.Int.{◌<ℤ◌}
use yggdrasil_authentication.Types.{
  record_not_found, ok, err, User, stale_policy_deny, AuthenticateResponse, authenticate_response,
  json, no_content,
}
use yggdrasil_authentication.Platform.{Platform, by_username}
use yggdrasil_authentication.Platform.Laws.{JwtLaws, ClientLaws}
use yggdrasil_authentication.Action.{App, World, reply}
use yggdrasil_authentication.Util.{contains}
use yggdrasil_authentication.Model.Ids.{uuid_to_id, remove_dashes}
use yggdrasil_authentication.Model.Ids.Roundtrip.{uuid_to_id_of_length}
use yggdrasil_authentication.Model.Names.{transient_login_eligible, hash_password}
use yggdrasil_authentication.Model.Tokens.Lookup.{IsFresh}
use yggdrasil_authentication.Model.Tokens.Fresh.{
  claims_at, make_access_token_signs, get_client-make_access_token,
}
use yggdrasil_authentication.Auth.{
  AuthenticateRequest, new_client, use_client_token, find_or_create_user, check_password,
  choose_client, auth_authenticate, auth_validate, profile_of, user_response, if_agent,
}
use yggdrasil_authentication.Auth.Login.{validate_accepted}
use yggdrasil_authentication.Auth.Clients.{
  tokens, untouched, use_client_token_absent, tokens-untouched,
}

module _ ⦃P : Platform⦄ (app : App P) where
  -- What a login needs: an ordinary user with the password, a client token that no client has yet,
  -- and a database and a signer that do not fail.
  pub record CanLogin (req : AuthenticateRequest) (user : User) (t : Text) (db' : P.Db)
      (w : World P) (access_token : Text) : Type 0 where
    pub ordinary : transient_login_eligible app req.username ≡ false
    pub found : P.first_user_with_clients (by_username req.username) w.db ≡ ok user
    pub matched : hash_password app req.password user.password_salt ≡ ok user.password_hash
    pub client_token : req.client_token ≡ some t
    pub new_token : contains (tokens user.clients) t ≡ false
    pub saved :
        P.save_user
          (record user {
            clients =
                untouched app.config.allow_multiple_access_tokens user.clients ++ new_client t ∷ [];
          })
          w.db
        ≡ (none, db')
    pub valid_uuid : length user.uuid ≡ 36
    pub signed :
        P.signed_string (claims_at app (new_client t) (record w { db = db' })) app.key
        ≡ ok access_token

  module _ (req : AuthenticateRequest) (user : User) (t : Text) (db' : P.Db) (w : World P)
      (access_token : Text) (can : CanLogin req user t db' w access_token) where
    chosen : use_client_token app.config.allow_multiple_access_tokens t user.clients ≡ (
      untouched app.config.allow_multiple_access_tokens user.clients ++ new_client t ∷ [],
      new_client t,
    )
    chosen =
        use_client_token_absent app.config.allow_multiple_access_tokens t user.clients can.new_token

    id_found : uuid_to_id user.uuid ≡ ok (remove_dashes user.uuid)
    id_found = uuid_to_id_of_length user.uuid can.valid_uuid

    -- With the right password and a client token that the user does not have yet, `/authenticate`
    -- answers 200 with the signed access token, that client token, and the profile and user that were
    -- asked for, and leaves the database as saving the user with the new client did.
    pub authenticate_succeeds :
        (w' : World P) × (w'.db ≡ db')
        × (auth_authenticate app (ok req) w ≡ (
          reply (
              json 200 (
                authenticate_response (record {
                  access_token = access_token;
                  client_token = t;
                  selected_profile = if_agent req.agent (profile_of (remove_dashes user.uuid) user);
                  available_profiles =
                      if_agent req.agent (profile_of (remove_dashes user.uuid) user ∷ []);
                  user = user_response req.request_user (remove_dashes user.uuid) user;
                }))),
          w',
        ))
    unfolding auth_authenticate find_or_create_user check_password choose_client
    authenticate_succeeds =
        let (moment, made) =
          make_access_token_signs app (new_client t) (record w { db = db' }) access_token
            can.signed in
        (
          record w { db = db'; moment = moment },
          refl,
          ground (
            arith,
            made,
            chosen,
            id_found,
            can.found,
            can.ordinary,
            can.matched,
            can.client_token,
            can.saved,
            text_beq_iff user.password_hash user.password_hash,
          ),
        )

    module _ (jwt_laws : JwtLaws P) (client_laws : ClientLaws P)
        (unused : P.first_client_with_user t w.db ≡ err record_not_found)
        (utf8 : P.utf8_valid t ≡ true) where
      -- The row of the new client.
      new_row :
          (u : User) × (P.first_client_with_user t db'
            ≡ ok (record (new_client t) { user_uuid = user.uuid }, u))
      new_row =
          client_laws.save_user_adds_client _
            (untouched app.config.allow_multiple_access_tokens user.clients) (new_client t) w.db db'
            refl
            (ap (λ ts. contains ts t)
                (tokens-untouched app.config.allow_multiple_access_tokens user.clients)
              ∙ can.new_token)
            unused can.saved

      -- When an ordinary user logs in with the right password and a client token that is valid
      -- UTF-8 and that no client has yet, the user's UUID has 36 bytes, and the database and the
      -- signer do not fail, `/authenticate` answers 200; and with the pair of tokens of that
      -- answer, `/validate` answers 204, as long as the database is as the login left it and the
      -- token is neither expired nor stale. This rests on the documented behaviour of golang-jwt
      -- and GORM.
      pub authenticate-validate :
          (w' : World P) × (r : AuthenticateResponse) × (auth_authenticate app (ok req) w
            ≡ (reply (json 200 (authenticate_response r)), w'))
          × ((later : World P)
              → later.db ≡ w'.db
              → P.clock later.moment
                <ℤ (claims_at app (new_client t) (record w { db = db' })).expires_at
              → IsFresh stale_policy_deny
                  (claims_at app (new_client t) (record w { db = db' }))
                  (P.clock (later.moment + 1))
              → (auth_validate app
                  (ok (record { access_token = r.access_token; client_token = r.client_token }))
                  later).0
                ≡ reply (no_content 204))
      authenticate-validate =
          let (w', same, done) = authenticate_succeeds in
          let (u, row) = new_row in
          let (moment, made) =
            make_access_token_signs app (new_client t) (record w { db = db' }) access_token
              can.signed in
          (
            w',
            _,
            done,
            λ later same_db unexpired fresh.
                let row' = record (new_client t) { user_uuid = user.uuid } in
                validate_accepted app access_token t later row' u
                  (get_client-make_access_token app jwt_laws (new_client t) (record w { db = db' })
                    _ access_token made utf8 stale_policy_deny later row' u (rw (same_db, same) row)
                    refl refl unexpired fresh)
                  refl,
          )
