-- ===== src/Session.antt =====
-- The handlers of session.go: joining a game server, its check of who joined, and profiles.
pub mod Join
pub mod Vouch
pub mod Elsewhere
pub mod Passes
use yggdrasil_authentication.Base.{
  ℕ, Bool, true, false, not, ◌&&◌, ◌||◌, Option, none, some, List, [], ◌∷◌, ◌++◌, ◌==◌, nat_eq,
  text_eq, Text, text, if◌then◌else◌,
}
use yggdrasil_authentication.Types.{
  Result, ok, err, Error, record_not_found, http_error, errors_new, User, Client, FallbackApiServer,
  SessionProfileResponse, session_profile, error_response, ErrorResponse, stale_policy_deny, json,
  blob, no_content,
}
use yggdrasil_authentication.Platform.{
  Platform, by_player_name, by_uuid, by_offline_uuid, HttpResponse,
}
use yggdrasil_authentication.Action.{
  App, Action, Handler, World, Exit, next, reply, fail, panic, ◌>>=◌, ◌>>◌, pure, respond,
  or_return, return_error, check, query, write, http_get,
}
use yggdrasil_authentication.Model.Ids.{make_null_string, uuid_to_id, id_to_uuid}
use yggdrasil_authentication.Model.Names.{make_transient_user}
use yggdrasil_authentication.Model.Tokens.{get_client}
use yggdrasil_authentication.Auth.{invalid_access_token}
use yggdrasil_authentication.Fallback.{first_answer, get_body}
use yggdrasil_authentication.Profile.Property.{get_skin_textures_property}

pub record SessionJoinRequest : Type 0 where
  pub access_token : Text
  pub selected_profile : Text
  pub server_id : Text

module _ ⦃P : Platform⦄ (app : App P) where
  -- `SessionJoin`; the argument is what `c.Bind` made of the request's body.
  unfoldable pub session_join : Result SessionJoinRequest → Handler
  session_join bound = do
    req ← or_return bound
    found ← get_client app req.access_token stale_policy_deny
    elim found [
      | none ↦ respond (json 403 invalid_access_token)
      | some (client, user) ↦ (do
        saved ←
            write (P.save_user (record user { server_id = make_null_string (some req.server_id) }))
        check saved
        respond (no_content 204))
    ]

  -- `fullProfile`.
  unfoldable pub full_profile : User → Text → Bool → Action SessionProfileResponse
  full_profile user uuid sign = do
    id ← or_return (uuid_to_id uuid)
    textures_property ← get_skin_textures_property app user sign
    pure (record { id = id; name = user.player_name; properties = textures_property ∷ [] })

  -- What one fallback server says to a game server's check: the content type and the body of an
  -- answer 200. A server that denies unknown users is not asked about a name that is not known here.
  unfoldable pub ask_joined : Bool → Text → Text → FallbackApiServer → Action (Option (Text × Text))
  ask_joined known player_name server_id server =
      if server.deny_unknown_users && not known
      then pure none
      else elim (P.url_append server.session_url (text "/session/minecraft/hasJoined")
          ((text "username", player_name) ∷ (text "serverId", server_id) ∷ [])) [
            | err e ↦ pure none
            | ok url ↦ (do
              res ← http_get url
              elim res [
                | err e ↦ pure none
                | ok res ↦
                    pure
                      (if res.status_code == 200 then some (res.content_type, res.body) else none)
              ])
          ]

  -- The loop of `SessionHasJoined`, and its refusal.
  unfoldable pub has_joined_elsewhere : Bool → Text → Text → Handler
  has_joined_elsewhere known player_name server_id = do
    answer ← first_answer (ask_joined known player_name server_id) app.config.fallback_api_servers
    elim answer [
      | some (content_type, body) ↦ respond (blob 200 content_type body)
      | none ↦ respond (no_content 403)
    ]

  -- After a query that failed in another way than by finding no row: a transient user is made, for
  -- the check that it can be.
  unfoldable pub has_joined_failed : Text → Text → Handler
  has_joined_failed player_name server_id =
      if app.config.transient_users.allow && app.transient_username_regex player_name
      then (do
        make_transient_user app player_name
        has_joined_elsewhere false player_name server_id)
      else respond (no_content 403)

  -- `SessionHasJoined`, for the query parameters "username" and "serverId".
  unfoldable pub session_has_joined : Text → Text → Handler
  session_has_joined player_name server_id = do
    result ← query (P.first_user (by_player_name player_name))
    elim result [
      | ok user ↦
          if not user.server_id.valid || not (server_id == user.server_id.string)
          then has_joined_elsewhere true player_name server_id
          else (do
            profile ← full_profile user user.uuid true
            respond (json 200 (session_profile profile)))
      | err e ↦ elim e [
        | record_not_found ↦ has_joined_elsewhere false player_name server_id
        | http_error code message ↦ has_joined_failed player_name server_id
        | errors_new s ↦ has_joined_failed player_name server_id
      ]
    ]

  -- `findUser` of `SessionProfile`: where the query fails in another way than by finding no row, it
  -- returns the nil error of `IDToUUID`, and no user.
  unfoldable pub find_user : Text → P.Db → Option User
  find_user uuid db = elim (P.first_user (by_uuid uuid) db) [
    | ok user ↦ some user
    | err record_not_found ↦
        if app.config.offline_skins
        then elim (P.first_user (by_offline_uuid uuid) db) [ ok user ↦ some user | err e ↦ none ]
        else none
    | err (http_error code message) ↦ none
    | err (errors_new s) ↦ none
  ]

  -- The query for a profile that goes to one fallback server.
  unfoldable pub ask_profile : Text → FallbackApiServer → Action (Option Text)
  ask_profile id server =
      get_body (P.url_join_path server.session_url (text "session/minecraft/profile" ∷ id ∷ []))
        (text "?unsigned=false") server.cache_ttl_seconds

  -- `SessionProfile`, for the parameter "id" and the query parameter "unsigned".
  unfoldable pub session_profile_by_id : Text → Text → Handler
  session_profile_by_id id unsigned = elim (id_to_uuid id) [
    | err e ↦ respond (
        json 400 (
          error_response (record {
            path = none;
            error = none;
            error_message = some (text "Not a valid UUID: " ++ id);
          })))
    | ok uuid ↦ (do
      found ← query (find_user uuid)
      elim found [
        | some user ↦ (do
          profile ← full_profile user uuid (unsigned == text "false")
          respond (json 200 (session_profile profile)))
        | none ↦ (do
          answer ← first_answer (ask_profile id) app.config.fallback_api_servers
          elim answer [
            | some body ↦ respond (blob 200 (text "application/json") body)
            | none ↦ respond (no_content 204)
          ])
      ])
  ]
