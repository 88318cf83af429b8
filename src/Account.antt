-- ===== src/Account.antt =====
-- The handlers of account.go: player names to UUIDs.
pub mod Lookup
pub mod Batch
use yggdrasil_authentication.Base.{ℕ, Option, none, some, List, [], ◌∷◌, ◌++◌, Text, text}
use yggdrasil_authentication.Types.{
  Result, ok, err, record_not_found, http_error, errors_new, FallbackApiServer, User,
  PlayerNameToUuidResponse, player_name_to_uuid, player_names_to_uuids, error_response, Response,
  json, blob,
}
use yggdrasil_authentication.Platform.{Platform, by_player_name}
use yggdrasil_authentication.Action.{
  App, Action, Handler, ◌>>=◌, pure, respond, return_error, or_return, query,
}
use yggdrasil_authentication.Model.Ids.{uuid_to_id}
use yggdrasil_authentication.Fallback.{first_answer, get_body}

-- `MakeErrorResponse`, for a request to `path`.
abbrev pub make_error_response : Text → ℕ → Option Text → Option Text → Response
make_error_response path code error error_message =
    json code
      (error_response (record { path = some path; error = error; error_message = error_message }))

module _ ⦃P : Platform⦄ (app : App P) where
  -- The query for a player's UUID that goes to one fallback server: the body, if it answers 200.
  unfoldable pub ask_name : Text → FallbackApiServer → Action (Option Text)
  ask_name player_name server =
      get_body
        (P.url_join_path server.account_url (text "users/profiles/minecraft" ∷ player_name ∷ [])) []
        server.cache_ttl_seconds

  -- The row of a user, as the answer.
  unfoldable pub uuid_of_user : User → Action PlayerNameToUuidResponse
  uuid_of_user user = do
    id ← or_return (uuid_to_id user.uuid)
    pure (record { name = user.player_name; id = id })

  -- `AccountPlayerNameToID`, for the request's path and its parameter.
  unfoldable pub account_player_name_to_id : Text → Text → Handler
  account_player_name_to_id path player_name = do
    result ← query (P.first_user (by_player_name player_name))
    elim result [
      | ok user ↦ (do res ← uuid_of_user user; respond (json 200 (player_name_to_uuid res)))
      | err e ↦ elim e [
        | record_not_found ↦ (do
          answer ← first_answer (ask_name player_name) app.config.fallback_api_servers
          elim answer [
            | some body ↦ respond (blob 200 (text "application/json") body)
            | none ↦ respond (
                make_error_response path 404 none
                  (some (text "Couldn't find any profile with name " ++ player_name)))
          ])
        | http_error code message ↦ return_error (http_error code message)
        | errors_new s ↦ return_error (errors_new s)
      ]
    ]

  -- The same query where the body is decoded: an answer that is no JSON is passed over.
  unfoldable pub ask_uuid : Text → FallbackApiServer → Action (Option PlayerNameToUuidResponse)
  ask_uuid player_name server = do
    answer ← ask_name player_name server
    elim answer [
      | none ↦ pure none
      | some body ↦ elim (P.unmarshal_player body) [ err e ↦ pure none | ok res ↦ pure (some res) ]
    ]

  -- One round of the loop of `AccountPlayerNamesToIDs`: what is appended to the response.
  unfoldable pub resolve_name : Text → Action (List PlayerNameToUuidResponse)
  resolve_name player_name = do
    result ← query (P.first_user (by_player_name player_name))
    elim result [
      | ok user ↦ (do res ← uuid_of_user user; pure (res ∷ []))
      | err e ↦ elim e [
        | record_not_found ↦ (do
          answer ← first_answer (ask_uuid player_name) app.config.fallback_api_servers
          elim answer [ some res ↦ pure (res ∷ []) | none ↦ pure [] ])
        | http_error code message ↦ return_error (http_error code message)
        | errors_new s ↦ return_error (errors_new s)
      ]
    ]

  -- The loop.
  unfoldable pub resolve_names : List Text → Action (List PlayerNameToUuidResponse)
  resolve_names [] = pure []
  resolve_names (player_name ∷ player_names) = do
    first ← resolve_name player_name
    rest ← resolve_names player_names
    pure (first ++ rest)

  -- `AccountPlayerNamesToIDs`; the argument is what decoding the request's body gave.
  unfoldable pub account_player_names_to_ids : Result (List Text) → Handler
  account_player_names_to_ids decoded = do
    player_names ← or_return decoded
    response ← resolve_names player_names
    respond (json 200 (player_names_to_uuids response))
