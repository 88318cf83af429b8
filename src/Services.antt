-- ===== src/Services.antt =====
-- The handlers of services.go that work on the user's profile: information, skins and capes, and
-- names. The arguments are the request's path, its Authorization header and its values.
pub mod Bearer
pub mod Keeps
pub mod Names
use yggdrasil_authentication.Base.{
  ℕ, Bool, true, false, not, ◌&&◌, Option, none, some, List, [], ◌∷◌, ◌++◌, ◌==◌, nat_eq, text_eq,
  Text, text, length, take, drop, if◌then◌else◌,
}
use yggdrasil_authentication.Types.{
  Result, ok, err, Error, record_not_found, http_error, errors_new, User, Client, Body, Response,
  ServicesProfile, ServicesProfileSkin, services_profile, NameChangeResponse, name_change,
  name_availability, ChangeNameErrorResponse, change_name_error, ErrorResponse, error_response,
  stale_policy_allow, json, no_content, SessionProfileProperty,
}
use yggdrasil_authentication.Platform.{Platform, Reader, by_player_name}
use yggdrasil_authentication.Action.{
  App, Action, Handler, World, Exit, next, reply, fail, panic, ◌>>=◌, ◌>>◌, pure, respond,
  or_return, return_error, deref, query, write, now, attempt,
}
use yggdrasil_authentication.Util.{contains}
use yggdrasil_authentication.Model.Ids.{uuid_to_id, is_valid_skin_model}
use yggdrasil_authentication.Model.Names.{validate_player_name, skin_url}
use yggdrasil_authentication.Model.Tokens.{get_client}
use yggdrasil_authentication.Account.{make_error_response}
use yggdrasil_authentication.Errors.{is_error_unique_failed}
use yggdrasil_authentication.Profile.{get_fallback_skin_textures_property}
use yggdrasil_authentication.Textures.{set_skin_and_save, set_cape_and_save}

-- The submatch of "^Bearer (.*)$", in which "." is any character but a line feed.
unfoldable pub bearer_token : Text → Option Text
bearer_token header =
    if take 7 header == text "Bearer " && not (contains (drop 7 header) 10)
    then some (drop 7 header)
    else none

-- The answer without a valid token.
abbrev pub unauthorized : Text → Response
unauthorized path =
    json 401 (error_response (record { path = some path; error = none; error_message = none }))

module _ ⦃P : Platform⦄ (app : App P) where
  -- `withBearerAuthentication`; an Authorization header that is missing is empty.
  unfoldable pub with_bearer_authentication : Text → Text → (User → Handler) → Handler
  with_bearer_authentication path header f = elim (bearer_token header) [
    | none ↦ respond (unauthorized path)
    | some access_token ↦ (do
      found ← get_client app access_token stale_policy_allow
      elim found [ none ↦ respond (unauthorized path) | some (client, user) ↦ f user ])
  ]

  -- The skin of a texture map that a fallback server sent, whose pointers are followed.
  unfoldable pub forwarded_skin :
      User → SessionProfileProperty → Action (Option ServicesProfileSkin)
  forwarded_skin user property = elim (P.base64_decode property.value) [
    | err e ↦ pure none
    | ok value ↦ elim (P.unmarshal_textures value) [
      | err e ↦ pure none
      | ok textures_value ↦ (do
        skin ← deref textures_value.textures.skin
        metadata ← deref skin.metadata
        pure (
            some (record {
              id = user.uuid;
              state = text "ACTIVE";
              url = skin.url;
              variant = P.to_upper metadata.model;
            })))
    ]
  ]

  -- `getServicesProfileSkin`.
  unfoldable pub get_services_profile_skin : User → Action (Option ServicesProfileSkin)
  get_services_profile_skin user =
      if not user.skin_hash.valid && not user.cape_hash.valid && app.config.forward_skins
      then (do
        fallback_property ← get_fallback_skin_textures_property app user
        elim fallback_property [
          | err e ↦ pure none
          | ok none ↦ pure none
          | ok (some property) ↦ forwarded_skin user property
        ])
      else if user.skin_hash.valid
      then elim (skin_url app user.skin_hash.string) [
        | err e ↦ pure none
        | ok url ↦ pure (
            some (record {
              id = user.uuid;
              state = text "ACTIVE";
              url = url;
              variant = P.to_upper user.skin_model;
            }))
      ]
      else pure none

  abbrev skin_list : Option ServicesProfileSkin → List ServicesProfileSkin
  skin_list none = []
  skin_list (some skin) = skin ∷ []

  -- `getServicesProfile`, which never returns an error: a malformed UUID gives the zero value.
  unfoldable pub get_services_profile : User → Action ServicesProfile
  get_services_profile user = elim (uuid_to_id user.uuid) [
    | err e ↦ pure (record { id = []; name = []; skins = none; capes = none })
    | ok id ↦ (do
      skin ← get_services_profile_skin user
      pure (record {
        id = id;
        name = user.player_name;
        skins = some (skin_list skin);
        capes = some [];
      }))
  ]

  -- `ServicesProfileInformation`.
  unfoldable pub services_profile_information : Text → Text → Handler
  services_profile_information path header = with_bearer_authentication path header λ user. (do
    profile ← get_services_profile user
    respond (json 200 (services_profile profile)))

  -- `ServicesUploadSkin`, for the form's variant and file; an error of the file is one of opening
  -- it, too.
  unfoldable pub services_upload_skin : Text → Text → Text → Result Reader → Handler
  services_upload_skin path header variant file = with_bearer_authentication path header λ user.
      if not app.config.allow_skins
      then respond
          (make_error_response path 400 none (some (text "Changing your skin is not allowed.")))
      else if not (is_valid_skin_model (P.to_lower variant))
      then respond
          (make_error_response path 400 none (some (text "Invalid request body for skin upload")))
      else elim file [
        | err e ↦ respond (
            make_error_response path 400 none
              (some (text "content is marked non-null but is null")))
        | ok src ↦ (do
          saved ←
              attempt
                (set_skin_and_save app (record user { skin_model = P.to_lower variant }) (some src))
          elim saved [
            | err e ↦
                respond
                  (make_error_response path 400 none (some (text "Could not read image data.")))
            | ok user ↦ (do
              profile ← get_services_profile user
              respond (json 200 (services_profile profile)))
          ])
      ]

  -- `ServicesResetSkin`.
  unfoldable pub services_reset_skin : Text → Text → Handler
  services_reset_skin path header =
      with_bearer_authentication path header
        λ user. (set_skin_and_save app user none >> respond (no_content 200))

  -- `ServicesHideCape`.
  unfoldable pub services_hide_cape : Text → Text → Handler
  services_hide_cape path header =
      with_bearer_authentication path header
        λ user. (set_cape_and_save app user none >> respond (no_content 200))

  -- `ServicesNameChange`; the instants are formatted when they are written.
  unfoldable pub services_name_change : Text → Text → Handler
  services_name_change path header = with_bearer_authentication path header λ user. respond (
      json 200 (
        name_change (record {
          changed_at = user.name_last_changed_at;
          created_at = user.created_at;
          name_change_allowed = app.config.allow_changing_player_name;
        })))

  -- `ServicesNameAvailability`.
  unfoldable pub services_name_availability : Text → Text → Text → Handler
  services_name_availability path header player_name =
      with_bearer_authentication path header λ user.
        if not app.config.allow_changing_player_name
        then respond (json 200 (name_availability (text "NOT_ALLOWED")))
        else elim (validate_player_name app player_name) [
          | some e ↦ respond (
              make_error_response path 400 (some (text "CONSTRAINT_VIOLATION")) (
                some (
                  text "checkNameAvailability.profileName: "
                  ++ (P.error_string e
                      ++ text ", checkNameAvailability.profileName: Invalid profile name"))))
          | none ↦ (do
            result ← query (P.first_user (by_player_name player_name))
            elim result [
              | ok other_user ↦ respond (json 200 (name_availability (text "DUPLICATE")))
              | err record_not_found ↦ respond (json 200 (name_availability (text "AVAILABLE")))
              | err (http_error code message) ↦ return_error (http_error code message)
              | err (errors_new s) ↦ return_error (errors_new s)
            ])
        ]

  -- The refusals of `ServicesChangeName`.
  abbrev pub bad_request : Text → Text → Response
  bad_request path message = json 400 (
      change_name_error (record {
        path = path;
        error_type = text "BAD REQUEST";
        error = text "BAD REQUEST";
        details = none;
        error_message = message;
        developer_message = message;
      }))

  abbrev pub duplicate : Text → Response
  duplicate path = json 403 (
      change_name_error (record {
        path = path;
        error_type = text "FORBIDDEN";
        error = text "FORBIDDEN";
        details = some (text "DUPLICATE");
        error_message = text "That player name is taken.";
        developer_message = text "That player name is taken.";
      }))

  -- The user with another name, or the refusal of it.
  unfoldable pub rename : Text → Text → User → Action User
  rename path player_name user =
      if user.player_name == player_name
      then pure user
      else if app.config.allow_changing_player_name
      then (do
        at ← now
        pure (record user { player_name = player_name; name_last_changed_at = at }))
      else respond (bad_request path (text "Changing your player name is not allowed."))

  -- What `ServicesChangeName` does for the user of the token.
  unfoldable pub change_name : Text → Text → User → Handler
  change_name path player_name user = elim (validate_player_name app player_name) [
    | some e ↦ respond (bad_request path (P.error_string e))
    | none ↦ (do
      renamed ← rename path player_name user
      saved ← write (P.save_user renamed)
      elim saved [
        | some e ↦
            if is_error_unique_failed (some e) then respond (duplicate path) else return_error e
        | none ↦ (do
          profile ← get_services_profile renamed
          respond (json 200 (services_profile profile)))
      ])
  ]

  -- `ServicesChangeName`.
  unfoldable pub services_change_name : Text → Text → Text → Handler
  services_change_name path header player_name =
      with_bearer_authentication path header (change_name path player_name)
