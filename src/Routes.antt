-- ===== src/Routes.antt =====
-- The routes that `GetServer` of main.go registers with echo, and the rewriting of paths before them.
pub mod Kinds
use yggdrasil_authentication.Base.{
  ℕ, Bool, true, false, List, [], ◌∷◌, ◌++◌, Text, String, text, map,
}

-- The handlers that are registered.
pub data Endpoint : Type 0 where
  front_root front_web_manifest front_admin front_challenge_skin front_profile front_registration
        front_delete_invite front_new_invite front_update_users front_delete_user front_login
        front_logout front_register front_update static_files authlib_injector_root auth_server_info
        auth_authenticate auth_invalidate auth_refresh auth_signout auth_validate
        account_verify_security_location account_player_name_to_id account_player_names_to_ids
        session_has_joined session_join session_profile session_blocked_servers
        services_player_attributes services_player_certificates services_delete_cape
        services_delete_skin services_profile_information services_name_availability
        services_name_change services_blocklist services_msa_migration services_upload_skin
        services_change_name services_public_keys :
      Endpoint

pub data Method : Type 0 where
  get post put delete : Method

-- A path in which a segment that starts with a colon stands for any segment, and a last segment "*"
-- for any rest.
pub record Route : Type 0 where
  pub method : Method
  pub path : String
  pub endpoint : Endpoint

abbrev at : Method → String → Endpoint → Route
at method path endpoint = record { method = method; path = path; endpoint = endpoint }

-- `// Front`, but for the static files.
abbrev pub front_routes : List Route
front_routes =
    at get "/" front_root
    ∷ at get "/drasl/manifest.webmanifest" front_web_manifest
    ∷ at get "/drasl/admin" front_admin
    ∷ at get "/drasl/challenge-skin" front_challenge_skin
    ∷ at get "/drasl/profile" front_profile
    ∷ at get "/drasl/registration" front_registration
    ∷ at post "/drasl/admin/delete-invite" front_delete_invite
    ∷ at post "/drasl/admin/new-invite" front_new_invite
    ∷ at post "/drasl/admin/update-users" front_update_users
    ∷ at post "/drasl/delete-user" front_delete_user
    ∷ at post "/drasl/login" front_login
    ∷ at post "/drasl/logout" front_logout
    ∷ at post "/drasl/register" front_register
    ∷ at post "/drasl/update" front_update
    ∷ []

-- `e.Static`, which serves every path below.
abbrev pub static_routes : List Route
static_routes =
    at get "/drasl/public/*" static_files
    ∷ at get "/drasl/texture/cape/*" static_files
    ∷ at get "/drasl/texture/skin/*" static_files
    ∷ at get "/drasl/texture/default-cape/*" static_files
    ∷ at get "/drasl/texture/default-skin/*" static_files
    ∷ []

-- `// authlib-injector` and `// Auth`.
abbrev pub auth_routes : List Route
auth_routes =
    at get "/authlib-injector" authlib_injector_root
    ∷ at get "/authlib-injector/" authlib_injector_root
    ∷ at post "/authenticate" auth_authenticate
    ∷ at post "/invalidate" auth_invalidate
    ∷ at post "/refresh" auth_refresh
    ∷ at post "/signout" auth_signout
    ∷ at post "/validate" auth_validate
    ∷ at get "/auth" auth_server_info
    ∷ at post "/auth/authenticate" auth_authenticate
    ∷ at post "/auth/invalidate" auth_invalidate
    ∷ at post "/auth/refresh" auth_refresh
    ∷ at post "/auth/signout" auth_signout
    ∷ at post "/auth/validate" auth_validate
    ∷ []

-- `// Account` and `// Session`.
abbrev pub account_routes : List Route
account_routes =
    at get "/user/security/location" account_verify_security_location
    ∷ at get "/users/profiles/minecraft/:playerName" account_player_name_to_id
    ∷ at post "/profiles/minecraft" account_player_names_to_ids
    ∷ at get "/account/user/security/location" account_verify_security_location
    ∷ at get "/account/users/profiles/minecraft/:playerName" account_player_name_to_id
    ∷ at post "/account/profiles/minecraft" account_player_names_to_ids
    ∷ []

abbrev pub session_routes : List Route
session_routes =
    at get "/session/minecraft/hasJoined" session_has_joined
    ∷ at post "/session/minecraft/join" session_join
    ∷ at get "/session/minecraft/profile/:id" session_profile
    ∷ at get "/blockedservers" session_blocked_servers
    ∷ at get "/session/session/minecraft/hasJoined" session_has_joined
    ∷ at post "/session/session/minecraft/join" session_join
    ∷ at get "/session/session/minecraft/profile/:id" session_profile
    ∷ at get "/session/blockedservers" session_blocked_servers
    ∷ []

-- `// Services`: at the root, and below "/services".
abbrev pub services_routes : List Route
services_routes =
    at get "/player/attributes" services_player_attributes
    ∷ at post "/player/certificates" services_player_certificates
    ∷ at delete "/minecraft/profile/capes/active" services_delete_cape
    ∷ at delete "/minecraft/profile/skins/active" services_delete_skin
    ∷ at get "/minecraft/profile" services_profile_information
    ∷ at get "/minecraft/profile/name/:playerName/available" services_name_availability
    ∷ at get "/minecraft/profile/namechange" services_name_change
    ∷ at get "/privacy/blocklist" services_blocklist
    ∷ at get "/rollout/v1/msamigration" services_msa_migration
    ∷ at post "/minecraft/profile/skins" services_upload_skin
    ∷ at put "/minecraft/profile/name/:playerName" services_change_name
    ∷ at get "/publickeys" services_public_keys
    ∷ []

abbrev pub services_prefix_routes : List Route
services_prefix_routes =
    at get "/services/player/attributes" services_player_attributes
    ∷ at post "/services/player/certificates" services_player_certificates
    ∷ at delete "/services/minecraft/profile/capes/active" services_delete_cape
    ∷ at delete "/services/minecraft/profile/skins/active" services_delete_skin
    ∷ at get "/services/minecraft/profile" services_profile_information
    ∷ at get "/services/minecraft/profile/name/:playerName/available" services_name_availability
    ∷ at get "/services/minecraft/profile/namechange" services_name_change
    ∷ at get "/services/privacy/blocklist" services_blocklist
    ∷ at get "/services/rollout/v1/msamigration" services_msa_migration
    ∷ at post "/services/minecraft/profile/skins" services_upload_skin
    ∷ at put "/services/minecraft/profile/name/:playerName" services_change_name
    ∷ at get "/services/publickeys" services_public_keys
    ∷ []

-- The routes of `GetServer`.
unfoldable pub routes : List Route
routes =
    front_routes
    ++ (static_routes
        ++ (auth_routes
            ++ (account_routes ++ (session_routes ++ (services_routes ++ services_prefix_routes)))))
