-- ===== src/Answers.antt =====
-- The handlers whose answer does not depend on the state: those of services.go that answer a constant,
-- `AuthServerInfo`, `AccountVerifySecurityLocation`, `SessionBlockedServers` and `FrontWebManifest`.
use yggdrasil_authentication.Base.{true, false, [], ◌∷◌, Text, text}
use yggdrasil_authentication.Types.{
  no_content, json, player_attributes, blocklist, msa_migration, server_info, web_manifest,
}
use yggdrasil_authentication.Platform.{Platform}
use yggdrasil_authentication.Action.{App, Handler, ◌>>=◌, respond, or_return}
use yggdrasil_authentication.Services.{with_bearer_authentication}

module _ ⦃P : Platform⦄ (app : App P) where
  -- `ServicesPlayerAttributes`.
  unfoldable pub services_player_attributes : Text → Text → Handler
  services_player_attributes path header = with_bearer_authentication app path header λ user.
      respond (
        json 200 (
          player_attributes (record {
            privileges = record {
              online_chat = true;
              multiplayer_server = true;
              multiplayer_realms = false;
              telemetry = false;
              optional_telemetry = false;
            };
            profanity_filter_on = false;
          })))

  -- `ServicesMSAMigration`.
  unfoldable pub services_msa_migration : Text → Text → Handler
  services_msa_migration path header = with_bearer_authentication app path header λ user.
      respond (json 200 (msa_migration (record { feature = text "msamigration"; rollout = false })))

  -- `ServicesBlocklist`.
  unfoldable pub services_blocklist : Text → Text → Handler
  services_blocklist path header =
      with_bearer_authentication app path header λ user. respond (json 200 (blocklist []))

  -- `AuthServerInfo`.
  unfoldable pub auth_server_info : Handler
  auth_server_info = respond (
      json 200 (
        server_info (record {
          status = text "OK";
          runtime_mode = text "productionMode";
          application_author = text "Unmojang";
          application_description = [];
          specification_version = text "2.13.34";
          implementation_version = text "0.1.0";
          application_owner = app.config.application_owner;
        })))

  -- `AccountVerifySecurityLocation`.
  unfoldable pub account_verify_security_location : Handler
  account_verify_security_location = respond (no_content 204)

  -- `SessionBlockedServers`.
  unfoldable pub session_blocked_servers : Handler
  session_blocked_servers = respond (no_content 200)

  -- `FrontWebManifest`.
  unfoldable pub front_web_manifest : Handler
  front_web_manifest = do
    url ← or_return (P.url_join_path app.front_end_url (text "drasl/icon.png" ∷ []))
    respond (
        json 200 (
          web_manifest
            (record { src = url; icon_type = text "image/png"; sizes = text "512x512" } ∷ [])))
