-- ===== src/Tests/Server.antt =====
-- The theorems on textures, the configuration, users and errors, at a concrete server.
use yggdrasil_authentication.Base.{
  ◌⊎◌, ◌≡◌, refl, true, ◌++◌, none, some, [], text, text_beq, Text, text_eq,
}
use yggdrasil_authentication.Types.{
  ServicesProfile, services_profile, json, no_content, Result, ok, err, User, Config,
}
use yggdrasil_authentication.Platform.{Reader}
use yggdrasil_authentication.Action.{Handler, respond, reply, World, Exit, next}
use yggdrasil_authentication.Random.{hex_encode}
use yggdrasil_authentication.Util.{contains}
use yggdrasil_authentication.Model.Ids.{make_null_string, uuid_to_id}
use yggdrasil_authentication.Model.Names.{validate_player_name}
use yggdrasil_authentication.Model.Language.{is_valid_preferred_language}
use yggdrasil_authentication.Auth.{invalidate_user}
use yggdrasil_authentication.Auth.Invalidation.{Revokes}
use yggdrasil_authentication.Users.{set_is_locked}
use yggdrasil_authentication.Users.Lock.{set_is_locked-Revokes}
use yggdrasil_authentication.Textures.{
  set_skin_and_save, load_texture, validate_skin, check_width, read_texture, read_limited,
  store_texture, write_texture, create_texture, delete_skin_if_unused, delete_if_unused,
  get_skin_path,
}
use yggdrasil_authentication.Textures.Files.{IsAccepted, set_skin_and_save-IsAccepted}
use yggdrasil_authentication.Setup.{
  clean_config, clean_url, require, trim_right, check_language, open_data_directory,
  clean_existing_player, clean_fallback_api_servers,
}
use yggdrasil_authentication.Setup.Clean.{IsCleanConfig, clean_config-IsCleanConfig}
use yggdrasil_authentication.Model.Tokens.{get_client, client_of_claims, is_stale, duration_seconds}
use yggdrasil_authentication.Model.Tokens.Fresh.{claims_at}
use yggdrasil_authentication.Profile.{get_fallback_skin_textures_property}
use yggdrasil_authentication.Account.{account_player_name_to_id}
use yggdrasil_authentication.Services.{
  bearer_token, with_bearer_authentication, services_change_name, change_name, rename,
  get_services_profile, get_services_profile_skin,
}
use yggdrasil_authentication.Services.Names.{
  AnswersNoProfile, HasRenamed, name_answer, services_change_name_writes,
  services_change_name-account_player_name_to_id,
}
use yggdrasil_authentication.Tests.Memory.{platform, encode}
use yggdrasil_authentication.Tests.MemoryLaws.{jwt_laws, client_laws, name_laws}
use yggdrasil_authentication.Tests.Sample.{app, config, steve, launcher, logged_in}

abbrev skin : Reader
skin = record { bytes = text "png"; broken = none }

abbrev run_set_skin : Exit User × World platform
run_set_skin = set_skin_and_save app steve (some skin) logged_in

abbrev user_of : Exit User → User
user_of (next u) = u
user_of _ = steve

run_set_skin_succeeds : run_set_skin ≡ (next (user_of run_set_skin.0), run_set_skin.1)
unfolding set_skin_and_save load_texture validate_skin check_width read_texture read_limited
    store_texture write_texture create_texture delete_skin_if_unused delete_if_unused get_skin_path
    hex_encode text text_beq
run_set_skin_succeeds = refl

set_skin_and_save-IsAccepted_example :
    (buf : Text) × IsAccepted app skin buf
    × (user_of run_set_skin.0 ≡ record steve {
      skin_hash = make_null_string (some (hex_encode (platform.blake3_sum256 buf)));
    })
    × (platform.save_user (user_of run_set_skin.0) logged_in.db ≡ (none, run_set_skin.1.db))
set_skin_and_save-IsAccepted_example =
    set_skin_and_save-IsAccepted app steve (user_of run_set_skin.0) skin logged_in run_set_skin.1
      run_set_skin_succeeds

abbrev given : Config
given = record config { base_url = text "https://drasl.example.com/" }

abbrev clean_result : Result Config
clean_result = clean_config tt given

abbrev config_of : Result Config → Config
config_of (ok c) = c
config_of (err e) = given

clean_config_succeeds : clean_result ≡ ok (config_of clean_result)
unfolding clean_config clean_url require trim_right check_language open_data_directory
    clean_existing_player clean_fallback_api_servers is_valid_preferred_language contains text
    text_beq
clean_config_succeeds = refl

clean_config-IsCleanConfig_example : IsCleanConfig given (config_of clean_result)
clean_config-IsCleanConfig_example =
    clean_config-IsCleanConfig tt given (config_of clean_result) clean_config_succeeds

abbrev run_lock : Exit User × World platform
run_lock = set_is_locked app steve true logged_in

run_lock_succeeds : run_lock ≡ (next (user_of run_lock.0), run_lock.1)
unfolding set_is_locked invalidate_user text text_beq
run_lock_succeeds = refl

set_is_locked-Revokes_example :
    (user_of run_lock.0 ≡ record steve { is_locked = true; browser_token = make_null_string none })
    × Revokes app jwt_laws client_laws logged_in steve run_lock.1.db
set_is_locked-Revokes_example =
    set_is_locked-Revokes app jwt_laws client_laws steve (user_of run_lock.0) logged_in run_lock.1
      run_lock_succeeds

abbrev header : Text
header = text "Bearer " ++ encode (claims_at app launcher logged_in)

abbrev echo : User → Handler
echo user = respond (no_content 200)

abbrev run_bearer : Exit ⊥ × World platform
run_bearer = with_bearer_authentication app (text "/minecraft/profile") header echo logged_in

-- The token of the header is accepted, and the handler is run.
bearer_runs : run_bearer.0 ≡ reply (no_content 200)
unfolding with_bearer_authentication bearer_token get_client client_of_claims is_stale
    duration_seconds contains text text_beq
bearer_runs = refl

-- Steve takes another name.
abbrev run_rename : Exit ⊥ × World platform
run_rename =
    services_change_name app (text "/minecraft/profile/name/Alex") header (text "Alex") logged_in

abbrev renamed_profile : ServicesProfile
renamed_profile = record {
  id = text "12345678123412341234123456789abc";
  name = text "Alex";
  skins = some [];
  capes = some [];
}

rename_answers : run_rename.0 ≡ reply (json 200 (services_profile renamed_profile))
unfolding services_change_name change_name rename get_services_profile get_services_profile_skin
    validate_player_name get_fallback_skin_textures_property uuid_to_id with_bearer_authentication
    bearer_token get_client client_of_claims is_stale duration_seconds contains text text_beq
rename_answers = refl

services_change_name_writes_example :
    ((run_rename.1.db ≡ logged_in.db) × AnswersNoProfile app run_rename)
    ⊎ HasRenamed app header (text "Alex") logged_in run_rename
services_change_name_writes_example =
    services_change_name_writes app (text "/minecraft/profile/name/Alex") header (text "Alex")
      logged_in

services_change_name-account_player_name_to_id_example :
    (renamed : HasRenamed app header (text "Alex") logged_in run_rename)
    × (account_player_name_to_id app
          (text "/users/profiles/minecraft/Alex")
          (text "Alex")
          run_rename.1
        ≡ name_answer app (text "Alex") renamed.user run_rename.1)
services_change_name-account_player_name_to_id_example =
    services_change_name-account_player_name_to_id app name_laws
      (text "/minecraft/profile/name/Alex") (text "/users/profiles/minecraft/Alex") header
      (text "Alex") logged_in run_rename.1 renamed_profile rename_answers refl
