-- ===== src/Setup.antt =====
-- `CleanConfig` and `DefaultConfig` of config.go, with the directories of build_config.go.
pub mod Clean
use yggdrasil_authentication.Base.{
  Bool, true, false, not, ◌&&◌, Option, none, some, List, [], ◌∷◌, ◌++◌, ◌==◌, nat_eq, text_eq,
  Text, text, if◌then◌else◌,
}
use yggdrasil_authentication.Base.Int.{pos}
use yggdrasil_authentication.Types.{
  Result, ok, err, Error, errors_new, Config, FallbackApiServer, RegistrationExistingPlayerConfig,
}
use yggdrasil_authentication.Platform.{Platform}
use yggdrasil_authentication.Model.Language.{is_valid_preferred_language}

infixl 5 ◌>>=◌ ◌>>◌
abbrev pub ◌>>=◌ {ℓ κ} : {A : Type ℓ} {B : Type κ} → Result A → (A → Result B) → Result B
ok a >>= f = f a
err e >>= f = err e

abbrev pub ◌>>◌ {ℓ κ} : {A : Type ℓ} {B : Type κ} → Result A → Result B → Result B
r >> s = r >>= λ _. s

-- `strings.TrimRight(s, "/")`.
unfoldable pub trim_right : Text → Text
trim_right [] = []
trim_right (c ∷ s) = let rest = trim_right s in if c == b'/' && rest == [] then [] else c ∷ rest

-- `if s == "" { return errors.New(message) }`.
unfoldable pub require : Text → Text → Result (Unit {0})
require s message = if s == [] then err (errors_new message) else ok tt

-- The loop over the skin domains of a server.
unfoldable pub check_skin_domains : Text → List Text → Result (Unit {0})
check_skin_domains nickname [] = ok tt
check_skin_domains nickname (skin_domain ∷ skin_domains) =
    let rest = check_skin_domains nickname skin_domains in
    if skin_domain == []
    then err (
        errors_new
          (text "SkinDomain can't be blank for FallbackAPIServer \"" ++ (nickname ++ text "\"")))
    else rest

-- The check of the default language.
unfoldable pub check_language : Text → Result (Unit {0})
check_language language =
    if not (is_valid_preferred_language language)
    then err (errors_new (text "Invalid DefaultPreferredLanguage " ++ language))
    else ok tt

module _ ⦃P : Platform⦄ where
  -- The checks of a URL and its trimming: the messages for a blank one and for one that does not
  -- parse, up to the error.
  unfoldable pub clean_url : Text → Text → Text → Result Text
  clean_url blank invalid url = do
    require url blank
    elim (P.url_parse url) [
      | some e ↦ err (errors_new (invalid ++ (text ": " ++ P.error_string e)))
      | none ↦ ok (trim_right url)
    ]

  -- The part for registration from an existing account.
  unfoldable pub clean_existing_player :
      RegistrationExistingPlayerConfig → Result RegistrationExistingPlayerConfig
  clean_existing_player existing =
      if existing.allow
      then (do
        require existing.nickname (text "RegistrationExistingPlayer.Nickname must be set")
        session_url ←
            clean_url
              (text
                "RegistrationExistingPlayer.SessionURL must be set. Example: https://sessionserver.mojang.com")
              (text "Invalid RegistrationExistingPlayer.SessionURL") existing.session_url
        account_url ←
            clean_url
              (text
                "RegistrationExistingPlayer.AccountURL must be set. Example: https://api.mojang.com")
              (text "Invalid RegistrationExistingPlayer.AccountURL") existing.account_url
        ok (record existing { session_url = session_url; account_url = account_url }))
      else ok existing

  -- One round of the loop over the fallback servers.
  unfoldable pub clean_fallback_api_server : FallbackApiServer → Result FallbackApiServer
  clean_fallback_api_server server = do
    require server.nickname (text "FallbackAPIServer Nickname must be set")
    account_url ←
        clean_url (text "FallbackAPIServer AccountURL must be set")
          (text "Invalid FallbackAPIServer AccountURL " ++ server.account_url) server.account_url
    session_url ←
        clean_url (text "FallbackAPIServer SessionURL must be set")
          (text "Invalid FallbackAPIServer SessionURL " ++ server.services_url) server.session_url
    services_url ←
        clean_url (text "FallbackAPIServer ServicesURL must be set")
          (text "Invalid FallbackAPIServer ServicesURL " ++ server.services_url) server.services_url
    check_skin_domains server.nickname server.skin_domains
    ok (record server {
      account_url = account_url;
      session_url = session_url;
      services_url = services_url;
    })

  unfoldable pub clean_fallback_api_servers :
      List FallbackApiServer → Result (List FallbackApiServer)
  clean_fallback_api_servers [] = ok []
  clean_fallback_api_servers (server ∷ servers) = do
    cleaned ← clean_fallback_api_server server
    rest ← clean_fallback_api_servers servers
    ok (cleaned ∷ rest)

  -- `os.Open` of the data directory.
  unfoldable pub open_data_directory : Text → P.Files → Result (Unit {0})
  open_data_directory path files = elim (P.open_file path files) [
    | none ↦ ok tt
    | some e ↦ err (errors_new (text "Couldn't open DataDirectory: " ++ P.error_string e))
  ]

  -- `CleanConfig`: the configuration as it is afterwards, or the error.
  unfoldable pub clean_config : P.Files → Config → Result Config
  clean_config files config = do
    base_url ←
        clean_url (text "BaseURL must be set. Example: https://drasl.example.com")
          (text "Invalid BaseURL") config.base_url
    check_language config.default_preferred_language
    require config.domain (text "Domain must be set to a valid fully qualified domain name")
    require config.instance_name (text "InstanceName must be set")
    require config.listen_address (text "ListenAddress must be set. Example: 0.0.0.0:25585")
    open_data_directory config.data_directory files
    existing ← clean_existing_player config.registration_existing_player
    servers ← clean_fallback_api_servers config.fallback_api_servers
    ok (record config {
      base_url = base_url;
      registration_existing_player = existing;
      fallback_api_servers = servers;
    })

-- `DefaultConfig`. A field that the source leaves out has its zero value.
abbrev pub default_config : Config
default_config = record {
  allow_capes = true;
  allow_changing_player_name = true;
  allow_multiple_access_tokens = false;
  allow_skins = true;
  application_owner = text "Anonymous";
  base_url = [];
  body_limit = record { enable = true; size_limit_kib = pos 8192 };
  data_directory = text "/usr/share/drasl";
  default_admins = [];
  default_preferred_language = text "en";
  domain = [];
  enable_background_effect = true;
  fallback_api_servers = [];
  forward_skins = true;
  instance_name = text "Drasl";
  listen_address = text "0.0.0.0:25585";
  log_requests = true;
  min_password_length = pos 8;
  rate_limit = record { enable = true; requests_per_second = 5 };
  registration_existing_player = record {
    allow = false;
    nickname = [];
    session_url = [];
    account_url = [];
    set_skin_url = [];
    require_skin_verification = false;
    require_invite = false;
  };
  registration_new_player = record {
    allow = true;
    allow_choosing_uuid = false;
    require_invite = false;
  };
  sign_public_keys = true;
  skin_size_limit = pos 128;
  offline_skins = true;
  state_directory = text "/var/lib/drasl";
  test_mode = false;
  token_expire_sec = pos 0;
  token_stale_sec = pos 0;
  transient_users = record { allow = false; username_regex = []; password = [] };
}
