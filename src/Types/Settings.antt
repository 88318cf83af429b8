-- ===== src/Types/Settings.antt =====
-- The configuration records of config.go and the constants of common.go. What only the web server,
-- the cache or the file watcher reads (RateLimit, BodyLimit, RequestCache, LogRequests, TestMode)
-- is kept where the model reads it, and left out where only a library does.
use yggdrasil_authentication.Base.{ℕ, Bool, List, Text}
use yggdrasil_authentication.Base.Int.{ℤ}

pub record FallbackApiServer : Type 0 where
  pub nickname : Text
  pub session_url : Text
  pub account_url : Text
  pub services_url : Text
  pub skin_domains : List Text
  pub cache_ttl_seconds : ℤ
  pub deny_unknown_users : Bool

pub record TransientUsersConfig : Type 0 where
  pub allow : Bool
  pub username_regex : Text
  pub password : Text

pub record RegistrationNewPlayerConfig : Type 0 where
  pub allow : Bool
  pub allow_choosing_uuid : Bool
  pub require_invite : Bool

pub record RegistrationExistingPlayerConfig : Type 0 where
  pub allow : Bool
  pub nickname : Text
  pub session_url : Text
  pub account_url : Text
  pub set_skin_url : Text
  pub require_skin_verification : Bool
  pub require_invite : Bool

pub record RateLimitConfig : Type 0 where
  pub enable : Bool
  pub requests_per_second : ℕ

pub record BodyLimitConfig : Type 0 where
  pub enable : Bool
  pub size_limit_kib : ℤ

pub record Config : Type 0 where
  pub allow_capes : Bool
  pub allow_changing_player_name : Bool
  pub allow_multiple_access_tokens : Bool
  pub allow_skins : Bool
  pub application_owner : Text
  pub base_url : Text
  pub body_limit : BodyLimitConfig
  pub data_directory : Text
  pub default_admins : List Text
  pub default_preferred_language : Text
  pub domain : Text
  pub enable_background_effect : Bool
  pub fallback_api_servers : List FallbackApiServer
  pub forward_skins : Bool
  pub instance_name : Text
  pub listen_address : Text
  pub log_requests : Bool
  pub min_password_length : ℤ
  pub rate_limit : RateLimitConfig
  pub registration_existing_player : RegistrationExistingPlayerConfig
  pub registration_new_player : RegistrationNewPlayerConfig
  pub sign_public_keys : Bool
  pub skin_size_limit : ℤ
  pub offline_skins : Bool
  pub state_directory : Text
  pub test_mode : Bool
  pub token_expire_sec : ℤ
  pub token_stale_sec : ℤ
  pub transient_users : TransientUsersConfig

-- `ConstantsType`, with the lengths that the checks read.
pub record ConstantsType : Type 0 where
  pub max_player_name_length : ℕ
  pub max_username_length : ℕ

abbrev pub constants : ConstantsType
constants = record { max_player_name_length = 16; max_username_length = 16 }
