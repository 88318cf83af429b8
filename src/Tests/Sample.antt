-- ===== src/Tests/Sample.antt =====
-- A server with one user, who has one client.
use yggdrasil_authentication.Base.{true, false, Option, none, some, [], text}
use yggdrasil_authentication.Base.Int.{pos}
use yggdrasil_authentication.Types.{Config, User, Client}
use yggdrasil_authentication.Action.{App, World}
use yggdrasil_authentication.Model.Ids.{make_null_string, skin_model_classic}
use yggdrasil_authentication.Tests.Memory.{platform}

abbrev pub config : Config
config = record {
  allow_capes = true;
  allow_changing_player_name = true;
  allow_multiple_access_tokens = false;
  allow_skins = true;
  application_owner = text "Anonymous";
  base_url = text "https://drasl.example.com";
  body_limit = record { enable = true; size_limit_kib = pos 8192 };
  data_directory = text "/usr/share/drasl";
  default_admins = [];
  default_preferred_language = text "en";
  domain = text "drasl.example.com";
  enable_background_effect = true;
  fallback_api_servers = [];
  forward_skins = true;
  instance_name = text "Drasl";
  listen_address = text "0.0.0.0:25585";
  log_requests = true;
  min_password_length = pos 8;
  rate_limit = record { enable = true; requests_per_second = 5 };
  registration_existing_player = record {
    allow = false;
    nickname = [];
    session_url = [];
    account_url = [];
    set_skin_url = [];
    require_skin_verification = false;
    require_invite = false;
  };
  registration_new_player = record {
    allow = true;
    allow_choosing_uuid = false;
    require_invite = false;
  };
  sign_public_keys = true;
  skin_size_limit = pos 128;
  offline_skins = true;
  state_directory = text "/var/lib/drasl";
  test_mode = false;
  token_expire_sec = pos 0;
  token_stale_sec = pos 0;
  transient_users = record { allow = false; username_regex = []; password = [] };
}

abbrev pub app : App platform
app = record {
  config = config;
  front_end_url = text "https://drasl.example.com";
  transient_username_regex = λ name. false;
  key = tt;
  key_b3_sum512 = text "key";
}

abbrev pub steve : User
steve = record {
  is_admin = false;
  is_locked = false;
  uuid = text "12345678-1234-1234-1234-123456789abc";
  username = text "steve";
  password_salt = text "salt";
  password_hash = text "saltpassword";
  clients = [];
  server_id = make_null_string none;
  player_name = text "Steve";
  offline_uuid = [];
  fallback_player = [];
  preferred_language = text "en";
  browser_token = make_null_string none;
  skin_hash = make_null_string none;
  skin_model = skin_model_classic;
  cape_hash = make_null_string none;
  created_at = pos 0;
  name_last_changed_at = pos 0;
}

abbrev pub launcher : Client
launcher = record { client_token = text "launcher"; version = 3; user_uuid = steve.uuid }

abbrev pub state : Option User → Option Client → World platform
state user client = record {
  db = record { user = user; client = client };
  cache = [];
  files = tt;
  moment = 0;
  set_cookies = [];
}

-- The user with the client, and the user alone.
abbrev pub logged_in : World platform
logged_in = state (some steve) (some launcher)

abbrev pub logged_out : World platform
logged_out = state (some steve) none
