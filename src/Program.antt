-- ===== src/Program.antt =====
-- The start of the program: `ReadOrCreateConfig` and `ReadOrCreateKey` of config.go, and `setup` of
-- main.go up to the default admins. An error of `Check`, `Unwrap` or `log.Fatal` ends the program; it
-- is an error here.
pub mod Restart
use yggdrasil_authentication.Base.{
  ℕ, ◌+◌, Bool, Option, none, some, List, [], ◌∷◌, Text, String, text,
}
use yggdrasil_authentication.Types.{Config, Result, ok, err, Error}
use yggdrasil_authentication.Platform.{Platform, Stat, exists, not_exist, stat_failed}
use yggdrasil_authentication.Action.{
  App, Action, World, Exit, next, reply, fail, panic, ◌>>=◌, ◌>>◌, pure, or_return, return_error,
  check, deref, read_files, write_files, generate_key,
}
use yggdrasil_authentication.Setup.{clean_config, default_config}
use yggdrasil_authentication.Migration.{open_db}
use yggdrasil_authentication.Keys.{CollectedKeys, collect_keys}
use yggdrasil_authentication.Startup.{post_setup}

-- `TEMPLATE_CONFIG_FILE`.
abbrev pub template_config_file : String
template_config_file =
    "# Drasl default config file\n\n# Example: drasl.example.com\nDomain = \"\"\n\n# Example: https://drasl.example.com\nBaseURL = \"\"\n\n# List of usernames who automatically become admins of the Drasl instance\nDefaultAdmins = [\"\"]\n\n[RegistrationNewPlayer]\nAllow = true\nAllowChoosingUUID = true\nRequireInvite = true\n"

module _ ⦃P : Platform⦄ where
  -- The file with the template, where `os.Stat` returned an error.
  unfoldable pub create_config : Text → Stat → Action (Unit {0})
  create_config path exists = pure tt
  create_config path _ = do
    write_files (P.mkdir_all (P.path_dir path)) >>= check
    write_files (P.create path) >>= check
    write_files (P.write_to path (text template_config_file)) >>= check

  -- `ReadOrCreateConfig`; warnings on unknown options are left out.
  unfoldable pub read_or_create_config : Text → Action Config
  read_or_create_config path = do
    stat ← read_files (P.stat path)
    create_config path stat
    decoded ← read_files (P.decode_config path default_config) >>= or_return
    read_files (λ files. clean_config files decoded) >>= or_return

  -- A new key, and its file.
  unfoldable pub create_key : Text → Action P.PrivateKey
  create_key path = do
    key ← generate_key 4096 >>= or_return
    der ← or_return (P.marshal_pkcs8_private_key key)
    write_files (P.write_file path der) >>= check
    pure key

  -- `ReadOrCreateKey`; a key that is not one of RSA panics.
  unfoldable pub read_or_create_key : Config → Action P.PrivateKey
  read_or_create_key config = do
    let path = P.path_join config.state_directory (text "key.pkcs8")
    der ← read_files (P.read_file path)
    elim der [
      | ok der ↦ or_return (P.parse_pkcs8_private_key der) >>= deref
      | err e ↦ create_key path
    ]

  -- The state directory, which is created if it is not there.
  unfoldable pub state_directory : Text → Stat → Action (Unit {0})
  state_directory path exists = pure tt
  state_directory path not_exist = write_files (P.mkdir_all path) >>= check
  state_directory path (stat_failed e) = return_error e

  -- The URLs of the servers, which are made, and are not used by the handlers.
  unfoldable pub join_urls : Text → List Text → Action (Unit {0})
  join_urls base_url [] = pure tt
  join_urls base_url (name ∷ names) = do
    or_return (P.url_join_path base_url (name ∷ []))
    join_urls base_url names

  -- `setup`, given what `regexp.MustCompile` makes of an expression, which is nil unless
  -- transient users are allowed: the application, the keys that
  -- it collects, and the URL of the invite that is printed.
  unfoldable pub setup :
      (Text → Text → Bool) → Config → Action (App P × CollectedKeys × Option Text)
  setup compile config = do
    stat ← read_files (P.stat config.state_directory)
    state_directory config.state_directory stat
    key ← read_or_create_key config
    key_bytes ← or_return (P.marshal_pkcs8_private_key key)
    db_stat ← read_files (P.stat (P.path_join config.state_directory (text "drasl.db")))
    open_db db_stat
    let app : App P = record {
      config = config;
      front_end_url = config.base_url;
      transient_username_regex = compile config.transient_users.username_regex;
      key = key;
      key_b3_sum512 = P.blake3_sum512 key_bytes;
    }
    keys ← collect_keys app
    join_urls config.base_url (
        text "account"
        ∷ text "auth"
        ∷ text "services"
        ∷ text "session"
        ∷ text "authlib-injector"
        ∷ [])
    invite_url ← post_setup app
    pure (app, keys, invite_url)
