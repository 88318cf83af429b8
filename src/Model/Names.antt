-- ===== src/Model/Names.antt =====
-- Validation of names and passwords, transient users, hashing of passwords, and the URLs of
-- textures.
pub mod Bounds
use yggdrasil_authentication.Base.{
  ℕ, Bool, true, false, ◌&&◌, not, Option, none, some, List, [], ◌∷◌, ◌++◌, ◌==◌, text_eq, Text,
  String, text, length, leb, ltb, take, if◌then◌else◌,
}
use yggdrasil_authentication.Base.Int.{ℤ, pos, ltb_ℤ}
use yggdrasil_authentication.Types.{
  Error, errors_new, Result, ok, err, NullString, User, Client, Invite, Time, constants,
}
use yggdrasil_authentication.Platform.{Platform}
use yggdrasil_authentication.Action.{
  App, Action, ◌>>=◌, ◌>>◌, pure, or_return, now, World, Exit, next, reply, fail, panic,
}
use yggdrasil_authentication.Model.Ids.{make_null_string, skin_model_classic}

-- A Go `error`: nil, or an error.
abbrev errorf : String → Option Error
errorf s = some (errors_new (text s))

module _ ⦃P : Platform⦄ (app : App P) where
  -- `TransientLoginEligible`.
  unfoldable pub transient_login_eligible : Text → Bool
  transient_login_eligible player_name =
      app.config.transient_users.allow
      && app.transient_username_regex player_name
      && leb (length player_name) constants.max_player_name_length

  -- `ValidatePlayerName`: nil, or the error.
  unfoldable pub validate_player_name : Text → Option Error
  unfolding transient_login_eligible
  validate_player_name player_name =
      if transient_login_eligible player_name
      then errorf "name is reserved for transient login"
      else if player_name == []
      then errorf "can't be blank"
      else if ltb constants.max_player_name_length (length player_name)
      then some (
          errors_new (
            text "can't be longer than "
            ++ (P.format_int (pos constants.max_player_name_length) ++ text " characters")))
      else none

  -- `ValidateUsername`.
  unfoldable pub validate_username : Text → Option Error
  unfolding validate_player_name
  validate_username username = validate_player_name username

  -- `ValidatePlayerNameOrUUID`: after `uuid.Parse` has succeeded, `err` is nil.
  unfoldable pub validate_player_name_or_uuid : Text → Option Error
  unfolding validate_player_name
  validate_player_name_or_uuid player = elim (validate_player_name player) [
    | none ↦ none
    | some e ↦ elim (P.uuid_parse player) [
      | err e' ↦ errorf "not a valid player name or UUID"
      | ok u ↦ none
    ]
  ]

  -- `ValidatePassword`.
  unfoldable pub validate_password : Text → Option Error
  validate_password password =
      if password == []
      then errorf "can't be blank"
      else if ltb_ℤ (pos (length password)) app.config.min_password_length
      then some (
          errors_new (
            text "password must be longer than "
            ++ (P.format_int app.config.min_password_length ++ text " characters")))
      else none

  -- `MakeTransientUser`. The zero value of a Go string is the empty one, and that of a
  -- `sql.NullString` is not valid.
  unfoldable pub make_transient_user : Text → Action User
  make_transient_user player_name = do
    let preimage = text "uuid" ++ (player_name ++ app.key_b3_sum512)
    account_uuid ← or_return (P.uuid_from_bytes (take 16 (P.blake3_sum512 preimage)))
    created_at ← now
    name_last_changed_at ← now
    pure (record {
      is_admin = false;
      is_locked = false;
      uuid = P.uuid_string account_uuid;
      username = player_name;
      password_salt = [];
      password_hash = [];
      clients = [];
      server_id = make_null_string none;
      player_name = player_name;
      offline_uuid = [];
      fallback_player = player_name;
      preferred_language = app.config.default_preferred_language;
      browser_token = make_null_string none;
      skin_hash = make_null_string none;
      skin_model = skin_model_classic;
      cape_hash = make_null_string none;
      created_at = created_at;
      name_last_changed_at = name_last_changed_at;
    })

  -- `HashPassword`, with SCRYPT_N, SCRYPT_r, SCRYPT_p and SCRYPT_BYTES.
  unfoldable pub hash_password : Text → Text → Result Text
  hash_password password salt = P.scrypt_key password salt 32768 8 1 32

  -- `SkinURL`.
  unfoldable pub skin_url : Text → Result Text
  skin_url hash =
      P.url_join_path app.front_end_url ((text "drasl/texture/skin/" ++ (hash ++ text ".png")) ∷ [])

  -- `CapeURL`.
  unfoldable pub cape_url : Text → Result Text
  cape_url hash =
      P.url_join_path app.front_end_url ((text "drasl/texture/cape/" ++ (hash ++ text ".png")) ∷ [])

  -- `InviteURL`.
  unfoldable pub invite_url : Invite → Result Text
  invite_url invite = elim (P.url_join_path app.front_end_url (text "drasl/registration" ∷ [])) [
    | err e ↦ err e
    | ok url ↦ ok (url ++ (text "?invite=" ++ invite.code))
  ]

  -- `UserSkinURL`: a nil pointer for a user with no skin.
  unfoldable pub user_skin_url : User → Result (Option Text)
  unfolding skin_url
  user_skin_url user =
      if not user.skin_hash.valid
      then ok none
      else elim (skin_url user.skin_hash.string) [ err e ↦ err e | ok url ↦ ok (some url) ]
