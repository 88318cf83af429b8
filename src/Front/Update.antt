-- ===== src/Front/Update.antt =====
-- `FrontUpdate` of front.go: a user changes their profile, or an admin that of another.
pub mod Account
pub mod Writes
use yggdrasil_authentication.Base.{
  Bool, true, false, not, ◌&&◌, ◌||◌, Option, none, some, List, [], ◌∷◌, ◌++◌, ◌==◌, text_eq, Text,
  text, if◌then◌else◌,
}
use yggdrasil_authentication.Types.{Result, ok, err, Error, User, NullString, redirect, no_content}
use yggdrasil_authentication.Platform.{Platform, Reader, by_username}
use yggdrasil_authentication.Action.{
  App, Action, Handler, World, Exit, next, reply, fail, panic, ◌>>=◌, ◌>>◌, pure, respond,
  or_return, return_error, check, deref, query, write, attempt, when, rand_read, now, http_get,
}
use yggdrasil_authentication.Util.{ptr_equals}
use yggdrasil_authentication.Model.Ids.{make_null_string, unmake_null_string, is_valid_skin_model}
use yggdrasil_authentication.Model.Names.{
  validate_player_name, validate_player_name_or_uuid, validate_password, hash_password,
}
use yggdrasil_authentication.Model.Language.{is_valid_preferred_language}
use yggdrasil_authentication.Model.Offline.{offline_uuid}
use yggdrasil_authentication.Errors.{is_error_unique_failed}
use yggdrasil_authentication.Textures.{
  validate_skin, validate_cape, read_texture, write_texture, get_skin_path, get_cape_path,
  delete_skin_if_unused, delete_cape_if_unused,
}
use yggdrasil_authentication.Front.{
  Request, set_success_message, refuse, validated, get_return_url, with_login,
}

-- What happens to a texture: it stays, it is removed, or there is a new one with these bytes and hash.
pub data TextureChange : Type 0 where
  stays removed : TextureChange
  new_texture : Text → Text → TextureChange

-- The hash in the row, and the bytes in the buffer.
abbrev pub hash_after : TextureChange → NullString → NullString
hash_after stays hash = hash
hash_after removed hash = make_null_string none
hash_after (new_texture buf hash) old = make_null_string (some hash)

abbrev pub buffer : TextureChange → Option Text
buffer stays = none
buffer removed = none
buffer (new_texture buf hash) = some buf

module _ ⦃P : Platform⦄ (app : App P) where
  -- `profileUser`: whose profile is changed.
  unfoldable pub profile_user : Request → User → Action User
  profile_user req user =
      let profile_username = req.form_value (text "username") in
      if profile_username == [] || profile_username == user.username
      then pure user
      else if not user.is_admin
      then refuse app app.front_end_url (text "You are not an admin.")
      else (do
        result ← query (P.first_user (by_username profile_username))
        elim result [
          | ok target ↦ pure target
          | err e ↦ refuse app (get_return_url app req) (text "User not found.")
        ])

  -- The player name, with the offline UUID.
  unfoldable pub update_player_name : Request → User → User → Action User
  update_player_name req user target =
      let player_name = req.form_value (text "playerName") in
      if player_name == [] || player_name == target.player_name then pure target else (do
        validated app (get_return_url app req) (text "Invalid player name: ")
            (validate_player_name app player_name)
        when (not app.config.allow_changing_player_name && not user.is_admin)
            (refuse app (get_return_url app req) (text "Changing your player name is not allowed."))
        offline ← or_return (offline_uuid player_name)
        at ← now
        pure (record target {
          player_name = player_name;
          offline_uuid = offline;
          name_last_changed_at = at;
        }))

  unfoldable pub update_fallback_player : Request → User → Action User
  update_fallback_player req target =
      let fallback_player = req.form_value (text "fallbackPlayer") in
      if fallback_player == target.fallback_player then pure target else (do
        when (not (fallback_player == [])) (
            validated app (get_return_url app req) (text "Invalid fallback player: ")
              (validate_player_name_or_uuid app fallback_player))
        pure (record target { fallback_player = fallback_player }))

  unfoldable pub update_language : Request → User → Action User
  update_language req target =
      let preferred_language = req.form_value (text "preferredLanguage") in
      if preferred_language == []
      then pure target
      else if not (is_valid_preferred_language preferred_language)
      then refuse app (get_return_url app req) (text "Invalid preferred language.")
      else pure (record target { preferred_language = preferred_language })

  unfoldable pub update_password : Request → User → Action User
  update_password req target =
      let password = req.form_value (text "password") in
      if password == [] then pure target else (do
        validated app (get_return_url app req) (text "Invalid password: ")
            (validate_password app password)
        password_salt ← rand_read 16 >>= or_return
        password_hash ← or_return (hash_password app password password_salt)
        pure (record target { password_salt = password_salt; password_hash = password_hash }))

  unfoldable pub update_skin_model : Request → User → Action User
  update_skin_model req target =
      let skin_model = req.form_value (text "skinModel") in
      if skin_model == []
      then pure target
      else if not (is_valid_skin_model skin_model)
      then respond (no_content 400)
      else pure (record target { skin_model = skin_model })

  -- The reader of an uploaded file, or of what is downloaded.
  unfoldable pub open_texture : Text → Text → Option (Result Reader) → Text → Action Reader
  open_texture kind return_url (some file) url = or_return file
  open_texture kind return_url none url = do
    got ← http_get url
    elim got [
      | err e ↦
          refuse app return_url (text "Couldn't download " ++ (kind ++ text " from that URL."))
      | ok res ↦ pure (record { bytes = res.body; broken = res.broken })
    ]

  -- A new texture: `kind` is "skin" or "cape".
  unfoldable pub take_texture :
      Text
      → Bool
      → (Reader → Option Error)
      → Text
      → Option (Result Reader)
      → Text
      → Action TextureChange
  take_texture kind allowed validate return_url file url = do
    when (not allowed)
        (refuse app return_url (text "Setting a " ++ (kind ++ text " is not allowed.")))
    reader ← open_texture kind return_url file url
    validated app return_url (text "Error using that " ++ (kind ++ text ": ")) (validate reader)
    read ← or_return (read_texture app reader)
    pure (new_texture read.0 read.1)

  -- The part of the skin and that of the cape.
  unfoldable pub change_texture :
      Text
      → Bool
      → (Reader → Option Error)
      → Text
      → Option (Result Reader)
      → Text
      → Bool
      → Action TextureChange
  change_texture kind allowed validate return_url (some file) url deleted =
      take_texture kind allowed validate return_url (some file) url
  change_texture kind allowed validate return_url none url deleted =
      if not (url == [])
      then take_texture kind allowed validate return_url none url
      else if deleted
      then pure removed
      else pure stays

  unfoldable pub change_skin : Request → User → Action TextureChange
  change_skin req user =
      change_texture (text "skin") (app.config.allow_skins || user.is_admin) (validate_skin app)
        (get_return_url app req) (req.form_file (text "skinFile")) (req.form_value (text "skinUrl"))
        (req.form_value (text "deleteSkin") == text "on")

  unfoldable pub change_cape : Request → User → Action TextureChange
  change_cape req user =
      change_texture (text "cape") (app.config.allow_capes || user.is_admin) (validate_cape app)
        (get_return_url app req) (req.form_file (text "capeFile")) (req.form_value (text "capeUrl"))
        (req.form_value (text "deleteCape") == text "on")

  -- The file of a texture after the row was saved: the new one is written, and the old one removed.
  -- A hash that is new comes with a buffer; errors of the removal are passed over.
  unfoldable pub replace_texture :
      Text
      → (Text → Text)
      → (Option Text → Action (Unit {0}))
      → Text
      → Option Text
      → Option Text
      → Option Text
      → Action (Unit {0})
  replace_texture kind get_path delete_if_unused return_url buf old none =
      if ptr_equals old none then pure tt else attempt (delete_if_unused old) >> pure tt
  replace_texture kind get_path delete_if_unused return_url buf old (some hash) =
      if ptr_equals old (some hash) then pure tt else (do
        content ← deref buf
        written ← attempt (write_texture app (get_path hash) content)
        elim written [
          | err e ↦ refuse app return_url (text "Error saving the " ++ (kind ++ text "."))
          | ok u ↦ attempt (delete_if_unused old) >> pure tt
        ])

  -- The files and the answer.
  unfoldable pub replace_textures : Request → User → User → TextureChange → TextureChange → Handler
  replace_textures req target changed skin cape = do
    replace_texture (text "skin") (get_skin_path app) (delete_skin_if_unused app)
        (get_return_url app req) (buffer skin) (unmake_null_string target.skin_hash)
        (unmake_null_string changed.skin_hash)
    replace_texture (text "cape") (get_cape_path app) (delete_cape_if_unused app)
        (get_return_url app req) (buffer cape) (unmake_null_string target.cape_hash)
        (unmake_null_string changed.cape_hash)
    set_success_message app "Changes saved."
    respond (redirect 303 (get_return_url app req))

  -- `app.DB.Save(&profileUser)` and what follows; the user before the textures is `target`.
  unfoldable pub save_profile : Request → User → TextureChange → TextureChange → Handler
  save_profile req target skin cape = do
    let changed = record target {
      skin_hash = hash_after skin target.skin_hash;
      cape_hash = hash_after cape target.cape_hash;
    }
    saved ← write (P.save_user changed)
    elim saved [
      | none ↦ replace_textures req target changed skin cape
      | some e ↦
          if is_error_unique_failed (some e)
          then refuse app (get_return_url app req) (text "That player name is taken.")
          else return_error e
    ]

  -- The changes of the row, textures left aside.
  unfoldable pub update_fields : Request → User → User → Action User
  update_fields req user target =
      update_player_name req user target
      >>= update_fallback_player req
      >>= update_language req
      >>= update_password req
      >>= update_skin_model req

  -- The part of `FrontUpdate` that a user reaches.
  unfoldable pub update_profile : Request → User → Handler
  update_profile req user = do
    target ← profile_user req user
    updated ← update_fields req user target
    skin ← change_skin req user
    cape ← change_cape req user
    save_profile req updated skin cape

  -- `FrontUpdate`.
  unfoldable pub front_update : Request → Handler
  front_update req = with_login app (update_profile req) req
