-- ===== src/Textures.antt =====
-- Skins and capes in common.go: validation, reading and writing of texture files, the user's row,
-- and the removal of files that no user has. The mutexes that keep two requests from writing one
-- file at once are left out: each handler runs alone here.
pub mod Files
use yggdrasil_authentication.Base.{
  ℕ, ◌*◌, Bool, true, false, not, ◌&&◌, Option, none, some, List, [], ◌∷◌, ◌++◌, ◌==◌, nat_eq, Text,
  text, length, take, leb, if◌then◌else◌,
}
use yggdrasil_authentication.Base.Int.{ℤ, pos, ltb_ℤ}
use yggdrasil_authentication.Types.{
  Result, ok, err, Error, errors_new, User, Time, Invite, Client, NullString,
}
use yggdrasil_authentication.Platform.{Platform, Reader, Stat, exists, not_exist, stat_failed}
use yggdrasil_authentication.Action.{
  App, Action, World, Exit, next, reply, fail, panic, ◌>>=◌, ◌>>◌, pure, or_return, check, when,
  write, query, read_files, write_files,
}
use yggdrasil_authentication.Random.{hex_encode}
use yggdrasil_authentication.Model.Ids.{make_null_string, unmake_null_string}

-- The limit of `io.LimitReader` in `ReadTexture`.
abbrev pub texture_limit : ℕ
texture_limit = 10000000

module _ ⦃P : Platform⦄ (app : App P) where
  -- `GetSkinPath` and `GetCapePath`.
  unfoldable pub get_skin_path : Text → Text
  get_skin_path hash =
      P.path_join (P.path_join app.config.state_directory (text "skin")) (hash ++ text ".png")

  unfoldable pub get_cape_path : Text → Text
  get_cape_path hash =
      P.path_join (P.path_join app.config.state_directory (text "cape")) (hash ++ text ".png")

  -- The check of the width against SkinSizeLimit: nil, or the error.
  unfoldable pub check_width : ℕ → Option Error
  check_width width =
      if ltb_ℤ (pos 0) app.config.skin_size_limit && ltb_ℤ app.config.skin_size_limit (pos width)
      then some (
          errors_new (
            text "texture must not be greater than "
            ++ (P.format_int app.config.skin_size_limit ++ text " pixels wide")))
      else none

  -- `ValidateSkin` and `ValidateCape`: nil or the error. The reader that they return gives the
  -- bytes of the one that they are given.
  unfoldable pub validate_skin : Reader → Option Error
  validate_skin reader = elim (P.png_decode_config reader) [
    | err e ↦ some e
    | ok size ↦
        if not (size.0 == size.1)
        then some (errors_new (text "texture must be square"))
        else check_width size.0
  ]

  unfoldable pub validate_cape : Reader → Option Error
  validate_cape reader = elim (P.png_decode_config reader) [
    | err e ↦ some e
    | ok size ↦
        if not (size.0 == 2 * size.1)
        then some (errors_new (text "cape's width must be twice its height"))
        else check_width size.0
  ]

  -- What `buf.ReadFrom(limitedReader)` reads: an error of the reader is met under the limit only.
  unfoldable pub read_limited : Reader → Result Text
  read_limited reader =
      if leb texture_limit (length reader.bytes)
      then ok (take texture_limit reader.bytes)
      else elim (reader.broken) [ none ↦ ok reader.bytes | some e ↦ err e ]

  -- `ReadTexture`: the bytes and their hash.
  unfoldable pub read_texture : Reader → Result (Text × Text)
  read_texture reader = elim (read_limited reader) [
    | err e ↦ err e
    | ok buf ↦ ok (buf, hex_encode (P.blake3_sum256 buf))
  ]

  -- The part of `WriteSkin` and `WriteCape` that makes the file.
  unfoldable pub create_texture : Text → Text → Action (Unit {0})
  create_texture path buf = do
    made ← write_files (P.mkdir_all (P.path_dir path))
    check made
    created ← write_files (P.create path)
    check created
    written ← write_files (P.write_to path buf)
    check written

  -- `WriteSkin` and `WriteCape` at the path of the file, which is left alone if it exists.
  unfoldable pub write_texture : Text → Text → Action (Unit {0})
  write_texture path buf = do
    stat ← read_files (P.stat path)
    elim stat [
      | exists ↦ pure tt
      | stat_failed e ↦ check (some e)
      | not_exist ↦ create_texture path buf
    ]

  -- `DeleteSkinIfUnused` and `DeleteCapeIfUnused`, given the query for a user with that hash and the
  -- path of the file.
  unfoldable pub delete_if_unused :
      (Text → P.Db → Result Bool) → (Text → Text) → Option Text → Action (Unit {0})
  delete_if_unused hash_in_use get_path none = pure tt
  delete_if_unused hash_in_use get_path (some hash) = do
    in_use ← query (hash_in_use hash) >>= or_return
    when (not in_use) (write_files (P.remove (get_path hash)) >>= check)

  unfoldable pub delete_skin_if_unused : Option Text → Action (Unit {0})
  delete_skin_if_unused = delete_if_unused P.skin_hash_in_use get_skin_path

  unfoldable pub delete_cape_if_unused : Option Text → Action (Unit {0})
  delete_cape_if_unused = delete_if_unused P.cape_hash_in_use get_cape_path

  -- The texture that a set handler stores: nothing without a reader, or the bytes and their hash.
  unfoldable pub load_texture :
      (Reader → Option Error) → Option Reader → Action (Option (Text × Text))
  load_texture validate none = pure none
  load_texture validate (some reader) = do
    check (validate reader)
    read ← or_return (read_texture reader)
    pure (some read)

  -- The hash of a stored texture, as the column has it.
  abbrev pub hash_column : Option (Text × Text) → NullString
  hash_column none = make_null_string none
  hash_column (some (buf, hash)) = make_null_string (some hash)

  -- The file of a stored texture.
  unfoldable pub store_texture : (Text → Text) → Option (Text × Text) → Action (Unit {0})
  store_texture get_path none = pure tt
  store_texture get_path (some (buf, hash)) = write_texture (get_path hash) buf

  -- `SetSkinAndSave`: the user afterwards.
  unfoldable pub set_skin_and_save : User → Option Reader → Action User
  set_skin_and_save user reader = do
    loaded ← load_texture validate_skin reader
    let changed = record user { skin_hash = hash_column loaded }
    saved ← write (P.save_user changed)
    check saved
    store_texture get_skin_path loaded
    delete_skin_if_unused (unmake_null_string user.skin_hash)
    pure changed

  -- `SetCapeAndSave`.
  unfoldable pub set_cape_and_save : User → Option Reader → Action User
  set_cape_and_save user reader = do
    loaded ← load_texture validate_cape reader
    let changed = record user { cape_hash = hash_column loaded }
    saved ← write (P.save_user changed)
    check saved
    store_texture get_cape_path loaded
    delete_cape_if_unused (unmake_null_string user.cape_hash)
    pure changed

  -- `DeleteUser`.
  unfoldable pub delete_user : User → Action (Unit {0})
  delete_user user = do
    deleted ← write (P.delete_user user)
    check deleted
    delete_skin_if_unused (unmake_null_string user.skin_hash)
    delete_cape_if_unused (unmake_null_string user.cape_hash)
