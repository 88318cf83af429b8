-- ===== src/Profile.antt =====
-- The textures of a player's profile in common.go: forwarded from a fallback server, the user's own,
-- or a default.
pub mod Property
pub mod Signature
pub mod Silent
use yggdrasil_authentication.Base.{
  ℕ, ◌+◌, ◌*◌, Bool, true, false, not, ◌&&◌, Option, none, some, List, [], ◌∷◌, ◌++◌, ◌==◌, nat_eq,
  text_eq, Text, text, length, drop, leb, get_elem?, if◌then◌else◌,
}
use Prim.Native.Nat.{◌-◌}
use yggdrasil_authentication.Base.Int.{ℤ, signed64}
use yggdrasil_authentication.Types.{
  Result, ok, err, Error, User, FallbackApiServer, SessionProfileProperty, SessionProfileResponse,
  Texture, TextureMap, TexturesValue, PlayerNameToUuidResponse, TextureMetadata,
}
use yggdrasil_authentication.Platform.{Platform}
use yggdrasil_authentication.Action.{
  App, Action, World, Exit, next, reply, fail, panic, ◌>>=◌, ◌>>◌, pure, or_return, deref, now,
  read_files,
}
use yggdrasil_authentication.Model.Ids.{uuid_to_id, skin_model_slim, skin_model_classic}
use yggdrasil_authentication.Model.Names.{skin_url, cape_url}
use yggdrasil_authentication.Fallback.{first_answer, get_body}

-- `strings` and `regexp`: a match of ".*slim\\.png$", which is not anchored at the start.
unfoldable pub is_slim_skin : Text → Bool
is_slim_skin path = leb 8 (length path) && drop (length path - 8) path == text "slim.png"

-- `binary.BigEndian.Uint64`, of eight bytes.
unfoldable pub big_endian : ℕ → Text → ℕ
big_endian acc [] = acc
big_endian acc (b ∷ bytes) = big_endian (acc * 256 + b) bytes

-- The first property with the name "textures".
unfoldable pub find_textures : List SessionProfileProperty → Option SessionProfileProperty
find_textures [] = none
find_textures (property ∷ properties) =
    if property.name == text "textures" then some property else find_textures properties

-- The zero value of `SessionProfileProperty`.
abbrev pub empty_property : SessionProfileProperty
empty_property = record { name = []; value = []; signature = none }

module _ ⦃P : Platform⦄ (app : App P) where
  -- Whether a fallback player is a UUID, and the id or name that is asked for.
  unfoldable pub fallback_id : Text → Result (Bool × Text)
  fallback_id fallback_player = elim (P.uuid_parse fallback_player) [
    | err e ↦ ok (false, fallback_player)
    | ok u ↦
        if length fallback_player == 36
        then elim (uuid_to_id fallback_player) [ err e ↦ err e | ok id ↦ ok (true, id) ]
        else ok (true, fallback_player)
  ]

  -- The id of the fallback player at one server.
  unfoldable pub ask_id : Bool → Text → FallbackApiServer → Action (Option Text)
  ask_id true fallback_player server = pure (some fallback_player)
  ask_id false fallback_player server = do
    answer ←
        get_body
          (P.url_join_path server.account_url
            (text "/users/profiles/minecraft/" ∷ fallback_player ∷ []))
          [] server.cache_ttl_seconds
    elim answer [
      | none ↦ pure none
      | some body ↦ elim (P.unmarshal_player body) [
        | err e ↦ pure none
        | ok res ↦ pure (some res.id)
      ]
    ]

  -- The textures property that one server gives.
  unfoldable pub ask_textures :
      Bool → Text → FallbackApiServer → Action (Option SessionProfileProperty)
  ask_textures is_uuid fallback_player server = do
    found ← ask_id is_uuid fallback_player server
    elim found [
      | none ↦ pure none
      | some id ↦ (do
        answer ←
            get_body
              (P.url_join_path server.session_url (text "session/minecraft/profile" ∷ id ∷ []))
              (text "?unsigned=false") server.cache_ttl_seconds
        elim answer [
          | none ↦ pure none
          | some body ↦ elim (P.unmarshal_profile body) [
            | err e ↦ pure none
            | ok profile ↦ pure (find_textures profile.properties)
          ]
        ])
    ]

  -- `GetFallbackSkinTexturesProperty`.
  unfoldable pub get_fallback_skin_textures_property :
      User → Action (Result (Option SessionProfileProperty))
  get_fallback_skin_textures_property user =
      if user.fallback_player == []
      then pure (ok none)
      else elim (fallback_id user.fallback_player) [
        | err e ↦ pure (err e)
        | ok player ↦ (do
          answer ← first_answer (ask_textures player.0 player.1) app.config.fallback_api_servers
          pure (ok answer))
      ]

  -- `ChooseFileForUser`; the file is found by the index that the generator draws.
  unfoldable pub choose_file_for_user : User → Text → Action (Result (Option Text))
  choose_file_for_user user glob = do
    filenames ← read_files (P.glob glob)
    elim filenames [
      | err e ↦ pure (err e)
      | ok [] ↦ pure (ok none)
      | ok (f ∷ fs) ↦ elim (P.uuid_parse user.uuid) [
        | err e ↦ pure (err e)
        | ok user_uuid ↦ (do
          let seed = signed64 (big_endian 0 (drop 8 user_uuid))
          file ← deref (get_elem? (f ∷ fs) (P.rand_intn seed (length (f ∷ fs))))
          pure (ok (some file)))
      ]
    ]

  -- The URL of a default texture, given "skin" or "cape", and the file that was chosen.
  unfoldable pub default_texture : Text → User → Action (Option (Text × Text))
  default_texture kind user = do
    let directory = P.path_join app.config.state_directory (text "default-" ++ kind)
    chosen ← choose_file_for_user user (P.path_join directory (text "*.png"))
    elim chosen [
      | err e ↦ pure none
      | ok none ↦ pure none
      | ok (some path) ↦ elim (P.filepath_rel directory path) [
        | err e ↦ pure none
        | ok filename ↦
            elim (P.url_join_path app.front_end_url
              ((text "drasl/texture/default-" ++ (kind ++ (text "/" ++ filename))) ∷ [])) [
                | err e ↦ pure none
                | ok url ↦ pure (some (url, path))
              ]
      ]
    ]

  -- `GetDefaultSkinTexture`.
  unfoldable pub get_default_skin_texture : User → Action (Option Texture)
  get_default_skin_texture user = do
    found ← default_texture (text "skin") user
    elim found [
      | none ↦ pure none
      | some (url, path) ↦ pure (
          some (record {
            url = url;
            metadata = some (record {
              model = if is_slim_skin path then skin_model_slim else skin_model_classic;
            });
          }))
    ]

  -- `GetDefaultCapeTexture`.
  unfoldable pub get_default_cape_texture : User → Action (Option Texture)
  get_default_cape_texture user = do
    found ← default_texture (text "cape") user
    elim found [
      | none ↦ pure none
      | some (url, path) ↦ pure (some (record { url = url; metadata = none }))
    ]
