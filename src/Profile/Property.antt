-- ===== src/Profile/Property.antt =====
-- `GetSkinTexturesProperty` of common.go.
use yggdrasil_authentication.Base.{
  Bool, true, false, not, ◌&&◌, Option, none, some, Text, text, if◌then◌else◌,
}
use yggdrasil_authentication.Types.{
  Result, ok, err, User, SessionProfileProperty, Texture, TextureMap,
}
use yggdrasil_authentication.Platform.{Platform}
use yggdrasil_authentication.Action.{App, Action, ◌>>=◌, pure, or_return, now}
use yggdrasil_authentication.Model.Ids.{uuid_to_id}
use yggdrasil_authentication.Model.Names.{skin_url, cape_url}
use yggdrasil_authentication.Profile.{
  empty_property, get_fallback_skin_textures_property, get_default_skin_texture,
  get_default_cape_texture,
}

module _ ⦃P : Platform⦄ (app : App P) where
  -- What the fallback servers have for a user with neither a skin nor a cape, if it is forwarded.
  unfoldable pub forward_textures : User → Action (Result (Option SessionProfileProperty))
  forward_textures user =
      if not user.skin_hash.valid && not user.cape_hash.valid && app.config.forward_skins
      then get_fallback_skin_textures_property app user
      else pure (ok none)

  -- The skin and the cape of the texture map: the user's own or a default one.
  unfoldable pub choose_skin : User → Action (Result (Option Texture))
  choose_skin user =
      if user.skin_hash.valid
      then elim (skin_url app user.skin_hash.string) [
        | err e ↦ pure (err e)
        | ok url ↦
            pure (
              ok
                (some (record { url = url; metadata = some (record { model = user.skin_model }) })))
      ]
      else (do texture ← get_default_skin_texture app user; pure (ok texture))

  unfoldable pub choose_cape : User → Action (Result (Option Texture))
  choose_cape user =
      if user.cape_hash.valid
      then elim (cape_url app user.cape_hash.string) [
        | err e ↦ pure (err e)
        | ok url ↦ pure (ok (some (record { url = url; metadata = none })))
      ]
      else (do texture ← get_default_cape_texture app user; pure (ok texture))

  -- The signature of the encoded textures, if one is asked for.
  unfoldable pub sign_textures : Bool → Text → Action (Option Text)
  sign_textures false value = pure none
  sign_textures true value = do
    signature ← or_return (P.sign_pkcs1v15_sha1 app.key value)
    pure (some (P.base64_encode signature))

  -- The property of a texture map.
  unfoldable pub encode_textures : Text → User → Bool → TextureMap → Action SessionProfileProperty
  encode_textures id user sign textures = do
    timestamp ← now
    textures_value_blob ← or_return (
        P.marshal_textures (record {
          timestamp = timestamp;
          profile_id = id;
          profile_name = user.player_name;
          textures = textures;
        }))
    signature ← sign_textures sign (P.base64_encode textures_value_blob)
    pure (record {
      name = text "textures";
      value = P.base64_encode textures_value_blob;
      signature = signature;
    })

  -- The property of the user's own textures. A URL that cannot be made gives the empty property.
  unfoldable pub own_textures : Text → User → Bool → Action SessionProfileProperty
  own_textures id user sign = do
    skin ← choose_skin user
    elim skin [
      | err e ↦ pure empty_property
      | ok skin ↦ (do
        cape ← choose_cape user
        elim cape [
          | err e ↦ pure empty_property
          | ok cape ↦ encode_textures id user sign (record { skin = skin; cape = cape })
        ])
    ]

  -- `GetSkinTexturesProperty`.
  unfoldable pub get_skin_textures_property : User → Bool → Action SessionProfileProperty
  get_skin_textures_property user sign = do
    id ← or_return (uuid_to_id user.uuid)
    forwarded ← forward_textures user
    elim forwarded [
      | err e ↦ pure empty_property
      | ok none ↦ own_textures id user sign
      | ok (some property) ↦ pure (if sign then property else record property { signature = none })
    ]
