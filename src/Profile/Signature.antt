-- ===== src/Profile/Signature.antt =====
-- About the signature of `GetSkinTexturesProperty` of common.go.
use yggdrasil_authentication.Base.{◌≡◌, refl, false, Option, none, some, Text, arith}
use yggdrasil_authentication.Types.{
  Result, ok, err, User, SessionProfileProperty, TextureMap, Texture,
}
use yggdrasil_authentication.Platform.{Platform}
use yggdrasil_authentication.Action.{App, World, Exit, next, reply, fail, panic}
use yggdrasil_authentication.Model.Ids.{uuid_to_id}
use yggdrasil_authentication.Profile.Property.{
  forward_textures, choose_skin, choose_cape, sign_textures, encode_textures, own_textures,
  get_skin_textures_property,
}

module _ ⦃P : Platform⦄ (app : App P) where
  encode_unsigned :
      (id : Text) (user : User) (textures : TextureMap) (w w' : World P)
      (p : SessionProfileProperty)
      → encode_textures app id user false textures w ≡ (next p, w')
      → p.signature ≡ none
  unfolding encode_textures sign_textures
  encode_unsigned id user textures w w' p h = by_value _ refl
    where
      by_value :
          (value : Result Text)
          → P.marshal_textures (record {
            timestamp = P.clock w.moment;
            profile_id = id;
            profile_name = user.player_name;
            textures = textures;
          })
            ≡ value
          → p.signature ≡ none
      by_value (ok value) m = ground (arith, h, m)
      by_value (err e) m = ground (arith, h, m)

  module _ (user : User) (w w' : World P) (p : SessionProfileProperty) where
    own_cape :
        (id : Text) (skin : Option Texture) (w1 : World P)
        → own_textures app id user false w ≡ (next p, w')
        → choose_skin app user w ≡ (next (ok skin), w1)
        → (cape : Exit (Result (Option Texture))) (w2 : World P)
        → choose_cape app user w1 ≡ (cape, w2)
        → p.signature ≡ none
    unfolding own_textures
    own_cape id skin w1 h s (next (ok cape)) w2 c =
        encode_unsigned id user (record { skin = skin; cape = cape }) w2 w' p
          (ground (arith, h, s, c))
    own_cape id skin w1 h s (next (err e)) w2 c = ground (arith, h, s, c)
    own_cape id skin w1 h s (reply r) w2 c = ground (arith, h, s, c)
    own_cape id skin w1 h s (fail e) w2 c = ground (arith, h, s, c)
    own_cape id skin w1 h s panic w2 c = ground (arith, h, s, c)

    own_unsigned :
        (id : Text)
        → own_textures app id user false w ≡ (next p, w')
        → (skin : Exit (Result (Option Texture))) (w1 : World P)
        → choose_skin app user w ≡ (skin, w1)
        → p.signature ≡ none
    unfolding own_textures
    own_unsigned id h (next (ok skin)) w1 s = own_cape id skin w1 h s _ _ refl
    own_unsigned id h (next (err e)) w1 s = ground (arith, h, s)
    own_unsigned id h (reply r) w1 s = ground (arith, h, s)
    own_unsigned id h (fail e) w1 s = ground (arith, h, s)
    own_unsigned id h panic w1 s = ground (arith, h, s)

  module _ (user : User) (w w' : World P) (p : SessionProfileProperty)
      (h : get_skin_textures_property app user false w ≡ (next p, w')) where
    forwarded_unsigned :
        (id : Text)
        → uuid_to_id user.uuid ≡ ok id
        → (e : Exit (Result (Option SessionProfileProperty))) (w1 : World P)
        → forward_textures app user w ≡ (e, w1)
        → p.signature ≡ none
    unfolding get_skin_textures_property
    forwarded_unsigned id i (next (ok none)) w1 f =
        own_unsigned user w1 w' p id (ground (arith, h, i, f)) _ _ refl
    forwarded_unsigned id i (next (ok (some property))) w1 f = ground (arith, h, i, f)
    forwarded_unsigned id i (next (err e)) w1 f = ground (arith, h, i, f)
    forwarded_unsigned id i (reply r) w1 f = ground (arith, h, i, f)
    forwarded_unsigned id i (fail e) w1 f = ground (arith, h, i, f)
    forwarded_unsigned id i panic w1 f = ground (arith, h, i, f)

    unsigned_by_id : (r : Result Text) → uuid_to_id user.uuid ≡ r → p.signature ≡ none
    unfolding get_skin_textures_property
    unsigned_by_id (ok id) i = forwarded_unsigned id i _ _ refl
    unsigned_by_id (err e) i = ground (arith, h, i)

    -- A textures property that was asked for without a signature has none, whether it is that of the
    -- user's own textures or one that a fallback server signed.
    pub get_skin_textures_property_unsigned : p.signature ≡ none
    get_skin_textures_property_unsigned = unsigned_by_id _ refl
