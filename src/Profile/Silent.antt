-- ===== src/Profile/Silent.antt =====
-- About the textures of profiles: what looks them up never answers the request itself.
use yggdrasil_authentication.Base.{
  ◌≡◌, refl, Bool, true, false, Option, none, some, List, [], ◌∷◌, ◌++◌, Text, text, arith,
}
use yggdrasil_authentication.Base.Int.{ℤ}
use yggdrasil_authentication.Types.{Result, ok, err, User, FallbackApiServer, TextureMap, Texture}
use yggdrasil_authentication.Platform.{Platform}
use yggdrasil_authentication.Action.{App, Action, World, Exit, next, reply, fail, panic}
use yggdrasil_authentication.Fallback.{cache_lookup, cached_get, first_answer, get_body}
use yggdrasil_authentication.Model.Ids.{uuid_to_id}
use yggdrasil_authentication.Profile.{
  fallback_id, ask_id, ask_textures, get_fallback_skin_textures_property, choose_file_for_user,
  default_texture, get_default_skin_texture, get_default_cape_texture,
}
use yggdrasil_authentication.Profile.Property.{
  forward_textures, choose_skin, choose_cape, sign_textures, encode_textures, own_textures,
  get_skin_textures_property,
}

abbrev pub is_reply {ℓ} : {A : Type ℓ} → Exit A → Bool
is_reply (reply r) = true
is_reply _ = false

module _ ⦃P : Platform⦄ where
  -- The action goes on, or returns an error, or panics.
  abbrev pub Silent {ℓ} : {A : Type ℓ} → Action A → Type 0
  Silent m = (w : World P) → is_reply (m w).0 ≡ false

  cached_get-Silent : (url : Text) (ttl : ℤ) → Silent (cached_get url ttl)
  unfolding cached_get cache_lookup
  cached_get-Silent url ttl w = ground arith

  get_body-Silent : (url : Result Text) (suffix : Text) (ttl : ℤ) → Silent (get_body url suffix ttl)
  unfolding get_body
  get_body-Silent (err e) suffix ttl w = refl
  get_body-Silent (ok url) suffix ttl w = ground (arith, cached_get-Silent (url ++ suffix) ttl w)

  first_answer-Silent {ℓ} :
      {A : Type ℓ} (ask : FallbackApiServer → Action (Option A))
      → ((server : FallbackApiServer) → Silent (ask server))
      → (servers : List FallbackApiServer) → Silent (first_answer ask servers)
  unfolding first_answer
  first_answer-Silent ask silent [] w = refl
  first_answer-Silent ask silent (server ∷ servers) w =
      ground (arith, silent server w, first_answer-Silent ask silent servers (ask server w).1)

  module _ (app : App P) where
    ask_id-Silent :
        (is_uuid : Bool) (player : Text) (server : FallbackApiServer)
        → Silent (ask_id app is_uuid player server)
    unfolding ask_id
    ask_id-Silent true player server w = refl
    ask_id-Silent false player server w = ground (
      arith,
      get_body-Silent
          (P.url_join_path server.account_url (text "/users/profiles/minecraft/" ∷ player ∷ [])) []
          server.cache_ttl_seconds w,
    )

    ask_textures-Silent :
        (is_uuid : Bool) (player : Text) (server : FallbackApiServer)
        → Silent (ask_textures app is_uuid player server)
    unfolding ask_textures
    ask_textures-Silent is_uuid player server w = by_id _ _ refl
      where
        by_id :
            (e : Exit (Option Text)) (w1 : World P)
            → ask_id app is_uuid player server w ≡ (e, w1)
            → is_reply (ask_textures app is_uuid player server w).0 ≡ false
        by_id (next (some id)) w1 h = ground (
          arith,
          h,
          get_body-Silent
              (P.url_join_path server.session_url (text "session/minecraft/profile" ∷ id ∷ []))
              (text "?unsigned=false") server.cache_ttl_seconds w1,
        )
        by_id (next none) w1 h = ground (arith, h)
        by_id (reply r) w1 h = absurd (ground (arith, h, ask_id-Silent is_uuid player server w))
        by_id (fail x) w1 h = ground (arith, h)
        by_id panic w1 h = ground (arith, h)

    get_fallback-Silent : (user : User) → Silent (get_fallback_skin_textures_property app user)
    unfolding get_fallback_skin_textures_property
    get_fallback-Silent user w = by_player _ refl
      where
        by_player :
            (player : Result (Bool × Text))
            → fallback_id app user.fallback_player ≡ player
            → is_reply (get_fallback_skin_textures_property app user w).0 ≡ false
        by_player (err x) f = ground (arith, f)
        by_player (ok (is_uuid, player)) f = ground (
          arith,
          f,
          first_answer-Silent (ask_textures app is_uuid player) (ask_textures-Silent is_uuid player)
              app.config.fallback_api_servers w,
        )

    choose_file_for_user-Silent :
        (user : User) (glob : Text) → Silent (choose_file_for_user app user glob)
    unfolding choose_file_for_user
    choose_file_for_user-Silent user glob w = ground arith

    default_texture-Silent : (kind : Text) (user : User) → Silent (default_texture app kind user)
    unfolding default_texture
    default_texture-Silent kind user w = ground (
      arith,
      choose_file_for_user-Silent user
          (P.path_join (P.path_join app.config.state_directory (text "default-" ++ kind))
            (text "*.png"))
          w,
    )

    choose_skin-Silent : (user : User) → Silent (choose_skin app user)
    unfolding choose_skin get_default_skin_texture
    choose_skin-Silent user w = ground (arith, default_texture-Silent (text "skin") user w)

    choose_cape-Silent : (user : User) → Silent (choose_cape app user)
    unfolding choose_cape get_default_cape_texture
    choose_cape-Silent user w = ground (arith, default_texture-Silent (text "cape") user w)

    encode_textures-Silent :
        (id : Text) (user : User) (sign : Bool) (textures : TextureMap)
        → Silent (encode_textures app id user sign textures)
    unfolding encode_textures sign_textures
    encode_textures-Silent id user false textures w = ground arith
    encode_textures-Silent id user true textures w = ground arith

    own_textures-Silent :
        (id : Text) (user : User) (sign : Bool) → Silent (own_textures app id user sign)
    unfolding own_textures
    own_textures-Silent id user sign w = by_skin _ _ refl
      where
        by_cape :
            (skin : Option Texture) (w1 : World P) (e : Exit (Result (Option Texture)))
            (w2 : World P)
            → choose_skin app user w ≡ (next (ok skin), w1)
            → choose_cape app user w1 ≡ (e, w2)
            → is_reply (own_textures app id user sign w).0 ≡ false
        by_cape skin w1 (next (ok cape)) w2 s c = ground (
          arith,
          s,
          c,
          encode_textures-Silent id user sign (record { skin = skin; cape = cape }) w2,
        )
        by_cape skin w1 (next (err x)) w2 s c = ground (arith, s, c)
        by_cape skin w1 (reply r) w2 s c = absurd (ground (arith, c, choose_cape-Silent user w1))
        by_cape skin w1 (fail x) w2 s c = ground (arith, s, c)
        by_cape skin w1 panic w2 s c = ground (arith, s, c)

        by_skin :
            (e : Exit (Result (Option Texture))) (w1 : World P)
            → choose_skin app user w ≡ (e, w1)
            → is_reply (own_textures app id user sign w).0 ≡ false
        by_skin (next (ok skin)) w1 s = by_cape skin w1 _ _ s refl
        by_skin (next (err x)) w1 s = ground (arith, s)
        by_skin (reply r) w1 s = absurd (ground (arith, s, choose_skin-Silent user w))
        by_skin (fail x) w1 s = ground (arith, s)
        by_skin panic w1 s = ground (arith, s)

    pub get_skin_textures_property-Silent :
        (user : User) (sign : Bool) → Silent (get_skin_textures_property app user sign)
    unfolding get_skin_textures_property forward_textures
    get_skin_textures_property-Silent user sign w = by_id _ refl
      where
        by_id :
            (id : Result Text)
            → uuid_to_id user.uuid ≡ id
            → is_reply (get_skin_textures_property app user sign w).0 ≡ false
        by_id (err x) i = ground (arith, i)
        by_id (ok id) i = ground (
          arith,
          i,
          get_fallback-Silent user w,
          own_textures-Silent id user sign w,
          own_textures-Silent id user sign (get_fallback_skin_textures_property app user w).1,
        )
