-- ===== src/Services/Keeps.antt =====
-- About the answers of services.go on a user's profile: what they ask of other servers leaves the
-- database alone.
use yggdrasil_authentication.Base.{
  ◌≡◌, refl, Bool, true, false, Option, none, some, List, [], ◌∷◌, ◌++◌, Text, text, arith,
}
use yggdrasil_authentication.Base.Int.{ℤ}
use yggdrasil_authentication.Types.{
  Result, ok, err, User, FallbackApiServer, SessionProfileProperty,
}
use yggdrasil_authentication.Platform.{Platform}
use yggdrasil_authentication.Action.{App, Action, World, Exit, next, reply, fail, panic}
use yggdrasil_authentication.Action.Keeps.{Keeps}
use yggdrasil_authentication.Fallback.{cache_lookup, cached_get, first_answer, get_body}
use yggdrasil_authentication.Profile.{
  fallback_id, ask_id, ask_textures, get_fallback_skin_textures_property,
}
use yggdrasil_authentication.Services.{
  forwarded_skin, get_services_profile_skin, get_services_profile,
}

module _ ⦃P : Platform⦄ where
  abbrev pub whole : P.Db → P.Db
  whole db = db

  cached_get-Keeps : (url : Text) (ttl : ℤ) → Keeps whole (cached_get url ttl)
  unfolding cached_get cache_lookup
  cached_get-Keeps url ttl w = ground arith

  get_body-Keeps :
      (url : Result Text) (suffix : Text) (ttl : ℤ) → Keeps whole (get_body url suffix ttl)
  unfolding get_body
  get_body-Keeps (err e) suffix ttl w = refl
  get_body-Keeps (ok url) suffix ttl w = ground (arith, cached_get-Keeps (url ++ suffix) ttl w)

  first_answer-Keeps :
      {A : Type 0} (ask : FallbackApiServer → Action (Option A)) (servers : List FallbackApiServer)
      → ((server : FallbackApiServer) → Keeps whole (ask server))
      → Keeps whole (first_answer ask servers)
  unfolding first_answer
  first_answer-Keeps ask [] h w = refl
  first_answer-Keeps ask (server ∷ servers) h w =
      ground (arith, h server w, first_answer-Keeps ask servers h (ask server w).1)

  module _ (app : App P) where
    ask_id-Keeps :
        (is_uuid : Bool) (player : Text) (server : FallbackApiServer)
        → Keeps whole (ask_id app is_uuid player server)
    unfolding ask_id
    ask_id-Keeps true player server w = refl
    ask_id-Keeps false player server w = ground (
      arith,
      get_body-Keeps
          (P.url_join_path server.account_url (text "/users/profiles/minecraft/" ∷ player ∷ [])) []
          server.cache_ttl_seconds w,
    )

    ask_textures-Keeps :
        (is_uuid : Bool) (player : Text) (server : FallbackApiServer)
        → Keeps whole (ask_textures app is_uuid player server)
    unfolding ask_textures
    ask_textures-Keeps is_uuid player server w = by_found _ _ refl
      where
        by_found :
            (e : Exit (Option Text)) (w1 : World P)
            → ask_id app is_uuid player server w ≡ (e, w1)
            → (ask_textures app is_uuid player server w).1.db ≡ w.db
        by_found (next (some id)) w1 a = ground (
          arith,
          a,
          ask_id-Keeps is_uuid player server w,
          get_body-Keeps
              (P.url_join_path server.session_url (text "session/minecraft/profile" ∷ id ∷ []))
              (text "?unsigned=false") server.cache_ttl_seconds w1,
        )
        by_found (next none) w1 a = ground (arith, a, ask_id-Keeps is_uuid player server w)
        by_found (reply r) w1 a = ground (arith, a, ask_id-Keeps is_uuid player server w)
        by_found (fail e) w1 a = ground (arith, a, ask_id-Keeps is_uuid player server w)
        by_found panic w1 a = ground (arith, a, ask_id-Keeps is_uuid player server w)

    fallback-Keeps : (user : User) → Keeps whole (get_fallback_skin_textures_property app user)
    unfolding get_fallback_skin_textures_property
    fallback-Keeps user w = by_player _ refl
      where
        by_player :
            (player : Result (Bool × Text))
            → fallback_id app user.fallback_player ≡ player
            → (get_fallback_skin_textures_property app user w).1.db ≡ w.db
        by_player (err e) p = ground (arith, p)
        by_player (ok player) p = ground (
          arith,
          p,
          first_answer-Keeps (ask_textures app player.0 player.1) app.config.fallback_api_servers
              (ask_textures-Keeps player.0 player.1) w,
        )

    forwarded-Keeps :
        (user : User) (property : SessionProfileProperty)
        → Keeps whole (forwarded_skin app user property)
    unfolding forwarded_skin
    forwarded-Keeps user property w = ground arith

    skin-Keeps : (user : User) → Keeps whole (get_services_profile_skin app user)
    unfolding get_services_profile_skin
    skin-Keeps user w = by_fallback _ _ refl
      where
        by_fallback :
            (e : Exit (Result (Option SessionProfileProperty))) (w1 : World P)
            → get_fallback_skin_textures_property app user w ≡ (e, w1)
            → (get_services_profile_skin app user w).1.db ≡ w.db
        by_fallback (next (ok (some p))) w1 f =
            ground (arith, f, fallback-Keeps user w, forwarded-Keeps user p w1)
        by_fallback (next (ok none)) w1 f = ground (arith, f, fallback-Keeps user w)
        by_fallback (next (err e)) w1 f = ground (arith, f, fallback-Keeps user w)
        by_fallback (reply r) w1 f = ground (arith, f, fallback-Keeps user w)
        by_fallback (fail e) w1 f = ground (arith, f, fallback-Keeps user w)
        by_fallback panic w1 f = ground (arith, f, fallback-Keeps user w)

    pub get_services_profile-Keeps : (user : User) → Keeps whole (get_services_profile app user)
    unfolding get_services_profile
    get_services_profile-Keeps user w = ground (arith, skin-Keeps user w)
