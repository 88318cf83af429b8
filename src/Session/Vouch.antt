-- ===== src/Session/Vouch.antt =====
-- About the answers of `SessionHasJoined` of session.go.
use yggdrasil_authentication.Base.{
  ◌≡◌, refl, Bool, true, false, not, Option, none, some, List, [], ◌∷◌, ◌||◌, inl, inr, text_eq,
  text_beq_iff, text, Text, ◌≢◌, take, ◌==◌, nat_eq, ◌++◌, ◌+◌, arith, Bool-cases,
}
use yggdrasil_authentication.Types.{
  Result, ok, err, record_not_found, http_error, errors_new, User, FallbackApiServer,
  SessionProfileResponse, SessionProfileProperty, session_profile, json, no_content,
}
use yggdrasil_authentication.Platform.{Platform, by_player_name}
use yggdrasil_authentication.Action.{App, World, Exit, next, reply, fail, panic}
use yggdrasil_authentication.Profile.Property.{get_skin_textures_property}
use yggdrasil_authentication.Profile.Silent.{get_skin_textures_property-Silent}
use yggdrasil_authentication.Model.Ids.{make_null_string, uuid_to_id}
use yggdrasil_authentication.Model.Names.{make_transient_user}
use yggdrasil_authentication.Fallback.{first_answer}
use yggdrasil_authentication.Fallback.Order.{first_answer-Continues}
use yggdrasil_authentication.Session.Elsewhere.{ask_joined-Continues}
use yggdrasil_authentication.Session.{
  ask_joined, has_joined_elsewhere, has_joined_failed, session_has_joined, full_profile,
}

module _ ⦃P : Platform⦄ (app : App P) where
  -- Every fallback server denies users that are unknown here.
  pub data AllDeny : List FallbackApiServer → Type 0 where
    no_servers : AllDeny []
    denies :
        {server : FallbackApiServer} {servers : List FallbackApiServer}
        → server.deny_unknown_users ≡ true
        → AllDeny servers
        → AllDeny (server ∷ servers)

  nobody_answers :
      {servers : List FallbackApiServer} (player_name server_id : Text) (w : World P)
      → AllDeny servers
      → first_answer (ask_joined app false player_name server_id) servers w ≡ (next none, w)
  unfolding first_answer ask_joined
  nobody_answers player_name server_id w no_servers = refl
  nobody_answers player_name server_id w (denies deny rest) =
      ground (arith, deny, nobody_answers player_name server_id w rest)

  -- If no user has a player name and every fallback server denies unknown users, the game server is
  -- told 403, and nothing is asked of any fallback server: the state is as it was.
  pub has_joined_denies_unknown :
      (player_name server_id : Text) (w : World P)
      → P.first_user (by_player_name player_name) w.db ≡ err record_not_found
      → AllDeny app.config.fallback_api_servers
      → session_has_joined app player_name server_id w ≡ (reply (no_content 403), w)
  unfolding session_has_joined has_joined_elsewhere
  has_joined_denies_unknown player_name server_id w unknown deny =
      ground (arith, unknown, nobody_answers player_name server_id w deny)

  -- What the loop over the fallback servers replies is never a profile of its own making.
  elsewhere_no_profile :
      (known : Bool) (player_name server_id : Text) (w w' : World P) (p : SessionProfileResponse)
      → has_joined_elsewhere app known player_name server_id w
        ≢ (reply (json 200 (session_profile p)), w')
  unfolding has_joined_elsewhere
  elsewhere_no_profile known player_name server_id w w' p = by_answer (
      first_answer-Continues _ (ask_joined-Continues app known player_name server_id)
        app.config.fallback_api_servers w)
    where
      by_answer :
          (a : Option (Text × Text)) × (w1 : World P) × (first_answer
                (ask_joined app known player_name server_id)
                app.config.fallback_api_servers
                w
              ≡ (next a, w1))
          → has_joined_elsewhere app known player_name server_id w
            ≢ (reply (json 200 (session_profile p)), w')
      by_answer (none, w1, e) h = ground (arith, e, h)
      by_answer (some (content_type, body), w1, e) h = ground (arith, e, h)

  failed_no_profile :
      (player_name server_id : Text) (w w' : World P) (p : SessionProfileResponse)
      → has_joined_failed app player_name server_id w ≢ (reply (json 200 (session_profile p)), w')
  unfolding has_joined_failed make_transient_user
  failed_no_profile player_name server_id w w' p h = by_id _ refl
    where
      by_id :
          (id : Result Text)
          → P.uuid_from_bytes
              (take 16 (P.blake3_sum512 (text "uuid" ++ (player_name ++ app.key_b3_sum512))))
            ≡ id
          → ⊥
      by_id (err e) i = ground (arith, i, h)
      by_id (ok id) i = ground (
        arith,
        i,
        h,
        elsewhere_no_profile false player_name server_id (record w { moment = w.moment + 1 + 1 }) w'
            p,
      )

  -- The profile is the user's: the user's identifier and name, and the user's textures, signed.
  pub record IsProfileOf (user : User) (p : SessionProfileResponse) (w w' : World P) : Type 0 where
    pub property : SessionProfileProperty
    pub id : uuid_to_id user.uuid ≡ ok p.id
    pub name : p.name ≡ user.player_name
    pub properties : p.properties ≡ property ∷ []
    pub textures : get_skin_textures_property app user true w ≡ (next property, w')

  -- What `SessionHasJoined` replies to a game server that asks about the user's own join.
  profile_of :
      (player_name server_id : Text) (w w' : World P) (p : SessionProfileResponse) (user : User)
      → P.first_user (by_player_name player_name) w.db ≡ ok user
      → not user.server_id.valid || not (server_id == user.server_id.string) ≡ false
      → session_has_joined app player_name server_id w ≡ (reply (json 200 (session_profile p)), w')
      → IsProfileOf user p w w'
  unfolding session_has_joined full_profile
  profile_of player_name server_id w w' p user f same h = by_id _ refl
    where
      by_property :
          (id : Text) (e : Exit SessionProfileProperty) (w1 : World P)
          → uuid_to_id user.uuid ≡ ok id
          → get_skin_textures_property app user true w ≡ (e, w1)
          → IsProfileOf user p w w'
      by_property id (next property) w1 i t = record {
        property = property;
        id = ground (arith, f, same, i, t, h);
        name = ground (arith, f, same, i, t, h);
        properties = ground (arith, f, same, i, t, h);
        textures = ground (arith, f, same, i, t, h);
      }
      by_property id (reply r) w1 i t =
          absurd (ground (arith, t, get_skin_textures_property-Silent app user true w))
      by_property id (fail e) w1 i t = absurd (ground (arith, f, same, i, t, h))
      by_property id panic w1 i t = absurd (ground (arith, f, same, i, t, h))

      by_id : (id : Result Text) → uuid_to_id user.uuid ≡ id → IsProfileOf user p w w'
      by_id (err e) i = absurd (ground (arith, f, same, i, h))
      by_id (ok id) i = by_property id _ _ i refl

  -- The user with the player name, who has joined the game server, and whose profile it is told.
  abbrev pub Vouched : Text → Text → World P → World P → SessionProfileResponse → Type 0
  Vouched player_name server_id w w' p =
      (user : User) × (P.first_user (by_player_name player_name) w.db ≡ ok user)
      × (user.server_id ≡ make_null_string (some server_id))
      × IsProfileOf user p w w'

  vouches_row :
      (player_name server_id : Text) (w w' : World P) (p : SessionProfileResponse) (user : User)
      → P.first_user (by_player_name player_name) w.db ≡ ok user
      → session_has_joined app player_name server_id w ≡ (reply (json 200 (session_profile p)), w')
      → Vouched player_name server_id w w' p
  unfolding session_has_joined
  vouches_row player_name server_id w w' p user f h =
      elim (Bool-cases (not user.server_id.valid || not (server_id == user.server_id.string))) [
        | inr same ↦ (
          user,
          f,
          ground (arith, same, text_beq_iff server_id user.server_id.string),
          profile_of player_name server_id w w' p user f same h,
        )
        | inl other ↦
            absurd
              (elsewhere_no_profile true player_name server_id w w' p (ground (arith, f, other, h)))
      ]

  -- A game server is told a profile of a player (and not passed on what a fallback server says) only
  -- if there is a user with that player name, the server id of the user's last join is the one that
  -- the game server asks about, and the profile has the user's identifier and name, and as its one
  -- property the textures that `GetSkinTexturesProperty` makes for the user with a signature.
  pub has_joined_vouches :
      (player_name server_id : Text) (w w' : World P) (p : SessionProfileResponse)
      → session_has_joined app player_name server_id w ≡ (reply (json 200 (session_profile p)), w')
      → (user : User) × (P.first_user (by_player_name player_name) w.db ≡ ok user)
        × (user.server_id ≡ make_null_string (some server_id))
        × IsProfileOf user p w w'
  unfolding session_has_joined
  has_joined_vouches player_name server_id w w' p h = by_found _ refl
    where
      by_found :
          (found : Result User)
          → P.first_user (by_player_name player_name) w.db ≡ found
          → Vouched player_name server_id w w' p
      by_found (ok user) f = vouches_row player_name server_id w w' p user f h
      by_found (err record_not_found) f =
          absurd (elsewhere_no_profile false player_name server_id w w' p (rw f at h))
      by_found (err (http_error code message)) f =
          absurd (failed_no_profile player_name server_id w w' p (rw f at h))
      by_found (err (errors_new s)) f =
          absurd (failed_no_profile player_name server_id w w' p (rw f at h))
