-- ===== src/Session/Join.antt =====
-- About `SessionJoin` and `SessionHasJoined` of session.go, one after the other.
use yggdrasil_authentication.Base.{
  ◌≡◌, refl, true, Option, none, some, [], ◌∷◌, text_eq, text_beq_refl, Text, arith, ap,
}
use yggdrasil_authentication.Types.{
  ok, User, Client, stale_policy_deny, session_profile, SessionProfileProperty, json, no_content,
}
use yggdrasil_authentication.Platform.{Platform, by_player_name}
use yggdrasil_authentication.Platform.Laws.{UserLaws}
use yggdrasil_authentication.Action.{App, World, Exit, next, reply, fail, panic}
use yggdrasil_authentication.Model.Ids.{make_null_string, uuid_to_id}
use yggdrasil_authentication.Model.Tokens.{get_client}
use yggdrasil_authentication.Model.Tokens.Lookup.{Accepts, get_client_iff, get_client-Continues}
use yggdrasil_authentication.Profile.Property.{get_skin_textures_property}
use yggdrasil_authentication.Session.{
  SessionJoinRequest, session_join, full_profile, session_has_joined,
}

module _ ⦃P : Platform⦄ (app : App P) where
  -- The user's row after a join, as a query finds it.
  abbrev pub joined : Text → User → User
  joined server_id user = record user {
    server_id = make_null_string (some server_id);
    clients = [];
  }

  -- What a successful join did.
  pub record Joined (req : SessionJoinRequest) (w w' : World P) : Type 0 where
    pub client : Client
    pub user : User
    pub before : World P
    pub authorized :
        get_client app req.access_token stale_policy_deny w ≡ (next (some (client, user)), before)
    pub saved :
        P.save_user (record user { server_id = make_null_string (some req.server_id) }) before.db
        ≡ (none, w'.db)

  join_steps :
      (req : SessionJoinRequest) (w w' : World P)
      → session_join app (ok req) w ≡ (reply (no_content 204), w')
      → (e : Exit (Option (Client × User))) (before : World P)
      → get_client app req.access_token stale_policy_deny w ≡ (e, before)
      → Joined req w w'
  unfolding session_join
  join_steps req w w' h panic before g = ground (arith, g)
  join_steps req w w' h (fail x) before g = absurd (get_client-Continues app _ _ w before _ g).0
  join_steps req w w' h (reply x) before g = absurd (get_client-Continues app _ _ w before _ g).0
  join_steps req w w' h (next none) before g = ground (arith, g)
  join_steps req w w' h (next (some (c, u))) before g = record {
    client = c;
    user = u;
    before = before;
    authorized = g;
    saved = ground (arith, g);
  }

  -- The answer to a game server about a user whose row has its server id: the user's full profile.
  has_joined_found :
      (user : User) (server_id : Text) (w after : World P) (property : SessionProfileProperty)
      (id : Text)
      → P.first_user (by_player_name user.player_name) w.db ≡ ok user
      → user.server_id ≡ make_null_string (some server_id)
      → uuid_to_id user.uuid ≡ ok id
      → get_skin_textures_property app user true w ≡ (next property, after)
      → session_has_joined app user.player_name server_id w ≡ (
        reply (
            json 200 (
              session_profile
                (record { id = id; name = user.player_name; properties = property ∷ [] }))),
        after,
      )
  unfolding session_has_joined full_profile
  has_joined_found user server_id w after property id f s i t =
      ground (arith, f, s, i, t, text_beq_refl server_id)

  -- If a join with an access token is answered 204, then the token was accepted, and a game server
  -- that asks about the player's name and that server id, while the database is as the join left
  -- it, is answered 200 with the player's id, name and signed textures, if those can be made; it is
  -- not left to a fallback server whether the player joined. This rests on the documented behaviour
  -- of GORM.
  pub join-has_joined :
      (laws : UserLaws P) (req : SessionJoinRequest) (w w' : World P)
      → session_join app (ok req) w ≡ (reply (no_content 204), w')
      → (client : Client) × (user : User) × Accepts app req.access_token stale_policy_deny w client
          user
        × ((later after : World P) (property : SessionProfileProperty) (id : Text)
            → later.db ≡ w'.db
            → uuid_to_id user.uuid ≡ ok id
            → get_skin_textures_property app (joined req.server_id user) true later
              ≡ (next property, after)
            → session_has_joined app user.player_name req.server_id later ≡ (
              reply (
                  json 200 (
                    session_profile
                      (record { id = id; name = user.player_name; properties = property ∷ [] }))),
              after,
            ))
  join-has_joined laws req w w' h =
      let s = join_steps req w w' h _ _ refl in
      let same_db = (get_client-Continues app _ _ w s.before _ s.authorized).1 in
      let accepted =
        (get_client_iff app req.access_token stale_policy_deny w s.client s.user).0
          (ap (λ (p : Exit (Option (Client × User)) × World P). p.0) s.authorized) in
      (
        s.client,
        s.user,
        accepted,
        λ later after property id same i t.
            has_joined_found (joined req.server_id s.user) req.server_id later after property id
              (rw same (
                laws.save_user_finds_name _ s.client s.user
                  (record s.user { server_id = make_null_string (some req.server_id) }) w.db w'.db
                  accepted.found refl (rw same_db at s.saved)))
              refl i t,
      )
