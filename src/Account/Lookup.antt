-- ===== src/Account/Lookup.antt =====
-- The handlers of account.go and session.go on one player.
use yggdrasil_authentication.Base.{◌≡◌, ◌==◌, [], ◌∷◌, text_eq, Text, text, length, arith}
use yggdrasil_authentication.Types.{
  ok, User, json, player_name_to_uuid, session_profile, SessionProfileProperty,
}
use yggdrasil_authentication.Platform.{Platform, by_player_name, by_uuid}
use yggdrasil_authentication.Action.{App, World, next, reply}
use yggdrasil_authentication.Model.Ids.{uuid_to_id, id_to_uuid}
use yggdrasil_authentication.Model.Ids.Roundtrip.{NoDash, uuid_to_id-id_to_uuid}
use yggdrasil_authentication.Account.{uuid_of_user, account_player_name_to_id}
use yggdrasil_authentication.Profile.Property.{get_skin_textures_property}
use yggdrasil_authentication.Session.{full_profile, find_user, session_profile_by_id}

module _ ⦃P : Platform⦄ (app : App P) where
  -- For a player whose UUID is that of an identifier of 32 bytes without dashes, the account server
  -- answers the player's name with that identifier and leaves the state alone; and the session server
  -- answers that identifier with the profile of the same player, with the identifier, the name, and
  -- the textures, signed if the query parameter is "false", once those can be made.
  pub account_player_name_to_id-session_profile_by_id :
      (path id unsigned : Text) (user : User) (w after : World P)
      (property : SessionProfileProperty)
      → length id ≡ 32
      → NoDash id
      → id_to_uuid id ≡ ok user.uuid
      → P.first_user (by_player_name user.player_name) w.db ≡ ok user
      → P.first_user (by_uuid user.uuid) w.db ≡ ok user
      → get_skin_textures_property app user (unsigned == text "false") w ≡ (next property, after)
      → (account_player_name_to_id app path user.player_name w ≡ (
        reply (json 200 (player_name_to_uuid (record { name = user.player_name; id = id }))),
        w,
      ))
        × (session_profile_by_id app id unsigned w ≡ (
          reply (
              json 200 (
                session_profile
                  (record { id = id; name = user.player_name; properties = property ∷ [] }))),
          after,
        ))
  unfolding account_player_name_to_id uuid_of_user session_profile_by_id find_user full_profile
  account_player_name_to_id-session_profile_by_id path id unsigned user w after property size clean
        uuid named identified textures =
      let (u, made, _, back) = uuid_to_id-id_to_uuid id size clean in
      let same : uuid_to_id user.uuid ≡ ok id = ground (arith, made, uuid, back) in
      (ground (arith, named, same), ground (arith, uuid, identified, same, textures))
