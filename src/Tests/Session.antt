-- ===== src/Tests/Session.antt =====
-- The session and cache theorems, at a concrete server.
use yggdrasil_authentication.Base.{
  length, arith, ◌==◌, text_eq, ◌≡◌, refl, true, false, some, [], ◌∷◌, text, text_beq, Text,
}
use yggdrasil_authentication.Types.{
  player_name_to_uuid, ok, User, Client, stale_policy_deny, SessionProfileResponse,
  SessionProfileProperty, session_profile, FallbackApiServer, json, no_content,
}
use yggdrasil_authentication.Base.Int.{pos}
use yggdrasil_authentication.Platform.{by_uuid, by_player_name, CachedResponse}
use yggdrasil_authentication.Action.{App, World, Exit, next, reply}
use yggdrasil_authentication.Model.Ids.{id_to_uuid, make_null_string, uuid_to_id, remove_dashes}
use yggdrasil_authentication.Model.Tokens.{get_client, client_of_claims, is_stale, duration_seconds}
use yggdrasil_authentication.Model.Tokens.Lookup.{Accepts}
use yggdrasil_authentication.Model.Tokens.Fresh.{claims_at}
use yggdrasil_authentication.Fallback.{cached_get}
use yggdrasil_authentication.Fallback.Cache.{Answered, Genuine, cached_get-Genuine}
use yggdrasil_authentication.Profile.{
  choose_file_for_user, default_texture, get_default_skin_texture, get_default_cape_texture,
  get_fallback_skin_textures_property,
}
use yggdrasil_authentication.Profile.Property.{
  get_skin_textures_property, own_textures, encode_textures, sign_textures, choose_skin,
  choose_cape, forward_textures,
}
use yggdrasil_authentication.Session.{
  session_profile_by_id, SessionJoinRequest, session_join, session_has_joined, full_profile,
}
use yggdrasil_authentication.Session.Join.{joined, join-has_joined}
use yggdrasil_authentication.Session.Vouch.{IsProfileOf, has_joined_vouches}
use yggdrasil_authentication.Model.Ids.Roundtrip.{NoDash}
use yggdrasil_authentication.Account.{account_player_name_to_id, account_player_names_to_ids}
use yggdrasil_authentication.Account.Batch.{
  one_by_one, batch_answer, account_player_names_to_ids-one_by_one,
}
use yggdrasil_authentication.Account.Lookup.{account_player_name_to_id-session_profile_by_id}
use yggdrasil_authentication.Tests.Memory.{platform, encode}
use yggdrasil_authentication.Tests.MemoryLaws.{cache_laws, user_laws}
use yggdrasil_authentication.Tests.Sample.{app, config, steve, launcher, logged_in, state}

abbrev join_request : SessionJoinRequest
join_request = record {
  access_token = encode (claims_at app launcher logged_in);
  selected_profile = [];
  server_id = text "server";
}

abbrev run_join : Exit ⊥ × World platform
run_join = session_join app (ok join_request) logged_in

run_join_succeeds : run_join ≡ (reply (no_content 204), run_join.1)
unfolding session_join get_client client_of_claims is_stale duration_seconds text text_beq
run_join_succeeds = refl

join-has_joined_example :
    (client : Client) × (user : User) × Accepts app join_request.access_token stale_policy_deny
      logged_in client user
    × ((later after : World platform) (property : SessionProfileProperty) (id : Text)
        → later.db ≡ run_join.1.db
        → uuid_to_id user.uuid ≡ ok id
        → get_skin_textures_property app (joined app (text "server") user) true later
          ≡ (next property, after)
        → session_has_joined app user.player_name (text "server") later ≡ (
          reply (
              json 200 (
                session_profile
                  (record { id = id; name = user.player_name; properties = property ∷ [] }))),
          after,
        ))
join-has_joined_example =
    join-has_joined app user_laws join_request logged_in run_join.1 run_join_succeeds

-- The state after the join.
abbrev waiting : World platform
waiting = state (some (joined app (text "server") steve)) (some launcher)

abbrev run_has_joined : Exit ⊥ × World platform
run_has_joined = session_has_joined app (text "Steve") (text "server") waiting

abbrev profile_body : Exit ⊥ → SessionProfileResponse
profile_body (reply (json code (session_profile p))) = p
profile_body _ = record { id = []; name = []; properties = [] }

run_has_joined_succeeds :
    run_has_joined
    ≡ (reply (json 200 (session_profile (profile_body run_has_joined.0))), run_has_joined.1)
unfolding session_has_joined full_profile get_skin_textures_property own_textures encode_textures
    sign_textures choose_skin choose_cape forward_textures get_fallback_skin_textures_property
    get_default_skin_texture get_default_cape_texture default_texture choose_file_for_user
    uuid_to_id remove_dashes text text_beq
run_has_joined_succeeds = refl

has_joined_vouches_example :
    (user : User) × (platform.first_user (by_player_name (text "Steve")) waiting.db ≡ ok user)
    × (user.server_id ≡ make_null_string (some (text "server")))
    × IsProfileOf app user (profile_body run_has_joined.0) waiting run_has_joined.1
has_joined_vouches_example =
    has_joined_vouches app (text "Steve") (text "server") waiting run_has_joined.1
      (profile_body run_has_joined.0) run_has_joined_succeeds

abbrev mojang : FallbackApiServer
mojang = record {
  nickname = text "Mojang";
  session_url = text "https://sessionserver.mojang.com";
  account_url = text "https://api.mojang.com";
  services_url = text "https://api.minecraftservices.com";
  skin_domains = text "textures.minecraft.net" ∷ [];
  cache_ttl_seconds = pos 60;
  deny_unknown_users = true;
}

abbrev with_fallback : App platform
with_fallback = record app { config = record config { fallback_api_servers = mojang ∷ [] } }

-- Steve's game client has joined one game server, and another one asks about him.
abbrev run_elsewhere : Exit ⊥ × World platform
run_elsewhere = session_has_joined with_fallback (text "Steve") (text "other") waiting

abbrev url : Text
url = text "https://api.mojang.com/profile"

-- The state after one answer was stored.
abbrev cached : World platform
cached = (cached_get url (pos 60) waiting).1

nothing_cached : Genuine waiting
nothing_cached m url found h = cc

cached_get-Genuine_example :
    Genuine cached
    × ((r : CachedResponse)
        → (cached_get url (pos 60) waiting).0 ≡ next (ok r)
        → Answered cached.moment url r)
cached_get-Genuine_example = cached_get-Genuine cache_laws url (pos 60) waiting nothing_cached

abbrev run_property : Exit SessionProfileProperty × World platform
run_property = get_skin_textures_property app steve false waiting

abbrev property_of : Exit SessionProfileProperty → SessionProfileProperty
property_of (next p) = p
property_of _ = record { name = []; value = []; signature = some [] }

run_property_succeeds : run_property ≡ (next (property_of run_property.0), run_property.1)
unfolding get_skin_textures_property own_textures encode_textures sign_textures choose_skin
    choose_cape forward_textures get_fallback_skin_textures_property get_default_skin_texture
    get_default_cape_texture default_texture choose_file_for_user uuid_to_id remove_dashes text
    text_beq
run_property_succeeds = refl

abbrev steve_id : Text
steve_id = text "12345678123412341234123456789abc"

steve_id-NoDash : NoDash steve_id
unfolding text
steve_id-NoDash = omega arith

steve_named : platform.first_user (by_player_name steve.player_name) logged_in.db ≡ ok steve
unfolding text text_beq
steve_named = refl

steve_identified : platform.first_user (by_uuid steve.uuid) logged_in.db ≡ ok steve
unfolding text text_beq
steve_identified = refl

steve_uuid : id_to_uuid steve_id ≡ ok steve.uuid
unfolding id_to_uuid text
steve_uuid = refl

steve_id_size : length steve_id ≡ 32
unfolding text
steve_id_size = refl

abbrev steve_property : Exit SessionProfileProperty × World platform
steve_property = get_skin_textures_property app steve (text "true" == text "false") logged_in

steve_property_made : steve_property ≡ (next (property_of steve_property.0), steve_property.1)
unfolding get_skin_textures_property own_textures encode_textures sign_textures choose_skin
    choose_cape forward_textures get_fallback_skin_textures_property get_default_skin_texture
    get_default_cape_texture default_texture choose_file_for_user uuid_to_id remove_dashes text
    text_beq
steve_property_made = refl

account_player_name_to_id-session_profile_by_id_example :
    (account_player_name_to_id app (text "/users") steve.player_name logged_in ≡ (
      reply (json 200 (player_name_to_uuid (record { name = steve.player_name; id = steve_id }))),
      logged_in,
    ))
    × (session_profile_by_id app steve_id (text "true") logged_in ≡ (
      reply (
          json 200 (
            session_profile (record {
              id = steve_id;
              name = steve.player_name;
              properties = property_of steve_property.0 ∷ [];
            }))),
      steve_property.1,
    ))
account_player_name_to_id-session_profile_by_id_example =
    account_player_name_to_id-session_profile_by_id app (text "/users") steve_id (text "true") steve
      logged_in steve_property.1 (property_of steve_property.0) steve_id_size steve_id-NoDash
      steve_uuid steve_named steve_identified steve_property_made

-- A request for the names of a player and of nobody.
account_player_names_to_ids-one_by_one_example :
    account_player_names_to_ids app (ok (steve.player_name ∷ text "nobody" ∷ [])) logged_in ≡ (
      batch_answer
          (one_by_one app (text "/users") (steve.player_name ∷ text "nobody" ∷ []) logged_in),
      logged_in,
    )
account_player_names_to_ids-one_by_one_example =
    account_player_names_to_ids-one_by_one app (text "/users")
      (steve.player_name ∷ text "nobody" ∷ []) logged_in refl
