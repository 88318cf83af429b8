-- ===== src/Challenge/Verified.antt =====
-- About `validateChallenge` of front.go: it accepts no skin without the challenge.
use yggdrasil_authentication.Base.{
  ℕ, ◌+◌, ◌≡◌, refl, ap, ◌∙◌, ◌++◌, true, text_eq, Text, text, arith,
}
use yggdrasil_authentication.Types.{
  Result, ok, err, SessionProfileResponse, PlayerNameToUuidResponse,
}
use yggdrasil_authentication.Platform.{Platform}
use yggdrasil_authentication.Model.Ids.{id_to_uuid}
use yggdrasil_authentication.Action.{
  App, Action, World, Exit, next, reply, fail, panic, ◌>>=◌, ◌>>◌, pure, or_return,
}
use yggdrasil_authentication.Challenge.{
  ProxiedAccountDetails, get_challenge, request_url, invalid_session_url, get_ok, verify_skin,
  validate_challenge,
}
use yggdrasil_authentication.Challenge.Shown.{IsAnswered, IsShown, get_ok_next, verify_skin_next}

module _ ⦃P : Platform⦄ (app : App P) where
  -- The requests of `validateChallenge` for the player's ID and for the profile of an ID.
  abbrev pub account_request : Text → Result Text
  account_request username =
      request_url app (λ e. e) app.config.registration_existing_player.account_url
        (text "users/profiles/minecraft/" ++ username)

  abbrev pub session_request : Text → Result Text
  session_request id =
      request_url app (invalid_session_url app) app.config.registration_existing_player.session_url
        (text "session/minecraft/profile/" ++ id)

  -- The account server answered with an ID, the session server then answered with a profile for that
  -- ID, of the name and the ID that are accepted, and then the skin was served.
  pub record IsVerified (username token : Text) (details : ProxiedAccountDetails) (moment : ℕ)
      : Type 0 where
    pub player : Text
    pub id_res : PlayerNameToUuidResponse
    pub body : Text
    pub profile : SessionProfileResponse
    pub known : IsAnswered moment (account_request username) player
    pub player_decoded : P.decode_player player ≡ ok id_res
    pub sent : IsAnswered (moment + 1) (session_request id_res.id) body
    pub profile_decoded : P.decode_profile body ≡ ok profile
    pub name : profile.name ≡ details.username
    pub uuid : id_to_uuid profile.id ≡ ok details.uuid
    pub shown : IsShown (moment + 2) (get_challenge app username token) profile.properties

  module _ (username token : Text) (details : ProxiedAccountDetails) (w w' : World P)
      (required : app.config.registration_existing_player.require_skin_verification ≡ true)
      (h : validate_challenge app username token w ≡ (next details, w')) where
    -- The part of it that follows the profile's body.
    Verified : World P → Text → Type 0
    Verified w2 body =
        (profile : SessionProfileResponse) × (P.decode_profile body ≡ ok profile)
        × (profile.name ≡ details.username)
        × (id_to_uuid profile.id ≡ ok details.uuid)
        × IsShown w2.moment (get_challenge app username token) profile.properties

    -- What is left of the run after the session server has answered.
    rest : Text → Action ProxiedAccountDetails
    rest body = do
      profile_res ← or_return (P.decode_profile body)
      account_uuid ← or_return (id_to_uuid profile_res.id)
      verify_skin app (get_challenge app username token) profile_res.properties
      pure (record { username = profile_res.name; uuid = account_uuid })

    by_skin :
        (w2 : World P) (body : Text) (profile : SessionProfileResponse) (uuid : Text)
        (e : Exit (Unit {0})) (w3 : World P)
        → rest body w2 ≡ (next details, w')
        → P.decode_profile body ≡ ok profile
        → id_to_uuid profile.id ≡ ok uuid
        → verify_skin app (get_challenge app username token) profile.properties w2 ≡ (e, w3)
        → Verified w2 body
    unfolding rest Verified
    by_skin w2 body profile uuid (next u) w3 r p i v = (
      profile,
      p,
      ground (arith, r, p, i, v),
      i ∙ ap ok (ground (arith, r, p, i, v)),
      verify_skin_next app (get_challenge app username token) profile.properties w2 w3 v,
    )
    by_skin w2 body profile uuid (reply a) w3 r p i v = absurd (ground (arith, r, p, i, v))
    by_skin w2 body profile uuid (fail e) w3 r p i v = absurd (ground (arith, r, p, i, v))
    by_skin w2 body profile uuid panic w3 r p i v = absurd (ground (arith, r, p, i, v))

    by_uuid :
        (w2 : World P) (body : Text) (profile : SessionProfileResponse) (uuid : Result Text)
        → rest body w2 ≡ (next details, w')
        → P.decode_profile body ≡ ok profile
        → id_to_uuid profile.id ≡ uuid
        → Verified w2 body
    unfolding rest
    by_uuid w2 body profile (err e) r p i = absurd (ground (arith, r, p, i))
    by_uuid w2 body profile (ok uuid) r p i = by_skin w2 body profile uuid _ _ r p i refl

    by_profile :
        (w2 : World P) (body : Text) (profile : Result SessionProfileResponse)
        → rest body w2 ≡ (next details, w')
        → P.decode_profile body ≡ profile
        → Verified w2 body
    unfolding rest
    by_profile w2 body (err e) r p = absurd (ground (arith, r, p))
    by_profile w2 body (ok profile) r p = by_uuid w2 body profile _ r p refl

    by_session :
        (w1 w2 : World P) (player : Text) (res : PlayerNameToUuidResponse) (e : Exit Text)
        → get_ok app (account_request username) w ≡ (next player, w1)
        → P.decode_player player ≡ ok res
        → get_ok app (session_request res.id) w1 ≡ (e, w2)
        → IsVerified username token details w.moment
    unfolding validate_challenge rest Verified
    by_session w1 w2 player res (next body) g d g2 =
        let (known, first) = get_ok_next app _ player w w1 g in
        let (sent, second) = get_ok_next app _ body w1 w2 g2 in
        let (profile, decoded, name, uuid, shown) =
          by_profile w2 body _ (ground (arith, h, required, g, d, g2)) refl in
        let later : w2.moment ≡ w.moment + 2 = omega (arith, first, second) in
        record {
          player = player;
          id_res = res;
          body = body;
          profile = profile;
          known = known;
          player_decoded = d;
          sent = rw (← first) sent;
          profile_decoded = decoded;
          name = name;
          uuid = uuid;
          shown = rw (← later) shown;
        }
    by_session w1 w2 player res (reply a) g d g2 = absurd (ground (arith, h, g, d, g2))
    by_session w1 w2 player res (fail x) g d g2 = absurd (ground (arith, h, g, d, g2))
    by_session w1 w2 player res panic g d g2 = absurd (ground (arith, h, g, d, g2))

    by_decoded :
        (w1 : World P) (player : Text) (res : Result PlayerNameToUuidResponse)
        → get_ok app (account_request username) w ≡ (next player, w1)
        → P.decode_player player ≡ res
        → IsVerified username token details w.moment
    unfolding validate_challenge
    by_decoded w1 player (err x) g d = absurd (ground (arith, h, g, d))
    by_decoded w1 player (ok res) g d = by_session w1 _ player res _ g d refl

    by_player :
        (e : Exit Text) (w1 : World P)
        → get_ok app (account_request username) w ≡ (e, w1)
        → IsVerified username token details w.moment
    unfolding validate_challenge
    by_player (next player) w1 g = by_decoded w1 player _ g refl
    by_player (reply a) w1 g = absurd (ground (arith, h, g))
    by_player (fail x) w1 g = absurd (ground (arith, h, g))
    by_player panic w1 g = absurd (ground (arith, h, g))

    -- Where RequireSkinVerification is set, `validateChallenge` lets an account through only if the
    -- account server answered the request for the user name 200 with an ID, the session server then
    -- answered the request for that ID 200 with a profile of the account's name and ID, and a
    -- textures property of the profile names a skin that was then served, with the challenge for the
    -- user name and the token in its window.
    pub validate_challenge_verifies : IsVerified username token details w.moment
    validate_challenge_verifies = by_player _ _ refl
