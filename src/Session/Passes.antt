-- ===== src/Session/Passes.antt =====
-- About the answers of fallback servers that `SessionHasJoined` of session.go passes on.
use yggdrasil_authentication.Base.{ℕ, ◌≤◌, ◌≡◌, ◌≢◌, Bool, true, false, some, text_eq, Text}
use yggdrasil_authentication.Types.{ok, err, Error, User, blob}
use yggdrasil_authentication.Platform.{Platform, by_player_name}
use yggdrasil_authentication.Action.{App, World, reply}
use yggdrasil_authentication.Model.Ids.{make_null_string}
use yggdrasil_authentication.Session.{session_has_joined}
use yggdrasil_authentication.Session.Elsewhere.{FirstConfirms}

module _ ⦃P : Platform⦄ (app : App P) where
  -- Why fallback servers are asked: the user with the player name has not joined that game server, or
  -- no user is found.
  abbrev pub NotHere : Bool → Text → Text → World P → Type 0
  NotHere true player_name server_id w =
      (user : User) × (P.first_user (by_player_name player_name) w.db ≡ ok user)
      × (user.server_id ≢ make_null_string (some server_id))
  NotHere false player_name server_id w =
      (e : Error) × (P.first_user (by_player_name player_name) w.db ≡ err e)

  module _ (player_name server_id content_type body : Text) (w w' : World P)
      (h : session_has_joined app player_name server_id w
        ≡ (reply (blob 200 content_type body), w')) where
    abbrev PassedOn : Type 0
    PassedOn =
        (known : Bool) × (start : ℕ) × (w.moment ≤ start)
        × NotHere known player_name server_id w
        × FirstConfirms known player_name server_id content_type body
            app.config.fallback_api_servers start
