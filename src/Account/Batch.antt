-- ===== src/Account/Batch.antt =====
-- `AccountPlayerNamesToIDs` of account.go, beside `AccountPlayerNameToID`.
use yggdrasil_authentication.Base.{◌≡◌, refl, List, [], ◌∷◌, Text, arith}
use yggdrasil_authentication.Types.{
  Result, ok, err, PlayerNameToUuidResponse, player_name_to_uuid, player_names_to_uuids, json,
}
use yggdrasil_authentication.Platform.{Platform}
use yggdrasil_authentication.Action.{App, World, Exit, next, reply, fail}
use yggdrasil_authentication.Fallback.{first_answer}
use yggdrasil_authentication.Account.{
  uuid_of_user, account_player_name_to_id, resolve_name, resolve_names, account_player_names_to_ids,
}

-- What the answer to one name adds to the answers to the names after it: an identifier goes before
-- them, an error is returned in their place, and an answer without an identifier is left out.
abbrev pub add_answer :
    Exit ⊥ → Result (List PlayerNameToUuidResponse) → Result (List PlayerNameToUuidResponse)
add_answer (reply (json code (player_name_to_uuid res))) (ok rest) = ok (res ∷ rest)
add_answer (fail e) rest = err e
add_answer _ rest = rest

abbrev pub exit_of : Result (List PlayerNameToUuidResponse) → Exit (List PlayerNameToUuidResponse)
exit_of (ok answers) = next answers
exit_of (err e) = fail e

-- The identifiers as the answer, or the error.
abbrev pub batch_answer : Result (List PlayerNameToUuidResponse) → Exit ⊥
batch_answer (ok answers) = reply (json 200 (player_names_to_uuids answers))
batch_answer (err e) = fail e

module _ ⦃P : Platform⦄ (app : App P) where
  -- The answers to the names one by one, each asked of `AccountPlayerNameToID`.
  abbrev pub one_by_one : Text → List Text → World P → Result (List PlayerNameToUuidResponse)
  one_by_one path [] w = ok []
  one_by_one path (name ∷ names) w =
      add_answer (account_player_name_to_id app path name w).0 (one_by_one path names w)

  resolve_names-one_by_one :
      (path : Text) (names : List Text) (w : World P)
      → app.config.fallback_api_servers ≡ []
      → resolve_names app names w ≡ (exit_of (one_by_one path names w), w)
  unfolding resolve_names resolve_name account_player_name_to_id uuid_of_user first_answer
  resolve_names-one_by_one path [] w alone = refl
  resolve_names-one_by_one path (name ∷ names) w alone =
      ground (arith, alone, resolve_names-one_by_one path names w alone)

  -- Without fallback servers, the request for many names answers the identifiers that requests for
  -- the single names are answered with, in the order of the names and without those that are not
  -- found; or it returns the first error that such a request returns. The state stays as it is.
  pub account_player_names_to_ids-one_by_one :
      (path : Text) (names : List Text) (w : World P)
      → app.config.fallback_api_servers ≡ []
      → account_player_names_to_ids app (ok names) w ≡ (batch_answer (one_by_one path names w), w)
  unfolding account_player_names_to_ids
  account_player_names_to_ids-one_by_one path names w alone =
      ground (arith, resolve_names-one_by_one path names w alone)
