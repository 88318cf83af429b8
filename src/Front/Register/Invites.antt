-- ===== src/Front/Register/Invites.antt =====
-- About the invites of `FrontRegister` of front.go.
use yggdrasil_authentication.Base.{
  ◌≡◌, refl, inl, inr, Bool, Bool-cases, true, Option, none, some, ◌==◌, text_eq, Text, text,
  if◌then◌else◌, arith,
}
use yggdrasil_authentication.Types.{
  Result, ok, err, Error, record_not_found, http_error, errors_new, Invite,
}
use yggdrasil_authentication.Platform.{Platform}
use yggdrasil_authentication.Model.Names.{validate_username, validate_password}
use yggdrasil_authentication.Action.{App, World, next}
use yggdrasil_authentication.Front.{Request, get_return_url}
use yggdrasil_authentication.Front.Register.{
  NewAccount, find_invite, existing_account, new_account, choose_account, check_registration,
  strip_query_param,
}

module _ ⦃P : Platform⦄ (app : App P) where
  -- The code of the form, and whether the configuration requires an invite for such a registration.
  abbrev pub invite_code : Request → Text
  invite_code req = req.form_value (text "inviteCode")

  unfoldable pub invite_required : Request → Bool
  invite_required req =
      if req.form_value (text "existingPlayer") == text "on"
      then app.config.registration_existing_player.require_invite
      else app.config.registration_new_player.require_invite

  -- The account that the checks let through comes with the invite that is found under the code.
  unfoldable pub HasInvite : Request → NewAccount → World P → Type 0
  HasInvite req account w =
      (i : Invite) × (P.first_invite (invite_code req) w.db ≡ ok i) × (account.invite ≡ some i)

  new_account_invite :
      (req : Request) (url url' : Text) (w w' : World P) (account : NewAccount)
      (found : Result Invite)
      → P.first_invite (invite_code req) w.db ≡ found
      → app.config.registration_new_player.require_invite ≡ true
      → new_account app req url url' w ≡ (next account, w')
      → HasInvite req account w
  unfolding new_account find_invite HasInvite
  new_account_invite req url url' w w' account (ok i) f required h =
      (i, f, ground (arith, f, required, h))
  new_account_invite req url url' w w' account (err record_not_found) f required h =
      absurd (ground (arith, f, required, h))
  new_account_invite req url url' w w' account (err (http_error c m)) f required h =
      absurd (ground (arith, f, required, h))
  new_account_invite req url url' w w' account (err (errors_new s)) f required h =
      absurd (ground (arith, f, required, h))

  existing_account_invite :
      (req : Request) (url url' : Text) (w w' : World P) (account : NewAccount)
      (found : Result Invite)
      → P.first_invite (invite_code req) w.db ≡ found
      → app.config.registration_existing_player.require_invite ≡ true
      → existing_account app req url url' w ≡ (next account, w')
      → HasInvite req account w
  unfolding existing_account find_invite HasInvite
  existing_account_invite req url url' w w' account (ok i) f required h =
      (i, f, ground (arith, f, required, h))
  existing_account_invite req url url' w w' account (err record_not_found) f required h =
      absurd (ground (arith, f, required, h))
  existing_account_invite req url url' w w' account (err (http_error c m)) f required h =
      absurd (ground (arith, f, required, h))
  existing_account_invite req url url' w w' account (err (errors_new s)) f required h =
      absurd (ground (arith, f, required, h))

  choose_account_invite :
      (req : Request) (url url' : Text) (w w' : World P) (account : NewAccount)
      → invite_required req ≡ true
      → choose_account app req url url' w ≡ (next account, w')
      → HasInvite req account w
  unfolding choose_account invite_required
  choose_account_invite req url url' w w' account required h =
      elim (Bool-cases (req.form_value (text "existingPlayer") == text "on")) [
        | inl old ↦
            existing_account_invite req url url' w w' account _ refl (ground (arith, old, required))
              (ground (arith, old, h))
        | inr new ↦
            new_account_invite req url url' w w' account _ refl (ground (arith, new, required))
              (ground (arith, new, h))
      ]

  pub check_registration_invite :
      (req : Request) (w w' : World P) (account : NewAccount) (stripped : Result Text)
      (name password : Option Error)
      → strip_query_param app (get_return_url app req) (text "invite") ≡ stripped
      → validate_username app (req.form_value (text "username")) ≡ name
      → validate_password app (req.form_value (text "password")) ≡ password
      → invite_required req ≡ true
      → check_registration app req w ≡ (next account, w')
      → HasInvite req account w
  unfolding check_registration
  check_registration_invite req w w' account (err e) name password s n p required h =
      absurd (ground (arith, s, h))
  check_registration_invite req w w' account (ok url) (some e) password s n p required h =
      absurd (ground (arith, s, n, h))
  check_registration_invite req w w' account (ok url) none (some e) s n p required h =
      absurd (ground (arith, s, n, p, h))
  check_registration_invite req w w' account (ok url) none none s n p required h =
      choose_account_invite req (get_return_url app req) url w w' account required
        (ground (arith, s, n, p, h))
