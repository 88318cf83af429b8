-- ===== src/Front/Register/Keeps.antt =====
-- About the checks of `FrontRegister` of front.go: they only read.
use yggdrasil_authentication.Base.{refl, Bool, true, false, text_eq, Text, arith}
use yggdrasil_authentication.Platform.{Platform}
use yggdrasil_authentication.Action.{App, Action, attempt}
use yggdrasil_authentication.Action.Keeps.{Keeps}
use yggdrasil_authentication.Random.{random_hex}
use yggdrasil_authentication.Challenge.Keeps.{validate_challenge_keeps}
use yggdrasil_authentication.Front.{Request}
use yggdrasil_authentication.Front.Register.{
  NewAccount, find_invite, existing_account, choose_uuid, new_account, choose_account,
  check_registration, new_user,
}

module _ ⦃P : Platform⦄ (app : App P) where
  abbrev KeepsDb {ℓ} : {A : Type ℓ} → Action A → Type 0
  KeepsDb = Keeps (λ (db : P.Db). db)

  find_invite_keeps :
      (required : Bool) (code url : Text) → KeepsDb (find_invite app required code url)
  unfolding find_invite
  find_invite_keeps false code url w = refl
  find_invite_keeps true code url w = ground arith

  choose_uuid_keeps : (url chosen : Text) → KeepsDb (choose_uuid app url chosen)
  unfolding choose_uuid
  choose_uuid_keeps url chosen w = ground arith

  attempt_keeps {ℓ} : {A : Type ℓ} (m : Action A) → KeepsDb m → KeepsDb (attempt m)
  attempt_keeps m hm w = ground (arith, hm w)

  new_account_keeps : (req : Request) (url url' : Text) → KeepsDb (new_account app req url url')
  unfolding new_account
  new_account_keeps req url url' w = grind (arith, find_invite_keeps, choose_uuid_keeps)

  existing_account_keeps :
      (req : Request) (url url' : Text) → KeepsDb (existing_account app req url url')
  unfolding existing_account
  existing_account_keeps req url url' w =
      grind (arith, find_invite_keeps, validate_challenge_keeps app)

  choose_account_keeps :
      (req : Request) (url url' : Text) → KeepsDb (choose_account app req url url')
  unfolding choose_account
  choose_account_keeps req url url' w =
      ground (arith, new_account_keeps req url url' w, existing_account_keeps req url url' w)

  pub check_registration_keeps : (req : Request) → KeepsDb (check_registration app req)
  unfolding check_registration
  check_registration_keeps req w = grind (arith, choose_account_keeps)

  pub new_user_keeps :
      (password : Text) (account : NewAccount) → KeepsDb (new_user app password account)
  unfolding new_user random_hex
  new_user_keeps password account w = ground arith
