-- ===== src/Model/Names/Bounds.antt =====
-- About `ValidatePlayerName` and `ValidatePassword` of model.go.
use yggdrasil_authentication.Base.{
  ◌≤◌, ◌≡◌, ◌≢◌, ◌↔◌, false, none, [], text_eq, text_beq_iff, Text, length, arith, Bool-cases, inl,
  inr,
}
use yggdrasil_authentication.Base.Int.{pos, ◌≤ℤ◌}
use yggdrasil_authentication.Platform.{Platform}
use yggdrasil_authentication.Action.{App}
use yggdrasil_authentication.Model.Names.{
  transient_login_eligible, validate_player_name, validate_password,
}

module _ ⦃P : Platform⦄ (app : App P) where
  -- A player name is accepted exactly if it is not blank, has at most 16 bytes and is not reserved
  -- for transient login.
  pub validate_player_name_iff :
      (name : Text)
      → (validate_player_name app name ≡ none)
        ↔ ((name ≢ []) × (length name ≤ 16) × (transient_login_eligible app name ≡ false))
  unfolding validate_player_name
  validate_player_name_iff name = elim (Bool-cases (transient_login_eligible app name)) [
    | inl reserved ↦ ground arith
    | inr free ↦ ground (arith, text_beq_iff name [])
  ]

  -- A password is accepted exactly if it is not empty and has at least MinPasswordLength bytes.
  pub validate_password_iff :
      (password : Text)
      → (validate_password app password ≡ none)
        ↔ ((password ≢ []) × (app.config.min_password_length ≤ℤ pos (length password)))
  unfolding validate_password
  validate_password_iff password = ground (arith, text_beq_iff password [])
