-- ===== src/Front/Register/Returns.antt =====
-- About `FrontRegister` and `FrontLogin` of front.go, one after the other.
use yggdrasil_authentication.Base.{
  ◌≡◌, ◌≢◌, ap, ◌∙◌, inl, inr, false, List, ◌++◌, ◌==◌, text_eq, text_beq, text_beq_refl, Text,
  text, if◌then◌else◌, arith,
}
use yggdrasil_authentication.Types.{ok, User, redirect}
use yggdrasil_authentication.Platform.{Platform, by_username}
use yggdrasil_authentication.Platform.Transactions.{TxLaws, InviteLaws, TableLaws}
use yggdrasil_authentication.Action.{App, World, reply}
use yggdrasil_authentication.Random.{random_hex}
use yggdrasil_authentication.Model.Names.{transient_login_eligible, hash_password}
use yggdrasil_authentication.Front.{Request, login_user, start_session, front_login}
use yggdrasil_authentication.Front.Register.{front_register}
use yggdrasil_authentication.Front.Register.Once.{IsAdded, front_register_rows}

-- The form of a login.
abbrev pub login_form : Request → Text → Text → Request
login_form req username password = record req {
  form_value = λ key.
      if key == text "username"
      then username
      else if key == text "password"
      then password
      else req.form_value key;
}

module _ ⦃P : Platform⦄ (app : App P) where
  login_lem :
      (req : Request) (user : User) (password bytes : Text) (w : World P)
      → app.config.transient_users.allow ≡ false
      → P.first_user (by_username user.username) w.db ≡ ok user
      → user.is_locked ≡ false
      → hash_password app password user.password_salt ≡ ok user.password_hash
      → P.rand_read w.moment 32 ≡ ok bytes
      → (front_login app (login_form req user.username password) w).0
        ≡ reply (redirect 303 (app.front_end_url ++ text "/drasl/profile"))
  unfolding front_login login_user start_session random_hex transient_login_eligible text text_beq
  login_lem req user password bytes w no_transients found unlocked hashed drawn =
      ground
        (arith, no_transients, found, unlocked, hashed, drawn, text_beq_refl user.password_hash)

  -- If a registration has changed the users, then the users that the database has after it are those
  -- from before it and one more, and that user can log in: with the username of the row and the
  -- password of the registration's form, `FrontLogin` sends the browser on to the profile, if no
  -- transient users are allowed, random bytes are read, and the database is as the registration left it.
  -- This rests on the documented behaviour of GORM.
  pub front_register-front_login :
      (laws : TxLaws P) (invite_laws : InviteLaws P) (table_laws : TableLaws P) (return_url : Text)
      (req again : Request) (w later : World P) (users : List User) (bytes : Text)
      → P.find_users w.db ≡ ok users
      → P.find_users (front_register app return_url req w).1.db ≢ ok users
      → later.db ≡ (front_register app return_url req w).1.db
      → app.config.transient_users.allow ≡ false
      → P.rand_read later.moment 32 ≡ ok bytes
      → (now : List User) × (P.find_users later.db ≡ ok now)
        × (added : IsAdded app
            (req.form_value (text "password"))
            users
            now
            (front_register app return_url req w).1.set_cookies)
        × ((front_login app
              (login_form again added.user.username (req.form_value (text "password")))
              later).0
            ≡ reply (redirect 303 (app.front_end_url ++ text "/drasl/profile")))
  front_register-front_login laws invite_laws table_laws return_url req again w later users bytes
        listed changed same_db no_transients drawn =
      elim (front_register_rows app laws invite_laws return_url req w users listed) [
        | inl same ↦ absurd (changed same)
        | inr (answered, now, lists, added) ↦
            (let found =
                table_laws.first_by_username added.before added.after added.user later.db
                  (ap P.find_users same_db ∙ lists ∙ ap ok added.new_rows) in
              (
                now,
                ap P.find_users same_db ∙ lists,
                added,
                login_lem again added.user (req.form_value (text "password")) bytes later
                    no_transients found added.unlocked added.hashed drawn,
              ))
      ]
