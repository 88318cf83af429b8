-- ===== src/Front/Register/Once.antt =====
-- About `FrontRegister` of front.go: what a registration does to the database.
use yggdrasil_authentication.Base.{
  ◌≡◌, ◌≢◌, refl, sym, ap, ◌∙◌, ◌⊎◌, inl, inr, true, false, Option, none, some, List, [], ◌∷◌, ◌++◌,
  Text, text, arith,
}
use yggdrasil_authentication.Base.Int.{pos}
use yggdrasil_authentication.Types.{ok, err, record_not_found, Invite, User, redirect}
use yggdrasil_authentication.Platform.{Platform}
use yggdrasil_authentication.Platform.Transactions.{TxLaws, InviteLaws}
use yggdrasil_authentication.Action.{App, Cookie, World, Exit, next, reply, fail, panic}
use yggdrasil_authentication.Model.Ids.{make_null_string}
use yggdrasil_authentication.Model.Names.{hash_password}
use yggdrasil_authentication.Front.{Request, browser_token_age_sec}
use yggdrasil_authentication.Front.Register.{NewAccount, check_registration, front_register}
use yggdrasil_authentication.Front.Register.Keeps.{check_registration_keeps}
use yggdrasil_authentication.Front.Register.Rows.{used}
use yggdrasil_authentication.Front.Register.Invites.{
  invite_code, invite_required, HasInvite, check_registration_invite,
}
use yggdrasil_authentication.Front.Register.Outcome.{HasRegistered, register_outcome}

module _ ⦃P : Platform⦄ (app : App P) where
  -- One row more, which belongs to the browser that is answered, and has the hash of the password.
  pub record IsAdded (password : Text) (users now : List User) (cookies : List Cookie)
      : Type 0 where
    pub user : User
    pub token : Text
    pub before : List User
    pub after : List User
    pub earlier : List Cookie
    pub old_rows : users ≡ before ++ after
    pub new_rows : now ≡ before ++ user ∷ after
    pub unlocked : user.is_locked ≡ false
    pub hashed : hash_password app password user.password_salt ≡ ok user.password_hash
    pub logged_in : user.browser_token ≡ make_null_string (some token)
    pub sent :
        cookies
        ≡ earlier
          ++ record {
            name = text "browserToken";
            value = token;
            max_age = pos browser_token_age_sec;
          }
            ∷ []

  module _ (laws : TxLaws P) (invite_laws : InviteLaws P) where
    used_reads :
        (tx : P.Tx) (invite : Option Invite) (db db' : P.Db)
        → used app tx invite db ≡ (none, db')
        → P.tx_find_users tx db' ≡ P.tx_find_users tx db
    used_reads tx none db db' h = ground (arith, h)
    used_reads tx (some i) db db' h = ground (arith, h, invite_laws.delete_reads tx i db)

    -- The answer, and the users after it.
    abbrev pub Registered : Text → Request → World P → List User → Type 0
    Registered return_url req w users =
        ((front_register app return_url req w).0 ≡ reply (redirect 303 return_url))
        × (now : List User) × (P.find_users (front_register app return_url req w).1.db ≡ ok now)
        × IsAdded (req.form_value (text "password")) users now
            (front_register app return_url req w).1.set_cookies

    pub Registered-rows :
        (return_url : Text) (req : Request) (w : World P) (users : List User)
        → P.find_users w.db ≡ ok users
        → HasRegistered app laws return_url req w
        → Registered return_url req w users
    Registered-rows return_url req w users listed r =
        let tx = (P.begin r.before).0 in
        let seen : P.tx_find_users tx (P.begin r.before).1 ≡ ok users =
          laws.begin_reads r.before ∙ ap P.find_users r.same_db ∙ listed in
        let (before, after, old, new) =
          invite_laws.create_reads tx r.user users _ r.saves.created seen r.saves.creates in
        let (earlier, sent) = r.cookies in
        (
          r.answer,
          before ++ record r.user { clients = [] } ∷ after,
          ap P.find_users r.stored
              ∙ laws.rollback_isolated tx r.saved
              ∙ laws.commit_publishes tx r.saves.emptied r.saved r.saves.commits
              ∙ used_reads tx r.account.invite r.saves.created r.saves.emptied r.saves.uses
              ∙ new,
          record {
            user = record r.user { clients = [] };
            token = r.token;
            before = before;
            after = after;
            earlier = earlier;
            old_rows = old;
            new_rows = refl;
            unlocked = r.row.unlocked;
            hashed = r.row.hashed;
            logged_in = r.row.logged_in;
            sent = sent;
          },
        )

    -- A registration leaves the users as they were, or the browser is sent on, and there is one row
    -- more among them, of a user who is not locked, whose browser token is the cookie that was
    -- set last, and whose password is that of the form. This rests on the documented behaviour of
    -- GORM's transactions.
    pub front_register_rows :
        (return_url : Text) (req : Request) (w : World P) (users : List User)
        → P.find_users w.db ≡ ok users
        → (P.find_users (front_register app return_url req w).1.db ≡ ok users)
          ⊎ Registered return_url req w users
    front_register_rows return_url req w users listed =
        elim (register_outcome app laws return_url req w) [
          | inl same ↦ inl (same ∙ listed)
          | inr r ↦ inr (Registered-rows return_url req w users listed r)
        ]

  -- Where the configuration requires an invite, a registration with a code under which none is found
  -- writes nothing.
  pub front_register_needs_invite :
      (return_url : Text) (req : Request) (w : World P)
      → invite_required app req ≡ true
      → ((i : Invite) → P.first_invite (invite_code app req) w.db ≢ ok i)
      → (front_register app return_url req w).1.db ≡ w.db
  unfolding front_register HasInvite
  front_register_needs_invite return_url req w required missing = by_checks _ _ refl
    where
      kept : (check_registration app req w).1.db ≡ w.db
      kept = check_registration_keeps app req w

      by_checks :
          (e : Exit NewAccount) (w1 : World P)
          → check_registration app req w ≡ (e, w1)
          → (front_register app return_url req w).1.db ≡ w.db
      by_checks (next account) w1 run =
          let (i, found, invite) =
            check_registration_invite app req w w1 account _ _ _ refl refl refl required run in
          absurd (missing i found)
      by_checks (reply r) w1 run = ground (arith, run, kept)
      by_checks (fail e) w1 run = ground (arith, run, kept)
      by_checks panic w1 run = ground (arith, run, kept)

  -- An invite is used once: where the configuration requires an invite for both, and a registration
  -- has changed the users, a later one with the same code writes nothing, as long as the database is
  -- as the first left it. This rests on the documented behaviour of GORM's transactions.
  pub front_register_once :
      (laws : TxLaws P) (invite_laws : InviteLaws P) (return_url : Text) (req again : Request)
      (w later : World P)
      → invite_required app req ≡ true
      → invite_required app again ≡ true
      → invite_code app again ≡ invite_code app req
      → P.find_users (front_register app return_url req w).1.db ≢ P.find_users w.db
      → later.db ≡ (front_register app return_url req w).1.db
      → (front_register app return_url again later).1.db ≡ later.db
  unfolding HasInvite
  front_register_once laws invite_laws return_url req again w later required required' same_code
        changed same_db =
      elim (register_outcome app laws return_url req w) [
        | inl same ↦ absurd (changed same)
        | inr r ↦
            (let tx = (P.begin r.before).0 in
              let (i, found, invite) =
                check_registration_invite app req w r.checked r.account _ _ _ refl refl refl
                  required r.checks in
              let deletes : P.tx_delete_invite tx i r.saves.created ≡ (none, r.saves.emptied) =
                ap (λ (o : Option Invite). used app tx o r.saves.created) (sym invite)
                ∙ r.saves.uses in
              let gone : P.first_invite i.code r.saved ≡ err record_not_found =
                invite_laws.delete_publishes tx i _ r.saves.emptied r.saved deletes
                  r.saves.commits in
              let key : i.code ≡ invite_code app req =
                invite_laws.first_invite_key _ i w.db found in
              let now : later.db ≡ r.saved =
                same_db
                ∙ r.stored
                ∙ invite_laws.rollback_done tx r.saves.emptied r.saved r.saves.commits in
              front_register_needs_invite return_url again later required'
                (λ j h. ground (arith, h, gone, key, now, same_code)))
      ]
