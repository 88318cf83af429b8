-- ===== src/Front/Register/Outcome.antt =====
-- About the ways in which `FrontRegister` of front.go ends.
use yggdrasil_authentication.Base.{
  ◌≡◌, refl, sym, ap, ◌∙◌, ◌⊎◌, inl, inr, false, some, List, [], ◌∷◌, ◌++◌, text_eq, Text, text,
  arith,
}
use yggdrasil_authentication.Base.Int.{pos}
use yggdrasil_authentication.Types.{Result, ok, err, User, redirect}
use yggdrasil_authentication.Platform.{Platform}
use yggdrasil_authentication.Platform.Transactions.{TxLaws}
use yggdrasil_authentication.Transaction.{deferred_rollback}
use yggdrasil_authentication.Random.{random_hex}
use yggdrasil_authentication.Model.Ids.{make_null_string}
use yggdrasil_authentication.Model.Names.{hash_password}
use yggdrasil_authentication.Action.{
  App, Cookie, Handler, World, Exit, next, reply, fail, panic, ◌>>=◌,
}
use yggdrasil_authentication.Front.{Request, get_return_url, browser_token_age_sec}
use yggdrasil_authentication.Front.Register.{
  NewAccount, check_registration, new_user, save_registration, register_user, log_in,
  front_register,
}
use yggdrasil_authentication.Front.Register.Keeps.{check_registration_keeps, new_user_keeps}
use yggdrasil_authentication.Front.Register.Rows.{HasSaved, SaveOutcome, save_outcome, stop_bind}

module _ ⦃P : Platform⦄ (app : App P) where
  -- What the row of a new user has of the account and the password.
  pub record HasNewUser (password : Text) (account : NewAccount) (user : User) (token : Text)
      : Type 0 where
    pub username : user.username ≡ account.username
    pub uuid : user.uuid ≡ account.uuid
    pub unlocked : user.is_locked ≡ false
    pub logged_in : user.browser_token ≡ make_null_string (some token)
    pub no_clients : user.clients ≡ []
    pub hashed : hash_password app password user.password_salt ≡ ok user.password_hash

  new_user_hashed :
      (password : Text) (account : NewAccount) (user : User) (token : Text) (w w' : World P)
      → new_user app password account w ≡ (next (user, token), w')
      → hash_password app password user.password_salt ≡ ok user.password_hash
  unfolding new_user random_hex
  new_user_hashed password account user token w w' h = by_salt _ refl
    where
      by_hash :
          (salt : Text)
          → P.rand_read w.moment 16 ≡ ok salt
          → (hash : Result Text) → hash_password app password salt ≡ hash
          → hash_password app password user.password_salt ≡ ok user.password_hash
      by_hash salt s (ok hash) e = ground (arith, h, s, e)
      by_hash salt s (err x) e = absurd (ground (arith, h, s, e))

      by_salt :
          (salt : Result Text)
          → P.rand_read w.moment 16 ≡ salt
          → hash_password app password user.password_salt ≡ ok user.password_hash
      by_salt (ok salt) s = by_hash salt s _ refl
      by_salt (err x) s = absurd (ground (arith, h, s))

  pub new_user_row :
      (password : Text) (account : NewAccount) (user : User) (token : Text) (w w' : World P)
      → new_user app password account w ≡ (next (user, token), w')
      → HasNewUser password account user token
  unfolding new_user random_hex
  new_user_row password account user token w w' h = record {
    username = ground (arith, h);
    uuid = ground (arith, h);
    unlocked = ground (arith, h);
    logged_in = ground (arith, h);
    no_clients = ground (arith, h);
    hashed = new_user_hashed password account user token w w' h;
  }

  module _ (laws : TxLaws P) where
    -- A registration that goes through: the account that was checked, and the transaction.
    pub record HasRegistered (return_url : Text) (req : Request) (w : World P) : Type 0 where
      pub account : NewAccount
      pub checked : World P
      pub before : P.Db
      pub same_db : before ≡ w.db
      pub user : User
      pub token : Text
      pub saved : P.Db
      pub checks : check_registration app req w ≡ (next account, checked)
      pub row : HasNewUser (req.form_value (text "password")) account user token
      pub saves : HasSaved app (P.begin before).0 account.invite user (P.begin before).1 saved
      pub answer : (front_register app return_url req w).0 ≡ reply (redirect 303 return_url)
      pub cookies :
          (earlier : List Cookie) × ((front_register app return_url req w).1.set_cookies
            ≡ earlier
              ++ record {
                name = text "browserToken";
                value = token;
                max_age = pos browser_token_age_sec;
              }
                ∷ [])
      pub stored : (front_register app return_url req w).1.db ≡ P.rollback (P.begin before).0 saved

    abbrev pub RegisterOutcome : Text → Request → World P → Type 0
    RegisterOutcome return_url req w =
        (P.find_users (front_register app return_url req w).1.db ≡ P.find_users w.db)
        ⊎ HasRegistered return_url req w

    module _ (return_url : Text) (req : Request) (w w1 w2 : World P) (account : NewAccount)
        (user : User) (token : Text) (checks : check_registration app req w ≡ (next account, w1))
        (makes : new_user app (req.form_value (text "password")) account w1
          ≡ (next (user, token), w2)) where
      abbrev pub tx : P.Tx
      tx = (P.begin w2.db).0

      abbrev pub begun : World P
      begun = record w2 { db = (P.begin w2.db).1 }

      pub same_db : w2.db ≡ w.db
      same_db =
          ap (λ (r : Exit (User × Text) × World P). r.1.db) (sym makes)
          ∙ new_user_keeps app (req.form_value (text "password")) account w1
          ∙ ap (λ (r : Exit NewAccount × World P). r.1.db) (sym checks)
          ∙ check_registration_keeps app req w

      finish : Unit {0} → Handler
      finish _ = log_in app return_url token

      runs :
          front_register app return_url req w
          ≡ deferred_rollback tx
              (save_registration app (get_return_url app req) account.invite user tx >>= finish)
              begun
      unfolding front_register register_user finish
      runs = ground (arith, checks, makes)

      pub registered :
          (db' : P.Db)
          → save_registration app (get_return_url app req) account.invite user tx begun
            ≡ (next tt, record begun { db = db' })
          → HasSaved app tx account.invite user begun.db db'
          → HasRegistered return_url req w
      unfolding finish log_in
      registered db' run saves =
          let ends : front_register app return_url req w ≡ (
            reply (redirect 303 return_url),
            record w2 {
              db = P.rollback tx db';
              set_cookies =
                  w2.set_cookies
                  ++ record {
                    name = text "browserToken";
                    value = token;
                    max_age = pos browser_token_age_sec;
                  }
                    ∷ [];
            },
          ) =
            ground (arith, runs, run) in
          record {
            account = account;
            checked = w1;
            before = w2.db;
            same_db = same_db;
            user = user;
            token = token;
            saved = db';
            checks = checks;
            row = new_user_row (req.form_value (text "password")) account user token w1 w2 makes;
            saves = saves;
            answer = ground (arith, ends);
            cookies = (w2.set_cookies, ground (arith, ends));
            stored = ground (arith, ends);
          }

      by_transaction :
          SaveOutcome app laws (get_return_url app req) account.invite user tx begun
          → RegisterOutcome return_url req w
      unfolding finish log_in
      by_transaction (inl (stopped, same)) =
          let (_, kept) =
            stop_bind app (save_registration app (get_return_url app req) account.invite user tx)
              finish begun stopped in
          inl (
            rw runs (
              laws.rollback_isolated tx _
              ∙ ap P.find_users kept
              ∙ same
              ∙ laws.begin_isolated w2.db
              ∙ ap P.find_users same_db))
      by_transaction (inr (db', run, saves)) = inr (registered db' run saves)

    pub register_outcome :
        (return_url : Text) (req : Request) (w : World P) → RegisterOutcome return_url req w
    unfolding front_register
    register_outcome return_url req w = by_checks _ _ refl
      where
        kept : P.find_users (check_registration app req w).1.db ≡ P.find_users w.db
        kept = ap P.find_users (check_registration_keeps app req w)

        by_user :
            (account : NewAccount) (w1 w2 : World P) (e : Exit (User × Text))
            → check_registration app req w ≡ (next account, w1)
            → new_user app (req.form_value (text "password")) account w1 ≡ (e, w2)
            → RegisterOutcome return_url req w
        by_user account w1 w2 (next (user, token)) run made =
            by_transaction return_url req w w1 w2 account user token run made
              (save_outcome app laws _ _ _ _ _ _ _ _ refl refl refl)
        by_user account w1 w2 (reply r) run made = inl (
            ground (
              arith,
              run,
              made,
              kept,
              ap P.find_users (new_user_keeps app (req.form_value (text "password")) account w1),
            ))
        by_user account w1 w2 (fail e) run made = inl (
            ground (
              arith,
              run,
              made,
              kept,
              ap P.find_users (new_user_keeps app (req.form_value (text "password")) account w1),
            ))
        by_user account w1 w2 panic run made = inl (
            ground (
              arith,
              run,
              made,
              kept,
              ap P.find_users (new_user_keeps app (req.form_value (text "password")) account w1),
            ))

        by_checks :
            (e : Exit NewAccount) (w1 : World P)
            → check_registration app req w ≡ (e, w1)
            → RegisterOutcome return_url req w
        by_checks (next account) w1 run = by_user account w1 _ _ run refl
        by_checks (reply r) w1 run = inl (ground (arith, run, kept))
        by_checks (fail e) w1 run = inl (ground (arith, run, kept))
        by_checks panic w1 run = inl (ground (arith, run, kept))
