-- ===== src/Front/Register/Success.antt =====
-- About `FrontRegister` of front.go where nothing stands in the way.
use yggdrasil_authentication.Base.{
  ◌+◌, ◌≡◌, refl, true, false, none, some, List, [], ◌==◌, text_eq, Text, text, arith,
}
use yggdrasil_authentication.Types.{ok, User, Invite}
use yggdrasil_authentication.Platform.{Platform}
use yggdrasil_authentication.Platform.Transactions.{TxLaws, InviteLaws}
use yggdrasil_authentication.Action.{App, World, Exit, next, reply, fail, panic}
use yggdrasil_authentication.Random.{random_hex}
use yggdrasil_authentication.Model.Names.{validate_username, validate_password, hash_password}
use yggdrasil_authentication.Model.Offline.{offline_uuid}
use yggdrasil_authentication.Front.{Request, get_return_url}
use yggdrasil_authentication.Front.Register.{
  NewAccount, strip_query_param, find_invite, choose_uuid, new_account, choose_account,
  check_registration, new_user, check_created, use_invite, save_registration,
}
use yggdrasil_authentication.Front.Register.Invites.{invite_code}
use yggdrasil_authentication.Front.Register.Outcome.{HasNewUser, new_user_row, registered, same_db}
use yggdrasil_authentication.Front.Register.Once.{Registered, Registered-rows}

module _ ⦃P : Platform⦄ (app : App P) (laws : TxLaws P) (invite_laws : InviteLaws P)
    (return_url : Text) (req : Request) (w : World P) (users : List User) (invite : Invite)
    (stripped salt hash bytes offline : Text) (listed : P.find_users w.db ≡ ok users)
    (found : P.first_invite (invite_code app req) w.db ≡ ok invite)
    (allowed : app.config.registration_new_player.allow ≡ true)
    (required : app.config.registration_new_player.require_invite ≡ true)
    (new_player : req.form_value (text "existingPlayer") == text "on" ≡ false)
    (no_honey : req.form_value (text "email") == [] ≡ true)
    (no_choice : req.form_value (text "uuid") == [] ≡ true)
    (back : strip_query_param app (get_return_url app req) (text "invite") ≡ ok stripped)
    (named : validate_username app (req.form_value (text "username")) ≡ none)
    (guarded : validate_password app (req.form_value (text "password")) ≡ none)
    (salted : P.rand_read (w.moment + 1) 16 ≡ ok salt)
    (hashed : hash_password app (req.form_value (text "password")) salt ≡ ok hash)
    (drawn : P.rand_read (w.moment + 1 + 1) 32 ≡ ok bytes)
    (derived : offline_uuid (req.form_value (text "username")) ≡ ok offline)
    (creates : (u : User)
      → u.username ≡ req.form_value (text "username")
      → u.uuid ≡ P.new_uuid w.moment
      → (P.tx_create_user (P.begin w.db).0 u (P.begin w.db).1).0 ≡ none)
    (deletes : (tx : P.Tx) (db : P.Db) → (P.tx_delete_invite tx invite db).0 ≡ none)
    (commits : (tx : P.Tx) (db : P.Db) → (P.commit tx db).0 ≡ none) where
  abbrev account : NewAccount
  account = record {
    username = req.form_value (text "username");
    uuid = P.new_uuid w.moment;
    invite = some invite;
  }

  checks : check_registration app req w ≡ (next account, record w { moment = w.moment + 1 })
  unfolding check_registration choose_account new_account find_invite choose_uuid
  checks =
      ground
        (arith, found, allowed, required, new_player, no_honey, no_choice, back, named, guarded)

  module _ (user : User) (token : Text) (w2 : World P)
      (makes : new_user app
          (req.form_value (text "password"))
          account
          (record w { moment = w.moment + 1 })
        ≡ (next (user, token), w2)) where
    row : HasNewUser app (req.form_value (text "password")) account user token
    row = new_user_row app (req.form_value (text "password")) account user token _ w2 makes

    created : P.Db
    created = (P.tx_create_user (P.begin w2.db).0 user (P.begin w2.db).1).1

    emptied : P.Db
    emptied = (P.tx_delete_invite (P.begin w2.db).0 invite created).1

    saved : P.Db
    saved = (P.commit (P.begin w2.db).0 emptied).1

    creation : P.tx_create_user (P.begin w2.db).0 user (P.begin w2.db).1 ≡ (none, created)
    unfolding created
    creation = ground (
      arith,
      row.username,
      row.uuid,
      creates user row.username row.uuid,
      same_db app laws return_url req w (record w { moment = w.moment + 1 }) w2 account user token
          checks makes,
    )

    deletion : P.tx_delete_invite (P.begin w2.db).0 invite created ≡ (none, emptied)
    unfolding emptied
    deletion = ground (arith, deletes (P.begin w2.db).0 created)

    commitment : P.commit (P.begin w2.db).0 emptied ≡ (none, saved)
    unfolding saved
    commitment = ground (arith, commits (P.begin w2.db).0 emptied)

    runs :
        save_registration app
          (get_return_url app req)
          (some invite)
          user
          (P.begin w2.db).0
          (record w2 { db = (P.begin w2.db).1 })
        ≡ (next tt, record w2 { db = saved })
    unfolding save_registration check_created use_invite
    runs = ground (arith, creation, deletion, commitment)

    goes_through : Registered app laws invite_laws return_url req w users
    goes_through = Registered-rows app laws invite_laws return_url req w users listed (
        registered app laws return_url req w (record w { moment = w.moment + 1 }) w2 account user
          token checks makes saved runs
          (record {
            created = created;
            emptied = emptied;
            creates = creation;
            uses = deletion;
            commits = commitment;
          }))

  -- A registration succeeds where nothing stands in its way: the browser is sent on, and there is one
  -- row more among the users, of a user who is not locked, whose browser token is the cookie that
  -- was set last, and whose password is that of the form. Its conditions: the configuration admits new players and requires an invite, the
  -- invite of the form is found, the form has no email address and no UUID and is not for an existing
  -- player, the username and the password are valid, the return URL is a URL, the random numbers are
  -- read, the password is hashed, the name has an offline UUID, and the calls of the transaction do
  -- not fail. This rests on the documented behaviour of GORM's transactions.
  pub front_register_succeeds : Registered app laws invite_laws return_url req w users
  unfolding new_user random_hex
  front_register_succeeds = by_user _ _ refl
    where
      by_user :
          (e : Exit (User × Text)) (w2 : World P)
          → new_user app
              (req.form_value (text "password"))
              account
              (record w { moment = w.moment + 1 })
            ≡ (e, w2)
          → Registered app laws invite_laws return_url req w users
      by_user (next (user, token)) w2 made = goes_through user token w2 made
      by_user (reply r) w2 made = absurd (ground (arith, made, salted, hashed, drawn, derived))
      by_user (fail e) w2 made = absurd (ground (arith, made, salted, hashed, drawn, derived))
      by_user panic w2 made = absurd (ground (arith, made, salted, hashed, drawn, derived))
