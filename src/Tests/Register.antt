-- ===== src/Tests/Register.antt =====
-- The theorems on registration and on the changes of users, at a concrete database.
use yggdrasil_authentication.Base.{
  ℕ, ◌≡◌, ◌≢◌, ◌⊎◌, refl, true, false, Option, none, some, List, [], ◌∷◌, ◌++◌, ◌==◌, text_eq,
  text_beq, Text, text, if◌then◌else◌, arith,
}
use yggdrasil_authentication.Base.Int.{pos}
use yggdrasil_authentication.Types.{ok, User, Invite, redirect}
use yggdrasil_authentication.Platform.{by_browser_token}
use yggdrasil_authentication.Action.{App, World, reply}
use yggdrasil_authentication.Util.{contains}
use yggdrasil_authentication.Random.{random_hex, hex_encode}
use yggdrasil_authentication.Model.Ids.{make_null_string}
use yggdrasil_authentication.Model.Names.{
  validate_username, validate_player_name, transient_login_eligible, validate_password,
  hash_password,
}
use yggdrasil_authentication.Model.Offline.{offline_uuid, set_version_3}
use yggdrasil_authentication.Front.{Request, get_return_url, browser_token_of, front_login}
use yggdrasil_authentication.Front.Admin.{front_update_users}
use yggdrasil_authentication.Front.Admin.Updates.{updated_row, any_unlocked_admin}
use yggdrasil_authentication.Front.Admin.Unlocked.{
  front_update_users_unlocked, front_update_users-map,
}
use yggdrasil_authentication.Front.Register.{
  front_register, check_registration, strip_query_param, choose_account, new_account, find_invite,
  choose_uuid, new_user, register_user, save_registration, check_created, use_invite, log_in,
}
use yggdrasil_authentication.Front.Register.Invites.{invite_required}
use yggdrasil_authentication.Front.Register.Once.{IsAdded, front_register_rows, front_register_once}
use yggdrasil_authentication.Front.Register.Success.{front_register_succeeds}
use yggdrasil_authentication.Front.Register.Returns.{login_form, front_register-front_login}
use yggdrasil_authentication.Front.Update.{front_update}
use yggdrasil_authentication.Front.Update.Writes.{Written, front_update_writes}
use yggdrasil_authentication.Tests.Store.{rows, store}
use yggdrasil_authentication.Tests.StoreLaws.{tx_laws, invite_laws, table_laws}
use yggdrasil_authentication.Tests.Sample.{config, steve}

abbrev app : App store
app = record {
  config = record config {
    registration_new_player = record config.registration_new_player { require_invite = true };
  };
  front_end_url = text "https://drasl.example.com";
  transient_username_regex = λ name. false;
  key = tt;
  key_b3_sum512 = text "key";
}

abbrev state : Option User → Option Invite → World store
state row invite = record {
  db = record {
    row = row;
    pending = none;
    invite = invite;
    pending_invite = none;
    version = 1;
    pending_version = 0;
  };
  cache = [];
  files = tt;
  moment = 0;
  set_cookies = [];
}

-- An admin, who is logged in with the browser token "t".
abbrev admin : User
admin = record steve { is_admin = true; browser_token = make_null_string (some (text "t")) }

abbrev administered : World store
administered = state (some admin) none

abbrev request : (Text → Text) → Request
request form = record {
  form_value = form;
  query_param = λ key. [];
  cookie = λ name. if name == text "browserToken" then some (text "t") else none;
  form_file = λ name. none;
}

-- The form that leaves the admin an admin, and does not lock them.
abbrev kept : Request
kept = request λ key. if key == text "admin-steve" then text "on" else []

token_sent : browser_token_of app kept ≡ some (text "t")
unfolding browser_token_of text text_beq
token_sent = refl

admin_found : store.first_user (by_browser_token (text "t")) administered.db ≡ ok admin
unfolding text text_beq
admin_found = refl

abbrev after : World store
after = (front_update_users app kept administered).1

front_update_users_unlocked_example :
    (store.find_users after.db ≡ ok (admin ∷ []))
    ⊎ ((store.find_users after.db ≡ ok (updated_row app kept admin ∷ []))
        × (any_unlocked_admin app (updated_row app kept admin ∷ []) ≡ true))
front_update_users_unlocked_example =
    front_update_users_unlocked app (tx_laws true) (λ tx u db. refl) kept administered (text "t")
      admin (admin ∷ []) token_sent admin_found refl refl

front_update_users-map_example :
    ((front_update_users app kept administered).0 ≡ reply (redirect 303 (get_return_url app kept)))
    × (store.find_users after.db
        ≡ ok (
            if any_unlocked_admin app (updated_row app kept admin ∷ [])
            then updated_row app kept admin ∷ []
            else admin ∷ []))
front_update_users-map_example =
    front_update_users-map app (tx_laws true) (λ tx u db. refl) kept administered (text "t") admin
      (admin ∷ []) token_sent admin_found refl refl (λ uuid db. refl) (λ tx db. refl)

front_update_writes_example :
    Written app kept admin administered (front_update app kept administered).1.db
front_update_writes_example =
    front_update_writes app kept admin administered (text "t") token_sent admin_found

-- A registration with an invite, and one without.
abbrev invited : World store
invited = state none (some (record { code = text "code"; created_at = pos 0 }))

abbrev alex : Request
alex = request λ key.
    if key == text "username"
    then text "alex"
    else if key == text "password"
    then text "password"
    else if key == text "inviteCode"
    then text "code"
    else []

abbrev home : Text
home = text "https://drasl.example.com/drasl/profile"

abbrev registered : World store
registered = (front_register app home alex invited).1

front_register_rows_example :
    (store.find_users registered.db ≡ ok [])
    ⊎ (((front_register app home alex invited).0 ≡ reply (redirect 303 home))
        × (now : List User) × (store.find_users registered.db ≡ ok now)
        × IsAdded app (text "password") [] now registered.set_cookies)
unfolding text text_beq
front_register_rows_example =
    front_register_rows app (tx_laws true) invite_laws home alex invited [] refl

required : invite_required app alex ≡ true
unfolding invite_required text text_beq
required = refl

abbrev users_in : World store → ℕ
users_in w = elim (w.db.row) [ none ↦ 0 | some u ↦ 1 ]

one_user : users_in registered ≡ 1
unfolding front_register check_registration strip_query_param get_return_url validate_username
    validate_player_name transient_login_eligible validate_password choose_account new_account
    find_invite choose_uuid new_user hash_password random_hex hex_encode offline_uuid set_version_3
    register_user save_registration check_created use_invite log_in contains text text_beq
one_user = refl

users_found : (w : World store) → store.find_users w.db ≡ ok [] → users_in w ≡ 0
users_found w h =
    elim (w.db.row)
        as (λ row. ok (rows row) ≡ ok [] → elim row as (λ _. ℕ) [ none ↦ 0 | some u ↦ 1 ] ≡ 0) [
          | none ↦ λ h. refl
          | some u ↦ λ h. absurd (ground (arith, h))
        ]
      h

registers : store.find_users registered.db ≢ store.find_users invited.db
registers e = ground (arith, one_user, users_found registered e)

front_register_once_example : (front_register app home alex registered).1.db ≡ registered.db
front_register_once_example =
    front_register_once app (tx_laws true) invite_laws home alex alex invited registered required
      required refl registers refl

front_register_succeeds_example :
    ((front_register app home alex invited).0 ≡ reply (redirect 303 home))
    × (now : List User) × (store.find_users registered.db ≡ ok now)
    × IsAdded app (text "password") [] now registered.set_cookies
unfolding strip_query_param get_return_url validate_username validate_player_name
    transient_login_eligible validate_password hash_password offline_uuid set_version_3 contains
    text text_beq
front_register_succeeds_example =
    front_register_succeeds app (tx_laws true) invite_laws home alex invited []
      (record { code = text "code"; created_at = pos 0 }) _ _ _ _ _ refl refl refl refl refl refl
      refl refl refl refl refl refl refl refl (λ u username uuid. refl) (λ tx db. refl)
      (λ tx db. refl)

-- Some time after the registration.
abbrev later : World store
later = record { db = registered.db; cache = []; files = tt; moment = 7; set_cookies = [] }

front_register-front_login_example :
    (now : List User) × (store.find_users later.db ≡ ok now)
    × (added : IsAdded app (text "password") [] now registered.set_cookies) × ((front_login app
          (login_form alex added.user.username (text "password"))
          later).0
        ≡ reply (redirect 303 (app.front_end_url ++ text "/drasl/profile")))
unfolding text text_beq
front_register-front_login_example =
    front_register-front_login app (tx_laws true) invite_laws table_laws home alex alex invited
      later [] _ refl registers refl refl refl
