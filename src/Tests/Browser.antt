-- ===== src/Tests/Browser.antt =====
-- The theorems on logging in through the browser, at a concrete server.
use yggdrasil_authentication.Base.{
  ◌≡◌, ◌⊎◌, ◌≢◌, refl, false, none, some, [], ◌==◌, text_eq, text_beq, Text, text, replicate,
  get_elem?, if◌then◌else◌, ap, arith,
}
use yggdrasil_authentication.Types.{ok, err, record_not_found}
use yggdrasil_authentication.Platform.{by_username, by_browser_token}
use yggdrasil_authentication.Random.{hex_encode}
use yggdrasil_authentication.Model.Ids.{make_null_string}
use yggdrasil_authentication.Model.Names.{transient_login_eligible, hash_password}
use yggdrasil_authentication.Front.{Request, front_login}
use yggdrasil_authentication.Front.Login.{IsNoLogin, IsLogin, front_login_admits}
use yggdrasil_authentication.Tests.Memory.{Db, platform}
use yggdrasil_authentication.Tests.Sample.{app, steve, launcher, logged_in}

abbrev form : Text → Text → Text
form password key =
    if key == text "username" then text "steve" else if key == text "password" then password else []

abbrev request : Text → Request
request password = record {
  form_value = form password;
  query_param = λ key. [];
  cookie = λ name. none;
  form_file = λ name. none;
}

ordinary :
    (password : Text)
    → transient_login_eligible app ((request password).form_value (text "username")) ≡ false
unfolding transient_login_eligible text text_beq
ordinary password = refl

steve_found :
    (password : Text)
    → platform.first_user
        (by_username ((request password).form_value (text "username")))
        logged_in.db
      ≡ ok steve
unfolding text text_beq
steve_found password = refl

guess_hashed :
    hash_password app ((request (text "guess")).form_value (text "password")) steve.password_salt
    ≡ ok (text "saltguess")
unfolding hash_password text text_beq
guess_hashed = refl

guess_wrong : text "saltguess" ≢ steve.password_hash
unfolding text
guess_wrong e = ground (arith, ap (λ (s : Text). get_elem? s 4) e)

abbrev right : Request
right = request (text "password")

right_hashed :
    hash_password app (right.form_value (text "password")) steve.password_salt
    ≡ ok steve.password_hash
unfolding hash_password text text_beq
right_hashed = refl

abbrev token : Text
token = hex_encode (replicate 32 0)

abbrev session_db : Db
session_db = record {
  user = some (record steve { browser_token = make_null_string (some token) });
  client = some launcher;
}

token_unused : platform.first_user (by_browser_token token) logged_in.db ≡ err record_not_found
token_unused = refl

session_saved :
    platform.save_user (record steve { browser_token = make_null_string (some token) }) logged_in.db
    ≡ (none, session_db)
session_saved = refl

front_login_admits_example :
    IsNoLogin app logged_in (front_login app right logged_in).1 ⊎ IsLogin app right logged_in
front_login_admits_example = front_login_admits app right logged_in
