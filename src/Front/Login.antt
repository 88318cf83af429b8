-- ===== src/Front/Login.antt =====
-- About `FrontLogin` and `withBrowserAuthentication` of front.go.
use yggdrasil_authentication.Base.{
  ℕ, ◌+◌, ◌≡◌, ◌⊎◌, refl, inl, inr, true, false, Option, none, some, List, [], ◌∷◌, ◌++◌, ◌==◌,
  Bool-cases, ap, ◌∙◌, text_beq_refl, if◌then◌else◌, text_eq, text_beq, text_beq_iff, Text, text,
  arith,
}
use yggdrasil_authentication.Base.Int.{pos}
use yggdrasil_authentication.Types.{
  Result, ok, err, record_not_found, http_error, errors_new, User, redirect,
}
use yggdrasil_authentication.Platform.{Platform, by_username, by_browser_token}
use yggdrasil_authentication.Platform.Laws.{UserLaws}
use yggdrasil_authentication.Action.{App, Handler, World, Cookie, reply}
use yggdrasil_authentication.Random.{hex_encode, random_hex}
use yggdrasil_authentication.Model.Ids.{make_null_string}
use yggdrasil_authentication.Model.Names.{transient_login_eligible, hash_password}
use yggdrasil_authentication.Front.{
  Request, browser_token_age_sec, browser_token_of, with_browser_authentication, start_session,
  login_user, front_login,
}

not_token : text_beq (text "errorMessage") (text "browserToken") ≡ false
unfolding text text_beq
not_token = refl

module _ ⦃P : Platform⦄ (app : App P) where
  -- The values of the cookies that carry a browser token.
  abbrev pub browser_tokens : List Cookie → List Text
  browser_tokens [] = []
  browser_tokens (c ∷ cookies) =
      if c.name == text "browserToken"
      then c.value ∷ browser_tokens cookies
      else browser_tokens cookies

  browser_tokens-append :
      (cookies : List Cookie) (c : Cookie)
      → c.name == text "browserToken" ≡ false
      → browser_tokens (cookies ++ c ∷ []) ≡ browser_tokens cookies
  browser_tokens-append [] c other = ground (arith, other)
  browser_tokens-append (d ∷ cookies) c other =
      ground (arith, browser_tokens-append cookies c other)

  -- Nothing is written, and no cookie with a browser token is set.
  pub record IsNoLogin (w w' : World P) : Type 0 where
    pub same_db : w'.db ≡ w.db
    pub no_token : browser_tokens w'.set_cookies ≡ browser_tokens w.set_cookies

  -- The user of the form is ordinary, is not locked and has the password of the form; a token is
  -- drawn, set as a cookie and stored with the user, and the browser is sent to the profile.
  pub record IsLogin (req : Request) (w : World P) : Type 0 where
    pub user : User
    pub bytes : Text
    pub ordinary : transient_login_eligible app (req.form_value (text "username")) ≡ false
    pub found : P.first_user (by_username (req.form_value (text "username"))) w.db ≡ ok user
    pub unlocked : user.is_locked ≡ false
    pub hashed :
        hash_password app (req.form_value (text "password")) user.password_salt
        ≡ ok user.password_hash
    pub drawn : P.rand_read w.moment 32 ≡ ok bytes
    pub stored :
        (front_login app req w).1.db
        ≡ (P.save_user
            (record user { browser_token = make_null_string (some (hex_encode bytes)) })
            w.db).1
    pub sent :
        (front_login app req w).1.set_cookies
        ≡ w.set_cookies
          ++ record {
            name = text "browserToken";
            value = hex_encode bytes;
            max_age = pos browser_token_age_sec;
          }
            ∷ []
    pub answer :
        (front_login app req w).0
        ≡ reply (redirect 303 (app.front_end_url ++ text "/drasl/profile"))

  -- A response of `FrontLogin` that only has an error message.
  refused :
      (req : Request) (w : World P) (value : Text)
      → (front_login app req w).1.db ≡ w.db
      → (front_login app req w).1.set_cookies
        ≡ w.set_cookies
          ++ record { name = text "errorMessage"; value = value; max_age = pos 0 } ∷ []
      → IsNoLogin w (front_login app req w).1
  refused req w value db cookies = record {
    same_db = db;
    no_token =
        ap browser_tokens cookies
        ∙ browser_tokens-append w.set_cookies
            (record { name = text "errorMessage"; value = value; max_age = pos 0 }) not_token;
  }

  module _ (req : Request) (w : World P) where
    abbrev Outcome : Type 0
    Outcome = IsNoLogin w (front_login app req w).1 ⊎ IsLogin req w

    by_bytes :
        (user : User) (drawn : Result Text)
        → transient_login_eligible app (req.form_value (text "username")) ≡ false
        → P.first_user (by_username (req.form_value (text "username"))) w.db ≡ ok user
        → user.is_locked ≡ false
        → hash_password app (req.form_value (text "password")) user.password_salt
          ≡ ok user.password_hash
        → P.rand_read w.moment 32 ≡ drawn
        → Outcome
    unfolding front_login login_user start_session random_hex
    by_bytes user (err e) o f u h d =
        let same = text_beq_refl user.password_hash in
        inl (record {
          same_db = ground (arith, o, f, u, h, d, same);
          no_token = ground (arith, o, f, u, h, d, same);
        })
    by_bytes user (ok bytes) o f u h d =
        let same = text_beq_refl user.password_hash in
        inr (record {
          user = user;
          bytes = bytes;
          ordinary = o;
          found = f;
          unlocked = u;
          hashed = h;
          drawn = d;
          stored = ground (arith, o, f, u, h, d, same);
          sent = ground (arith, o, f, u, h, d, same);
          answer = ground (arith, o, f, u, h, d, same);
        })

    by_hash :
        (user : User) (hash : Result Text)
        → transient_login_eligible app (req.form_value (text "username")) ≡ false
        → P.first_user (by_username (req.form_value (text "username"))) w.db ≡ ok user
        → user.is_locked ≡ false
        → hash_password app (req.form_value (text "password")) user.password_salt ≡ hash
        → Outcome
    unfolding front_login login_user
    by_hash user (err e) o f u h =
        inl (record { same_db = ground (arith, o, f, u, h); no_token = ground (arith, o, f, u, h) })
    by_hash user (ok hash) o f u h = elim (Bool-cases (hash == user.password_hash)) [
      | inl same ↦
          by_bytes user _ o f u (h ∙ ap ok ((text_beq_iff hash user.password_hash).0 same)) refl
      | inr wrong ↦ inl (
          refused req w (P.query_escape (text "Incorrect password!"))
            (ground (arith, o, f, u, h, wrong)) (ground (arith, o, f, u, h, wrong)))
    ]

    by_user :
        (found : Result User)
        → transient_login_eligible app (req.form_value (text "username")) ≡ false
        → P.first_user (by_username (req.form_value (text "username"))) w.db ≡ found
        → Outcome
    unfolding front_login login_user
    by_user (err record_not_found) o f = inl (
        refused req w (P.query_escape (text "User not found!")) (ground (arith, o, f))
          (ground (arith, o, f)))
    by_user (err (http_error code message)) o f =
        inl (record { same_db = ground (arith, o, f); no_token = ground (arith, o, f) })
    by_user (err (errors_new s)) o f =
        inl (record { same_db = ground (arith, o, f); no_token = ground (arith, o, f) })
    by_user (ok user) o f = elim (Bool-cases user.is_locked) [
      | inl locked ↦ inl (
          refused req w (P.query_escape (text "Account is locked.")) (ground (arith, o, f, locked))
            (ground (arith, o, f, locked)))
      | inr unlocked ↦ by_hash user _ o f unlocked refl
    ]

    -- Whatever the form, `FrontLogin` leaves the database alone and sets no cookie with a browser
    -- token; or the form's user name is that of an ordinary user who is not locked and whose password
    -- has the hash of the form's, and then a token is made of random bytes, which is the one cookie
    -- that is set and is stored with the user, and the browser is sent to the profile.
    pub front_login_admits : IsNoLogin w (front_login app req w).1 ⊎ IsLogin req w
    unfolding front_login
    front_login_admits =
        elim (Bool-cases (transient_login_eligible app (req.form_value (text "username")))) [
          | inl transient ↦ inl (
              refused req w
                (P.query_escape (text "Transient accounts cannot access the web interface."))
                (ground (arith, transient)) (ground (arith, transient)))
          | inr ordinary ↦ by_user _ ordinary refl
        ]

  module _ (laws : UserLaws P) (req : Request) (w : World P) (user : User) (b : ℕ) (bytes : Text)
      (db' : P.Db)
      (ordinary : transient_login_eligible app (req.form_value (text "username")) ≡ false)
      (found : P.first_user (by_username (req.form_value (text "username"))) w.db ≡ ok user)
      (unlocked : user.is_locked ≡ false)
      (hashed : hash_password app (req.form_value (text "password")) user.password_salt
        ≡ ok user.password_hash)
      (drawn : P.rand_read w.moment 32 ≡ ok (b ∷ bytes))
      (new_token : P.first_user (by_browser_token (hex_encode (b ∷ bytes))) w.db
        ≡ err record_not_found)
      (saved : P.save_user
          (record user { browser_token = make_null_string (some (hex_encode (b ∷ bytes))) })
          w.db
        ≡ (none, db')) where
    logs_in : front_login app req w ≡ (
      reply (redirect 303 (app.front_end_url ++ text "/drasl/profile")),
      record w {
        db = db';
        moment = w.moment + 1;
        set_cookies =
            w.set_cookies
            ++ record {
              name = text "browserToken";
              value = hex_encode (b ∷ bytes);
              max_age = pos browser_token_age_sec;
            }
              ∷ [];
      },
    )
    unfolding front_login login_user start_session random_hex
    logs_in = ground (
      arith,
      ordinary,
      found,
      unlocked,
      hashed,
      drawn,
      saved,
      text_beq_iff user.password_hash user.password_hash,
    )

    recognized :
        (f : Option User → Handler) (again : Request) (later : World P)
        → later.db ≡ db'
        → again.cookie (text "browserToken") ≡ some (hex_encode (b ∷ bytes))
        → with_browser_authentication app true f again later
          ≡ f
              (some (record user {
                browser_token = make_null_string (some (hex_encode (b ∷ bytes)));
                clients = [];
              }))
              later
    unfolding with_browser_authentication browser_token_of hex_encode text_beq
    recognized f again later same cookie =
        let row =
          laws.save_user_finds_token (req.form_value (text "username")) (hex_encode (b ∷ bytes))
            user w.db db' found new_token saved in
        ground (arith, same, cookie, row)

    -- If a user who is not locked and not eligible for a transient login logs in with the right
    -- password, the random token that is drawn is not empty and no other user's, and the database
    -- does not fail, then the browser is sent to the profile page with that token as its cookie,
    -- for a day; and as long as the database is as the login left it, a page behind the browser
    -- authentication is run for that user when the cookie comes back. This rests on the documented
    -- behaviour of GORM.
    pub front_login-with_browser_authentication :
        (w' : World P) × (front_login app req w
          ≡ (reply (redirect 303 (app.front_end_url ++ text "/drasl/profile")), w'))
        × (w'.set_cookies
            ≡ w.set_cookies
              ++ record {
                name = text "browserToken";
                value = hex_encode (b ∷ bytes);
                max_age = pos browser_token_age_sec;
              }
                ∷ [])
        × ((f : Option User → Handler) (again : Request) (later : World P)
            → later.db ≡ w'.db
            → again.cookie (text "browserToken") ≡ some (hex_encode (b ∷ bytes))
            → with_browser_authentication app true f again later
              ≡ f
                  (some (record user {
                    browser_token = make_null_string (some (hex_encode (b ∷ bytes)));
                    clients = [];
                  }))
                  later)
    front_login-with_browser_authentication = (_, logs_in, refl, recognized)
