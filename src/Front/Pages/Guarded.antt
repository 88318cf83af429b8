-- ===== src/Front/Pages/Guarded.antt =====
-- About `FrontAdmin` of front.go: who sees the users and the invites.
use yggdrasil_authentication.Base.{
  ℕ, ◌≡◌, refl, true, false, Option, none, some, List, [], Bool, ◌≢◌, Text, arith,
}
use yggdrasil_authentication.Types.{
  Result, ok, err, User, Invite, AdminContext, render_admin, Messages, Response,
}
use yggdrasil_authentication.Platform.{Platform, by_browser_token}
use yggdrasil_authentication.Action.{App, World, Exit, next, reply, fail, panic}
use yggdrasil_authentication.Front.{
  Request, browser_token_of, with_browser_authentication, with_login, with_browser_admin,
}
use yggdrasil_authentication.Front.Messages.{last_message, page_messages}
use yggdrasil_authentication.Front.Pages.{front_admin}

abbrev token_text : Option Text → Text
token_text none = []
token_text (some token) = token

abbrev admin_of : Result User → Bool
admin_of (ok user) = user.is_admin
admin_of (err e) = false

module _ ⦃P : Platform⦄ where
  page_messages_keeps : (req : Request) (w : World P) → (page_messages req w).1.db ≡ w.db
  unfolding page_messages last_message
  page_messages_keeps req w = ground arith

  messages_go_on :
      (req : Request) (w : World P) (r : Response) (w1 : World P)
      → page_messages req w ≢ (reply r, w1)
  unfolding page_messages last_message
  messages_go_on req w r w1 run = ground (arith, run)

  module _ (app : App P) (req : Request) (w w' : World P) (code : ℕ) (ctx : AdminContext)
      (answered : front_admin app req w ≡ (reply (render_admin code ctx), w')) where
    -- The page is shown to the admin of the browser's token, with what the database holds.
    pub record IsGuarded : Type 0 where
      pub token : Text
      pub sent : browser_token_of app req ≡ some token
      pub logged_in : P.first_user (by_browser_token token) w.db ≡ ok ctx.user
      pub powerful : ctx.user.is_admin ≡ true
      pub users : P.find_users w.db ≡ ok ctx.users
      pub invites : P.find_invites w.db ≡ ok ctx.invites
      pub kept : w'.db ≡ w.db

    by_messages :
        (token : Text) (user : User) (users : List User) (invites : List Invite)
        → browser_token_of app req ≡ some token
        → P.first_user (by_browser_token token) w.db ≡ ok user
        → user.is_admin ≡ true
        → P.find_users w.db ≡ ok users
        → P.find_invites w.db ≡ ok invites
        → (e : Exit Messages) (w1 : World P) → page_messages req w ≡ (e, w1)
        → IsGuarded
    unfolding front_admin with_browser_admin with_login with_browser_authentication
    by_messages token user users invites t f a u i (next m) w1 run = record {
      token = token;
      sent = t;
      logged_in = ground (arith, answered, t, f, a, u, i, run);
      powerful = ground (arith, answered, t, f, a, u, i, run);
      users = ground (arith, answered, t, f, a, u, i, run);
      invites = ground (arith, answered, t, f, a, u, i, run);
      kept = ground (arith, answered, t, f, a, u, i, run, page_messages_keeps req w);
    }
    by_messages token user users invites t f a u i (reply r) w1 run =
        absurd (messages_go_on req w r w1 run)
    by_messages token user users invites t f a u i (fail x) w1 run =
        absurd (ground (arith, answered, t, f, a, u, i, run))
    by_messages token user users invites t f a u i panic w1 run =
        absurd (ground (arith, answered, t, f, a, u, i, run))

    by_tables :
        (token : Text) (user : User)
        → browser_token_of app req ≡ some token
        → P.first_user (by_browser_token token) w.db ≡ ok user
        → user.is_admin ≡ true
        → (users : Result (List User)) → P.find_users w.db ≡ users
        → (invites : Result (List Invite)) → P.find_invites w.db ≡ invites
        → IsGuarded
    unfolding front_admin with_browser_admin with_login with_browser_authentication
    by_tables token user t f a (ok users) u (ok invites) i =
        by_messages token user users invites t f a u i _ _ refl
    by_tables token user t f a (err e) u invites i = absurd (ground (arith, answered, t, f, a, u))
    by_tables token user t f a (ok users) u (err e) i =
        absurd (ground (arith, answered, t, f, a, u, i))

    by_user :
        (token : Option Text)
        → browser_token_of app req ≡ token
        → (found : Result User) → P.first_user (by_browser_token (token_text token)) w.db ≡ found
        → (powerful : Bool) → admin_of found ≡ powerful
        → IsGuarded
    unfolding front_admin with_browser_admin with_login with_browser_authentication
    by_user none t found f b a = absurd (ground (arith, answered, t))
    by_user (some token) t (ok user) f true a = by_tables token user t f a _ refl _ refl
    by_user (some token) t (ok user) f false a = absurd (ground (arith, answered, t, f, a))
    by_user (some token) t (err e) f b a = absurd (ground (arith, answered, t, f))

    -- Whoever is shown the page of `FrontAdmin` is an admin whose browser token the request bears, and
    -- it shows the users and the invites of the database, which is left alone.
    pub front_admin-IsGuarded : IsGuarded
    front_admin-IsGuarded = by_user _ refl _ refl _ refl
