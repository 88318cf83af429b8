-- ===== src/Tests/Pages.antt =====
-- The theorems on pages and messages, for an admin's browser.
use yggdrasil_authentication.Base.{
  ◌≡◌, refl, true, Option, none, some, [], ◌∷◌, ◌==◌, text_eq, text_beq, Text, text, if◌then◌else◌,
}
use yggdrasil_authentication.Types.{User, AdminContext, render_admin}
use yggdrasil_authentication.Platform.Laws.{QueryLaws}
use yggdrasil_authentication.Action.{World, reply}
use yggdrasil_authentication.Model.Ids.{make_null_string}
use yggdrasil_authentication.Front.{
  Request, browser_token_of, with_browser_authentication, with_login, with_browser_admin,
}
use yggdrasil_authentication.Front.Messages.{last_message, page_messages}
use yggdrasil_authentication.Front.Messages.Shown.{receive, refused}
use yggdrasil_authentication.Front.Pages.{front_admin}
use yggdrasil_authentication.Front.Pages.Guarded.{IsGuarded, front_admin-IsGuarded}
use yggdrasil_authentication.Tests.Memory.{platform}
use yggdrasil_authentication.Tests.Sample.{app, steve, state}

-- An admin, who is logged in with the browser token "t".
abbrev admin : User
admin = record steve { is_admin = true; browser_token = make_null_string (some (text "t")) }

abbrev administered : World platform
administered = state (some admin) none

abbrev jar : Text → Option Text
jar name = if name == text "browserToken" then some (text "t") else none

abbrev visit : Request
visit = record {
  form_value = λ key. [];
  query_param = λ key. [];
  cookie = jar;
  form_file = λ name. none;
}

abbrev overview : AdminContext
overview = record {
  user = admin;
  messages = record { success = []; warning = []; error = [] };
  users = admin ∷ [];
  invites = [];
}

answers : front_admin app visit administered ≡ (reply (render_admin 200 overview), administered)
unfolding front_admin with_browser_admin with_login with_browser_authentication browser_token_of
    page_messages last_message text text_beq
answers = refl

front_admin-IsGuarded_example : IsGuarded app visit administered administered 200 overview answers
front_admin-IsGuarded_example =
    front_admin-IsGuarded app visit administered administered 200 overview answers

query_laws : QueryLaws platform
query_laws = record {
  query_unescape-query_escape = λ s. refl;
  query_escape_empty = refl;
  query_escape_some = λ s h. h;
}

abbrev held : Text → Option Text
held = receive (refused app [] (text "Account is locked.") administered).1.set_cookies jar
