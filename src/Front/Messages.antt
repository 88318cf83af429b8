-- ===== src/Front/Messages.antt =====
-- The messages of front.go, which one response sets as cookies and the next page shows and clears.
pub mod Shown
use yggdrasil_authentication.Base.{none, some, Option, [], ◌==◌, text_eq, Text, text, if◌then◌else◌}
use yggdrasil_authentication.Base.Int.{pos}
use yggdrasil_authentication.Types.{ok, err, Messages}
use yggdrasil_authentication.Platform.{Platform}
use yggdrasil_authentication.Action.{Action, Cookie, ◌>>=◌, ◌>>◌, pure, set_cookie}
use yggdrasil_authentication.Front.{Request}

module _ ⦃P : Platform⦄ where
  -- The cookie that `setSuccessMessage`, `setWarningMessage` and `setErrorMessage` set.
  abbrev pub message_cookie : Text → Text → Cookie
  message_cookie name message = record {
    name = name;
    value = P.query_escape message;
    max_age = pos 0;
  }

  -- `lastSuccessMessage`, `lastWarningMessage` and `lastErrorMessage`.
  unfoldable pub last_message : Text → Request → Action Text
  last_message name req = elim (req.cookie name) [
    | none ↦ pure []
    | some value ↦ if value == [] then pure [] else elim (P.query_unescape value) [
      | err e ↦ pure []
      | ok decoded ↦ set_cookie (message_cookie name []) >> pure decoded
    ]
  ]

  -- The messages of a page.
  unfoldable pub page_messages : Request → Action Messages
  page_messages req = do
    success ← last_message (text "successMessage") req
    warning ← last_message (text "warningMessage") req
    error ← last_message (text "errorMessage") req
    pure (record { success = success; warning = warning; error = error })
