-- ===== src/Front/Pages.antt =====
-- The pages of front.go that read: `FrontRoot`, `FrontRegistration` and `FrontAdmin`.
pub mod Guarded
use yggdrasil_authentication.Base.{false, Text, text}
use yggdrasil_authentication.Types.{render_root, render_registration, render_admin}
use yggdrasil_authentication.Platform.{Platform}
use yggdrasil_authentication.Action.{App, Handler, ◌>>=◌, respond, or_return, query}
use yggdrasil_authentication.Front.{Request, with_browser_authentication, with_browser_admin}
use yggdrasil_authentication.Front.Messages.{page_messages}

module _ ⦃P : Platform⦄ (app : App P) where
  -- `FrontRoot`.
  unfoldable pub front_root : Request → Handler
  front_root req =
      with_browser_authentication app false
        (λ user. (do
          messages ← page_messages req
          respond (render_root 200 (record { user = user; messages = messages }))))
        req

  -- `FrontRegistration`.
  unfoldable pub front_registration : Request → Handler
  front_registration req =
      with_browser_authentication app false
        (λ user. (do
          let invite_code = req.query_param (text "invite")
          messages ← page_messages req
          respond (
              render_registration 200
                (record { user = user; messages = messages; invite_code = invite_code }))))
        req

  -- `FrontAdmin`.
  unfoldable pub front_admin : Request → Handler
  front_admin req =
      with_browser_admin app
        (λ user. (do
          users ← query P.find_users >>= or_return
          invites ← query P.find_invites >>= or_return
          messages ← page_messages req
          respond (
              render_admin 200
                (record { user = user; messages = messages; users = users; invites = invites }))))
        req
