-- ===== src/Front/Profile.antt =====
-- `FrontProfile` of front.go.
use yggdrasil_authentication.Base.{
  Bool, true, false, not, ◌||◌, Option, none, some, [], ◌∷◌, ◌==◌, text_eq, Text, text,
  if◌then◌else◌,
}
use yggdrasil_authentication.Types.{Result, ok, err, User, NullString, redirect, render_profile}
use yggdrasil_authentication.Platform.{Platform, by_username}
use yggdrasil_authentication.Action.{
  App, Action, Handler, ◌>>=◌, ◌>>◌, pure, respond, or_return, query,
}
use yggdrasil_authentication.Model.Ids.{uuid_to_id}
use yggdrasil_authentication.Model.Names.{skin_url, cape_url}
use yggdrasil_authentication.Front.{Request, set_error_message, refuse, with_login}
use yggdrasil_authentication.Front.Messages.{page_messages}

module _ ⦃P : Platform⦄ (app : App P) where
  -- Whose profile is shown, and whether as an admin.
  unfoldable pub shown_user : Request → User → Action (User × Bool)
  shown_user req user =
      let profile_username = req.query_param (text "user") in
      if profile_username == [] || profile_username == user.username
      then pure (user, false)
      else if not user.is_admin
      then refuse app app.front_end_url (text "You are not an admin.")
      else (do
        result ← query (P.first_user (by_username profile_username))
        elim result [
          | ok profile_user ↦ pure (profile_user, true)
          | err e ↦ (do
            set_error_message app "User not found."
            return_url ← or_return (P.url_join_path app.front_end_url (text "drasl/admin" ∷ []))
            respond (redirect 303 return_url))
        ])

  -- The URL of a texture, if there is one.
  unfoldable pub texture_url : (Text → Result Text) → NullString → Action (Option Text)
  texture_url url_of hash =
      if hash.valid then (or_return (url_of hash.string) >>= λ url. pure (some url)) else pure none

  -- `FrontProfile`.
  unfoldable pub front_profile : Request → Handler
  front_profile req =
      with_login app
        (λ user. (do
          shown ← shown_user req user
          let profile_user = shown.0
          skin ← texture_url (skin_url app) profile_user.skin_hash
          cape ← texture_url (cape_url app) profile_user.cape_hash
          id ← or_return (uuid_to_id profile_user.uuid)
          messages ← page_messages req
          respond (
              render_profile 200 (record {
                user = user;
                messages = messages;
                profile_user = profile_user;
                profile_user_id = id;
                skin_url = skin;
                cape_url = cape;
                admin_view = shown.1;
              }))))
        req
