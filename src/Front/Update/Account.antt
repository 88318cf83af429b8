-- ===== src/Front/Update/Account.antt =====
-- About `FrontUpdate` of front.go: what it may write.
use yggdrasil_authentication.Base.{
  ◌≡◌, refl, ◌∙◌, Bool, Option, none, some, List, Text, text, text_eq, arith,
}
use yggdrasil_authentication.Types.{Result, Error, User, Client, NullString}
use yggdrasil_authentication.Platform.{Platform, Reader}
use yggdrasil_authentication.Action.{App, Action, World, Exit, next, reply, fail, panic, ◌>>=◌}
use yggdrasil_authentication.Textures.{
  write_texture, create_texture, delete_if_unused, delete_skin_if_unused, delete_cape_if_unused,
  get_skin_path, get_cape_path,
}
use yggdrasil_authentication.Front.{Request}
use yggdrasil_authentication.Front.Update.{
  TextureChange, hash_after, update_player_name, update_fallback_player, update_language,
  update_password, update_skin_model, open_texture, take_texture, change_texture, replace_texture,
  replace_textures, save_profile, update_fields,
}

-- The part of a user's row that says who may do what.
abbrev pub account : User → Text × Text × Bool × Bool × NullString × NullString × List Client
account u = (u.uuid, u.username, u.is_admin, u.is_locked, u.browser_token, u.server_id, u.clients)

module _ ⦃P : Platform⦄ (app : App P) where
  -- An action on a user that leaves the database and the user's account as they were.
  abbrev KeepsAccount : User → Action User → Type 0
  KeepsAccount target m =
      (w : World P)
      → ((m w).1.db ≡ w.db)
        × ((u : User) (w' : World P) → m w ≡ (next u, w') → account u ≡ account target)

  bind_account :
      (target : User) (m : Action User) (f : User → Action User)
      → KeepsAccount target m
      → ((u : User) → KeepsAccount u (f u))
      → KeepsAccount target (m >>= f)
  bind_account target m f hm hf w = by_exit (m w).0 (m w).1 refl
    where
      by_exit :
          (e : Exit User) (w1 : World P)
          → m w ≡ (e, w1)
          → (((m >>= f) w).1.db ≡ w.db)
            × ((u : User) (w' : World P) → (m >>= f) w ≡ (next u, w') → account u ≡ account target)
      by_exit (next a) w1 e = (
        ground (arith, e, (hm w).0, (hf a w1).0),
        λ u w' h. (hf a w1).1 u w' (ground (arith, e, h)) ∙ (hm w).1 a w1 e,
      )
      by_exit (reply r) w1 e =
          (ground (arith, e, (hm w).0), λ u w' h. absurd (ground (arith, e, h)))
      by_exit (fail x) w1 e = (ground (arith, e, (hm w).0), λ u w' h. absurd (ground (arith, e, h)))
      by_exit panic w1 e = (ground (arith, e, (hm w).0), λ u w' h. absurd (ground (arith, e, h)))

  player_name_account :
      (req : Request) (user target : User)
      → KeepsAccount target (update_player_name app req user target)
  unfolding update_player_name
  player_name_account req user target w = (ground arith, λ u w' h. ground (arith, h))

  fallback_account :
      (req : Request) (target : User) → KeepsAccount target (update_fallback_player app req target)
  unfolding update_fallback_player
  fallback_account req target w = (ground arith, λ u w' h. ground (arith, h))

  language_account :
      (req : Request) (target : User) → KeepsAccount target (update_language app req target)
  unfolding update_language
  language_account req target w = (ground arith, λ u w' h. ground (arith, h))

  password_account :
      (req : Request) (target : User) → KeepsAccount target (update_password app req target)
  unfolding update_password
  password_account req target w = (ground arith, λ u w' h. ground (arith, h))

  skin_model_account :
      (req : Request) (target : User) → KeepsAccount target (update_skin_model app req target)
  unfolding update_skin_model
  skin_model_account req target w = (ground arith, λ u w' h. ground (arith, h))

  pub fields_account :
      (req : Request) (user target : User) → KeepsAccount target (update_fields app req user target)
  unfolding update_fields
  fields_account req user target =
      bind_account target
        (update_player_name app req user target
          >>= update_fallback_player app req
          >>= update_language app req
          >>= update_password app req)
        (update_skin_model app req)
        (bind_account target
          (update_player_name app req user target
            >>= update_fallback_player app req
            >>= update_language app req)
          (update_password app req)
          (bind_account target
            (update_player_name app req user target >>= update_fallback_player app req)
            (update_language app req)
            (bind_account target (update_player_name app req user target)
              (update_fallback_player app req) (player_name_account req user target)
              (fallback_account req))
            (language_account req))
          (password_account req))
        (skin_model_account req)

  take_texture_keeps :
      (kind : Text) (allowed : Bool) (validate : Reader → Option Error) (back : Text)
      (file : Option (Result Reader)) (url : Text) (w : World P)
      → (take_texture app kind allowed validate back file url w).1.db ≡ w.db
  unfolding take_texture open_texture
  take_texture_keeps kind allowed validate back none url w = ground arith
  take_texture_keeps kind allowed validate back (some file) url w = ground arith

  pub change_texture_keeps :
      (kind : Text) (allowed : Bool) (validate : Reader → Option Error) (back : Text)
      (file : Option (Result Reader)) (url : Text) (deleted : Bool) (w : World P)
      → (change_texture app kind allowed validate back file url deleted w).1.db ≡ w.db
  unfolding change_texture
  change_texture_keeps kind allowed validate back none url deleted w =
      ground (arith, take_texture_keeps kind allowed validate back none url w)
  change_texture_keeps kind allowed validate back (some file) url deleted w =
      take_texture_keeps kind allowed validate back (some file) url w

  write_texture_keeps : (path buf : Text) (w : World P) → (write_texture app path buf w).1.db ≡ w.db
  unfolding write_texture create_texture
  write_texture_keeps path buf w = ground arith

  delete_keeps :
      (in_use : Text → P.Db → Result Bool) (get_path : Text → Text) (hash : Option Text)
      (w : World P)
      → (delete_if_unused app in_use get_path hash w).1.db ≡ w.db
  unfolding delete_if_unused
  delete_keeps in_use get_path none w = refl
  delete_keeps in_use get_path (some hash) w = ground arith

  replace_texture_keeps :
      (kind : Text) (get_path : Text → Text) (delete : Option Text → Action (Unit {0}))
      (back : Text) (buf old new : Option Text)
      → ((hash : Option Text) (w : World P) → (delete hash w).1.db ≡ w.db)
      → (w : World P) → (replace_texture app kind get_path delete back buf old new w).1.db ≡ w.db
  unfolding replace_texture
  replace_texture_keeps kind get_path delete back buf old none keeps w = grind (arith, keeps)
  replace_texture_keeps kind get_path delete back none old (some hash) keeps w = ground arith
  replace_texture_keeps kind get_path delete back (some content) old (some hash) keeps w =
      grind (arith, keeps, write_texture_keeps)

  replace_textures_keeps :
      (req : Request) (target changed : User) (skin cape : TextureChange) (w : World P)
      → (replace_textures app req target changed skin cape w).1.db ≡ w.db
  unfolding replace_textures delete_skin_if_unused delete_if_unused delete_cape_if_unused
  replace_textures_keeps req target changed skin cape w = grind (
    arith,
    replace_texture_keeps (text "skin") (get_skin_path app) (delete_skin_if_unused app) _ _ _ _
        (delete_keeps P.skin_hash_in_use (get_skin_path app)),
    replace_texture_keeps (text "cape") (get_cape_path app) (delete_cape_if_unused app) _ _ _ _
        (delete_keeps P.cape_hash_in_use (get_cape_path app)),
  )

  pub save_profile_writes :
      (req : Request) (target : User) (skin cape : TextureChange) (w : World P)
      (saved : Option Error × P.Db)
      → P.save_user
          (record target {
            skin_hash = hash_after skin target.skin_hash;
            cape_hash = hash_after cape target.cape_hash;
          })
          w.db
        ≡ saved
      → (save_profile app req target skin cape w).1.db ≡ saved.1
  unfolding save_profile
  save_profile_writes req target skin cape w (none, db) s = ground (
    arith,
    s,
    replace_textures_keeps req target
        (record target {
          skin_hash = hash_after skin target.skin_hash;
          cape_hash = hash_after cape target.cape_hash;
        })
        skin cape (record w { db = db }),
  )
  save_profile_writes req target skin cape w (some e, db) s = ground (arith, s)
