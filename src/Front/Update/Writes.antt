-- ===== src/Front/Update/Writes.antt =====
-- About `FrontUpdate` of front.go: whose row it writes.
use yggdrasil_authentication.Base.{
  ◌≡◌, refl, sym, ap, ◌∙◌, ◌⊎◌, inl, inr, Bool-cases, true, false, some, [], Text, text, text_eq,
  ◌==◌, ◌||◌, arith,
}
use yggdrasil_authentication.Types.{Result, ok, err, User}
use yggdrasil_authentication.Platform.{Platform, by_username, by_browser_token}
use yggdrasil_authentication.Action.{App, World, Exit, next, reply, fail, panic}
use yggdrasil_authentication.Front.{
  Request, browser_token_of, with_login, with_browser_authentication,
}
use yggdrasil_authentication.Front.Update.{
  TextureChange, hash_after, profile_user, change_skin, change_cape, update_fields, update_profile,
  front_update,
}
use yggdrasil_authentication.Front.Update.Account.{
  account, fields_account, change_texture_keeps, save_profile_writes,
}

module _ ⦃P : Platform⦄ (app : App P) (req : Request) (user : User) (w : World P) where
  -- The user's own row, or the one that an admin named.
  abbrev pub IsAllowed : User → Type 0
  IsAllowed target =
      (target ≡ user)
      ⊎ ((user.is_admin ≡ true)
          × (P.first_user (by_username (req.form_value (text "username"))) w.db ≡ ok target))

  -- Nothing, or one row, which keeps its account.
  abbrev pub Written : P.Db → Type 0
  Written db =
      (db ≡ w.db)
      ⊎ ((target : User) × (changed : User) × IsAllowed target
          × (account changed ≡ account target)
          × (db ≡ (P.save_user changed w.db).1))

  allowed :
      (found : Result User)
      → P.first_user (by_username (req.form_value (text "username"))) w.db ≡ found
      → (target : User) (w' : World P) → profile_user app req user w ≡ (next target, w')
      → IsAllowed target
  unfolding profile_user
  allowed found f target w' h = elim (Bool-cases user.is_admin) [
    | inr powerless ↦ inl (ground (arith, h, powerless))
    | inl powerful ↦
        elim (Bool-cases (
          req.form_value (text "username") == []
          || req.form_value (text "username") == user.username)) [
            | inl own ↦ inl (ground (arith, h, own))
            | inr other ↦ inr (powerful, f ∙ result found f powerful other)
          ]
  ]
    where
      result :
          (found : Result User)
          → P.first_user (by_username (req.form_value (text "username"))) w.db ≡ found
          → user.is_admin ≡ true
          → (req.form_value (text "username") == []
              || req.form_value (text "username") == user.username)
            ≡ false
          → found ≡ ok target
      result (ok u) f powerful other = ground (arith, h, f, powerful, other)
      result (err e) f powerful other = absurd (ground (arith, h, f, powerful, other))

  profile_user_keeps : (profile_user app req user w).1.db ≡ w.db
  unfolding profile_user
  profile_user_keeps = ground arith

  update_profile_writes : Written (update_profile app req user w).1.db
  unfolding update_profile change_skin change_cape
  update_profile_writes = by_target _ _ refl
    where
      by_cape :
          (target updated : User) (skin : TextureChange) (w1 w2 w3 w4 : World P)
          (e : Exit TextureChange)
          → profile_user app req user w ≡ (next target, w1)
          → update_fields app req user target w1 ≡ (next updated, w2)
          → change_skin app req user w2 ≡ (next skin, w3)
          → change_cape app req user w3 ≡ (e, w4)
          → w4.db ≡ w.db
          → Written (update_profile app req user w).1.db
      by_cape target updated skin w1 w2 w3 w4 (next cape) p f s c k = inr (
        target,
        record updated {
          skin_hash = hash_after skin updated.skin_hash;
          cape_hash = hash_after cape updated.cape_hash;
        },
        allowed _ refl target w1 p,
        (fields_account app req user target w1).1 updated w2 f,
        ground (arith, p, f, s, c)
            ∙ save_profile_writes app req updated skin cape w4 _ refl
            ∙ ap
                (λ db.
                  (P.save_user
                    (record updated {
                      skin_hash = hash_after skin updated.skin_hash;
                      cape_hash = hash_after cape updated.cape_hash;
                    })
                    db).1)
                k,
      )
      by_cape target updated skin w1 w2 w3 w4 (reply r) p f s c k =
          inl (ground (arith, p, f, s, c, k))
      by_cape target updated skin w1 w2 w3 w4 (fail e) p f s c k =
          inl (ground (arith, p, f, s, c, k))
      by_cape target updated skin w1 w2 w3 w4 panic p f s c k = inl (ground (arith, p, f, s, c, k))

      by_skin :
          (target updated : User) (w1 w2 w3 : World P) (e : Exit TextureChange)
          → profile_user app req user w ≡ (next target, w1)
          → update_fields app req user target w1 ≡ (next updated, w2)
          → change_skin app req user w2 ≡ (e, w3)
          → w3.db ≡ w.db
          → Written (update_profile app req user w).1.db
      by_skin target updated w1 w2 w3 (next skin) p f s k =
          by_cape target updated skin w1 w2 w3 _ _ p f s refl
            (change_texture_keeps app _ _ _ _ _ _ _ w3 ∙ k)
      by_skin target updated w1 w2 w3 (reply r) p f s k = inl (ground (arith, p, f, s, k))
      by_skin target updated w1 w2 w3 (fail e) p f s k = inl (ground (arith, p, f, s, k))
      by_skin target updated w1 w2 w3 panic p f s k = inl (ground (arith, p, f, s, k))

      by_fields :
          (target : User) (w1 w2 : World P) (e : Exit User)
          → profile_user app req user w ≡ (next target, w1)
          → update_fields app req user target w1 ≡ (e, w2)
          → w2.db ≡ w.db
          → Written (update_profile app req user w).1.db
      by_fields target w1 w2 (next updated) p f k =
          by_skin target updated w1 w2 _ _ p f refl (change_texture_keeps app _ _ _ _ _ _ _ w2 ∙ k)
      by_fields target w1 w2 (reply r) p f k = inl (ground (arith, p, f, k))
      by_fields target w1 w2 (fail e) p f k = inl (ground (arith, p, f, k))
      by_fields target w1 w2 panic p f k = inl (ground (arith, p, f, k))

      by_target :
          (e : Exit User) (w1 : World P)
          → profile_user app req user w ≡ (e, w1)
          → Written (update_profile app req user w).1.db
      by_target (next target) w1 p = by_fields target w1 _ _ p refl (
          (fields_account app req user target w1).0
          ∙ ap (λ (r : Exit User × World P). r.1.db) (sym p)
          ∙ profile_user_keeps)
      by_target (reply r) w1 p = inl (ground (arith, p, profile_user_keeps))
      by_target (fail e) w1 p = inl (ground (arith, p, profile_user_keeps))
      by_target panic w1 p = inl (ground (arith, p, profile_user_keeps))

  -- Whatever the form of a user who is logged in asks for, and however `FrontUpdate` ends: the
  -- database is left alone, or one row was written, the user's own or one that the user named as an
  -- admin; and it has the UUID, the username, the role, the lock, the browser token and the server
  -- ID that it had.
  pub front_update_writes :
      (token : Text)
      → browser_token_of app req ≡ some token
      → P.first_user (by_browser_token token) w.db ≡ ok user
      → Written (front_update app req w).1.db
  unfolding front_update with_login with_browser_authentication
  front_update_writes token cookie found =
      let reached : front_update app req w ≡ update_profile app req user w =
        ground (arith, cookie, found) in
      rw reached update_profile_writes
