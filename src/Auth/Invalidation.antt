-- ===== src/Auth/Invalidation.antt =====
-- About `AuthInvalidate` and `AuthSignout` of auth.go, and `InvalidateUser` of common.go.
use yggdrasil_authentication.Base.{
  ◌+◌, ◌<◌, ◌^◌, ◌≡◌, ◌≢◌, refl, Option, none, some, text_eq, text_beq_iff, Text, arith, ap, ◌∙◌,
}
use yggdrasil_authentication.Types.{
  Result, ok, err, User, Client, StaleTokenPolicy, stale_policy_allow, no_content,
}
use yggdrasil_authentication.Platform.{Platform, by_username}
use yggdrasil_authentication.Platform.Laws.{JwtLaws, ClientLaws}
use yggdrasil_authentication.Action.{App, World, Exit, next, reply, fail, panic}
use yggdrasil_authentication.Model.Names.{hash_password}
use yggdrasil_authentication.Model.Tokens.{get_client}
use yggdrasil_authentication.Model.Tokens.Lookup.{Accepts, get_client_iff, get_client-Continues}
use yggdrasil_authentication.Model.Tokens.Revoked.{get_client-new_version}
use yggdrasil_authentication.Auth.{
  TokenPair, require_client, auth_invalidate, SignoutRequest, auth_signout, invalidate_user,
}

module _ ⦃P : Platform⦄ (app : App P) where
  -- What a successful `/invalidate` did.
  pub record Invalidated (req : TokenPair) (w w' : World P) : Type 0 where
    pub client : Client
    pub user : User
    pub before : World P
    pub authorized :
        get_client app req.access_token stale_policy_allow w ≡ (next (some (client, user)), before)
    pub same_client : client.client_token ≡ req.client_token
    pub incremented : P.increment_versions user.uuid before.db ≡ (none, w'.db)

  invalidate_steps :
      (req : TokenPair) (w w' : World P)
      → auth_invalidate app (ok req) w ≡ (reply (no_content 204), w')
      → (e : Exit (Option (Client × User))) (before : World P)
      → get_client app req.access_token stale_policy_allow w ≡ (e, before)
      → Invalidated req w w'
  unfolding auth_invalidate require_client invalidate_user
  invalidate_steps req w w' h panic before g = ground (arith, g)
  invalidate_steps req w w' h (fail x) before g =
      absurd (get_client-Continues app _ _ w before _ g).0
  invalidate_steps req w w' h (reply x) before g =
      absurd (get_client-Continues app _ _ w before _ g).0
  invalidate_steps req w w' h (next none) before g = ground (arith, g)
  invalidate_steps req w w' h (next (some (c, u))) before g = record {
    client = c;
    user = u;
    before = before;
    authorized = g;
    same_client = ground (arith, g, text_beq_iff c.client_token req.client_token);
    incremented = ground (arith, g);
  }

  -- What a successful `/signout` did.
  pub record SignedOut (req : SignoutRequest) (w w' : World P) : Type 0 where
    pub user : User
    pub found : P.first_user (by_username req.username) w.db ≡ ok user
    pub matched : hash_password app req.password user.password_salt ≡ ok user.password_hash
    pub incremented : P.increment_versions user.uuid w.db ≡ (none, w'.db)

  module _ (req : SignoutRequest) (w w' : World P)
      (h : auth_signout app (ok req) w ≡ (reply (no_content 204), w')) where
    signout_hashed :
        (user : User)
        → P.first_user (by_username req.username) w.db ≡ ok user
        → (hashed : Result Text) → hash_password app req.password user.password_salt ≡ hashed
        → SignedOut req w w'
    unfolding auth_signout invalidate_user
    signout_hashed user f (err e) m = ground (arith, f, m)
    signout_hashed user f (ok hash) m = record {
      user = user;
      found = f;
      matched = m ∙ ap ok (ground (arith, f, m, text_beq_iff hash user.password_hash));
      incremented = ground (arith, f, m);
    }

    signout_steps :
        (found : Result User)
        → P.first_user (by_username req.username) w.db ≡ found
        → SignedOut req w w'
    unfolding auth_signout
    signout_steps (err e) f = ground (arith, f)
    signout_steps (ok user) f = signout_hashed user f _ refl

  module _ (jwt_laws : JwtLaws P) (client_laws : ClientLaws P) where
    -- From the state `w` on, whatever was accepted for the user is refused once the database is `db`.
    abbrev pub Revokes : World P → User → P.Db → Type 0
    Revokes w user db =
        (t : Text) (policy : StaleTokenPolicy) (c : Client) (u : User)
        → Accepts app t policy w c u
        → u.uuid ≡ user.uuid
        → c.version + 1 < 2 ^ 63
        → (later : World P) → later.db ≡ db
        → (policy' : StaleTokenPolicy) (any : Client × User)
        → (get_client app t policy' later).0 ≢ next (some any)

    pub increment_versions-Revokes :
        (w : World P) (user : User) (db : P.Db)
        → P.increment_versions user.uuid w.db ≡ (none, db)
        → Revokes w user db
    increment_versions-Revokes w user db done t policy c u a same small later same_db policy' any =
        let found = rw a.subject at a.found in
        let row =
          client_laws.increment_versions_bumps c.client_token c u w.db db found small
            (rw same done) in
        get_client-new_version app jwt_laws t policy w c u a later
          (record c { version = c.version + 1 }) u (rw same_db row) (λ e. absurd (omega arith))
          policy' any

    -- After `/invalidate` has answered 204, the token that was sent had been accepted for a client
    -- of some user, with the client token that was sent, and every access token that was accepted
    -- before for a client of the user, with a version below 2 ^ 63 - 1, is refused, under either
    -- policy, as long as the database is as `/invalidate` left it. This rests on the documented
    -- behaviour of golang-jwt and GORM.
    pub invalidate-Revokes :
        (req : TokenPair) (w w' : World P)
        → auth_invalidate app (ok req) w ≡ (reply (no_content 204), w')
        → (client : Client) × (user : User) × Accepts app req.access_token stale_policy_allow w
            client user
          × (client.client_token ≡ req.client_token)
          × Revokes w user w'.db
    invalidate-Revokes req w w' h =
        let s = invalidate_steps req w w' h _ _ refl in
        let same_db = (get_client-Continues app _ _ w s.before _ s.authorized).1 in
        (
          s.client,
          s.user,
          (get_client_iff app req.access_token stale_policy_allow w s.client s.user).0
              (ap (λ (p : Exit (Option (Client × User)) × World P). p.0) s.authorized),
          s.same_client,
          increment_versions-Revokes w s.user w'.db (rw same_db at s.incremented),
        )

    -- `/signout` answers 204 only to a request with the password of the user with that username,
    -- and then every access token that was accepted before for a client of the user, with a version
    -- below 2 ^ 63 - 1, is refused, under either policy, as long as the database is as `/signout`
    -- left it. This rests on the documented behaviour of golang-jwt and GORM.
    pub signout-Revokes :
        (req : SignoutRequest) (w w' : World P)
        → auth_signout app (ok req) w ≡ (reply (no_content 204), w')
        → (user : User) × (P.first_user (by_username req.username) w.db ≡ ok user)
          × (hash_password app req.password user.password_salt ≡ ok user.password_hash)
          × Revokes w user w'.db
    signout-Revokes req w w' h =
        let s = signout_steps req w w' h _ refl in
        (s.user, s.found, s.matched, increment_versions-Revokes w s.user w'.db s.incremented)
