-- ===== src/Auth/Revocation.antt =====
-- About `AuthRefresh` of auth.go.
use yggdrasil_authentication.Base.{
  ℕ, ◌≡◌, ◌≢◌, refl, Option, none, some, text_eq, text_beq_iff, Text, arith, ap, ◌∙◌,
}
use yggdrasil_authentication.Types.{
  ok, User, Client, next_version, StaleTokenPolicy, stale_policy_allow, RefreshResponse,
  refresh_response, json,
}
use yggdrasil_authentication.Platform.{Platform}
use yggdrasil_authentication.Platform.Laws.{JwtLaws, ClientLaws}
use yggdrasil_authentication.Action.{App, World, Exit, next, reply, fail, panic}
use yggdrasil_authentication.Model.Tokens.{get_client, make_access_token}
use yggdrasil_authentication.Model.Tokens.Lookup.{Accepts, get_client_iff, get_client-Continues}
use yggdrasil_authentication.Model.Tokens.Fresh.{make_access_token-Returns}
use yggdrasil_authentication.Model.Tokens.Revoked.{get_client-new_version}
use yggdrasil_authentication.Auth.{RefreshRequest, bump, require_client, auth_refresh}

module _ ⦃P : Platform⦄ (app : App P) where
  -- What a successful refresh did.
  pub record Refreshed (req : RefreshRequest) (r : RefreshResponse) (w w' : World P) : Type 0 where
    pub client : Client
    pub user : User
    pub before : World P
    pub after : World P
    pub authorized :
        get_client app req.access_token stale_policy_allow w ≡ (next (some (client, user)), before)
    pub same_client : client.client_token ≡ req.client_token
    pub made : make_access_token app (bump client) before ≡ (next r.access_token, after)
    pub saved : P.save_client (bump client, user) after.db ≡ (none, w'.db)

  module _ (req : RefreshRequest) (r : RefreshResponse) (w w' : World P)
      (h : auth_refresh app (ok req) w ≡ (reply (json 200 (refresh_response r)), w')) where
    refresh_signed :
        (c : Client) (u : User) (before : World P)
        → get_client app req.access_token stale_policy_allow w ≡ (next (some (c, u)), before)
        → (e : Exit Text) (after : World P) → make_access_token app (bump c) before ≡ (e, after)
        → Refreshed req r w w'
    unfolding auth_refresh require_client
    refresh_signed c u before g panic after m = absurd (make_access_token-Returns app _ _ _ _ m).0
    refresh_signed c u before g (fail x) after m = ground (arith, g, m)
    refresh_signed c u before g (reply x) after m =
        absurd (make_access_token-Returns app _ _ _ _ m).0
    refresh_signed c u before g (next t) after m = record {
      client = c;
      user = u;
      before = before;
      after = after;
      authorized = g;
      same_client = ground (arith, g, text_beq_iff c.client_token req.client_token);
      made = m ∙ ground (arith, g, m);
      saved = ground (arith, g, m);
    }

    refresh_steps :
        (e : Exit (Option (Client × User))) (before : World P)
        → get_client app req.access_token stale_policy_allow w ≡ (e, before)
        → Refreshed req r w w'
    unfolding auth_refresh require_client
    refresh_steps panic before g = ground (arith, g)
    refresh_steps (fail x) before g = absurd (get_client-Continues app _ _ w before _ g).0
    refresh_steps (reply x) before g = absurd (get_client-Continues app _ _ w before _ g).0
    refresh_steps (next none) before g = ground (arith, g)
    refresh_steps (next (some (c, u))) before g = refresh_signed c u before g _ _ refl

  -- Every successful refresh authorized a client, signed a token for its next version, and saved
  -- that version.
  refresh-Refreshed :
      (req : RefreshRequest) (r : RefreshResponse) (w w' : World P)
      → auth_refresh app (ok req) w ≡ (reply (json 200 (refresh_response r)), w')
      → Refreshed req r w w'
  refresh-Refreshed req r w w' h = refresh_steps req r w w' h _ _ refl

module _ ⦃P : Platform⦄ (app : App P) (jwt_laws : JwtLaws P) (client_laws : ClientLaws P) where
  version-moves : (v : ℕ) → next_version v ≢ v
  version-moves v e = absurd (omega arith)

  -- The client's row after a refresh.
  Refreshed-row :
      (req : RefreshRequest) (r : RefreshResponse) (w w' : World P) (s : Refreshed app req r w w')
      → Accepts app req.access_token stale_policy_allow w s.client s.user
        × (P.first_client_with_user s.client.client_token w'.db ≡ ok (bump s.client, s.user))
  Refreshed-row req r w w' s =
      let a =
        (get_client_iff app req.access_token stale_policy_allow w s.client s.user).0
          (ap (λ (p : Exit (Option (Client × User)) × World P). p.0) s.authorized) in
      let before = (get_client-Continues app _ _ w s.before _ s.authorized).1 in
      let after = (make_access_token-Returns app _ _ _ _ s.made).1 in
      let row : P.first_client_with_user s.client.client_token s.after.db ≡ ok (s.client, s.user) =
        rw (after, before) (rw a.subject at a.found) in
      (a, client_laws.save_client_stores s.client (bump s.client) s.user _ _ row refl s.saved)

  -- After a successful `/refresh` the token that was refreshed is refused, under either policy, as
  -- long as the database is as the refresh left it. This rests on the documented behaviour of
  -- golang-jwt and GORM.
  pub refresh-revokes :
      (req : RefreshRequest) (r : RefreshResponse) (w w' later : World P)
      → auth_refresh app (ok req) w ≡ (reply (json 200 (refresh_response r)), w')
      → later.db ≡ w'.db
      → (policy : StaleTokenPolicy) (any : Client × User)
      → (get_client app req.access_token policy later).0 ≢ next (some any)
  refresh-revokes req r w w' later h same_db policy any =
      let s = refresh-Refreshed app req r w w' h in
      let (a, row) = Refreshed-row req r w w' s in
      get_client-new_version app jwt_laws req.access_token stale_policy_allow w s.client s.user a
        later (bump s.client) s.user (rw same_db row) (version-moves s.client.version) policy any
