-- ===== src/Model/Tokens/Revoked.antt =====
-- About `GetClient` of model.go, after a change of the client's version.
use yggdrasil_authentication.Base.{◌≡◌, ◌≢◌, some, ap, ◌∙◌, arith, Text}
use yggdrasil_authentication.Types.{ok, User, Client, TokenClaims, StaleTokenPolicy}
use yggdrasil_authentication.Platform.{Platform}
use yggdrasil_authentication.Platform.Laws.{JwtLaws}
use yggdrasil_authentication.Action.{App, World, next}
use yggdrasil_authentication.Model.Tokens.{get_client}
use yggdrasil_authentication.Model.Tokens.Lookup.{Accepts, get_client_iff}

module _ ⦃P : Platform⦄ (app : App P) (laws : JwtLaws P) where
  -- Once a token has been accepted for a client, and the client's row has another version, the token
  -- is refused under either policy at any time.
  pub get_client-new_version :
      (t : Text) (policy : StaleTokenPolicy) (w : World P) (c : Client) (u : User)
      → Accepts app t policy w c u
      → (later : World P) (row : Client) (owner : User)
      → P.first_client_with_user c.client_token later.db ≡ ok (row, owner)
      → row.version ≢ c.version
      → (policy' : StaleTokenPolicy) (any : Client × User)
      → (get_client app t policy' later).0 ≢ next (some any)
  get_client-new_version t policy w c u a later row owner found changed policy' (c', u') e =
      let a' = (get_client_iff app t policy' later c' u').0 e in
      let same : a'.claims ≡ a.claims =
        laws.parse_stable a'.claims a.claims _ t _ _ a'.parsed a.parsed in
      let subject : a'.claims.subject ≡ c.client_token =
        ap (λ (x : TokenClaims). x.subject) same ∙ a.subject in
      let version : a'.claims.version ≡ c.version =
        ap (λ (x : TokenClaims). x.version) same ∙ a.version in
      let found' : P.first_client_with_user c.client_token later.db ≡ ok (c', u') =
        rw subject at a'.found in
      changed (ground (arith, found, found', version, a'.version))
