-- ===== src/Model/Tokens/Lookup.antt =====
-- About `GetClient` of model.go.
use yggdrasil_authentication.Base.{
  ◌+◌, ◌≡◌, ◌↔◌, true, Option, none, some, text_eq, nat_eq, text_beq_iff, Text, arith, Option-cases,
  inl, inr,
}
use yggdrasil_authentication.Base.Int.{◌≤ℤ◌}
use yggdrasil_authentication.Types.{
  Result, ok, err, User, Client, Time, TokenClaims, StaleTokenPolicy, stale_policy_allow,
  stale_policy_deny,
}
use yggdrasil_authentication.Platform.{Platform, JwtToken}
use yggdrasil_authentication.Action.{App, World, Exit, next, reply, fail, panic}
use yggdrasil_authentication.Model.Tokens.{claims_of, is_stale, client_of_claims, get_client}

-- What `GetClient` checks under a policy: the token's version is the client's, and, under
-- StalePolicyDeny, the token is not stale at the time of the check.
abbrev pub IsFresh : StaleTokenPolicy → TokenClaims → Time → Type 0
IsFresh stale_policy_allow claims at = Unit
IsFresh stale_policy_deny claims at = (t : Time) × (claims.stale_at ≡ some t) × (at ≤ℤ t)

claims_of_iff :
    (r : Result JwtToken) (claims : TokenClaims)
    → (claims_of r ≡ some claims) ↔ (r ≡ ok (record { valid = true; claims = some claims }))
claims_of_iff (err e) claims = ground arith
claims_of_iff (ok token) claims = ground arith

module _ ⦃P : Platform⦄ (app : App P) where
  abbrev parsed_claims : Text → World P → Option TokenClaims
  parsed_claims access_token w =
      claims_of (P.parse_with_claims access_token (P.public app.key) (P.clock w.moment))

  get_client_parsed :
      (access_token : Text) (policy : StaleTokenPolicy) (w : World P) (claims : TokenClaims)
      → parsed_claims access_token w ≡ some claims
      → get_client app access_token policy w
        ≡ client_of_claims app policy claims (record w { moment = w.moment + 1 })
  unfolding get_client
  get_client_parsed access_token policy w claims h = ground arith

  get_client_unparsed :
      (access_token : Text) (policy : StaleTokenPolicy) (w : World P)
      → parsed_claims access_token w ≡ none
      → (get_client app access_token policy w).0 ≡ next none
  unfolding get_client
  get_client_unparsed access_token policy w h = ground arith

  -- The conditions under which `GetClient` returns a client and its user.
  pub record Accepts (access_token : Text) (policy : StaleTokenPolicy) (w : World P) (c : Client)
      (u : User) : Type 0 where
    pub claims : TokenClaims
    pub parsed :
        P.parse_with_claims access_token (P.public app.key) (P.clock w.moment)
        ≡ ok (record { valid = true; claims = some claims })
    pub found : P.first_client_with_user claims.subject w.db ≡ ok (c, u)
    pub subject : claims.subject ≡ c.client_token
    pub version : claims.version ≡ c.version
    pub fresh : IsFresh policy claims (P.clock (w.moment + 1))

  client_of_claims_found :
      (claims : TokenClaims) (policy : StaleTokenPolicy) (w : World P) (c : Client) (u : User)
      → P.first_client_with_user claims.subject w.db ≡ ok (c, u)
      → claims.subject ≡ c.client_token
      → claims.version ≡ c.version
      → IsFresh policy claims (P.clock w.moment)
      → (client_of_claims app policy claims w).0 ≡ next (some (c, u))
  unfolding client_of_claims is_stale
  client_of_claims_found claims stale_policy_allow w c u f s v fresh =
      ground (arith, text_beq_iff claims.subject c.client_token)
  client_of_claims_found claims stale_policy_deny w c u f s v (t, e, later) =
      ground (arith, text_beq_iff claims.subject c.client_token)

  client_of_claims_sound :
      (claims : TokenClaims) (policy : StaleTokenPolicy) (w : World P) (c : Client) (u : User)
      → (client_of_claims app policy claims w).0 ≡ next (some (c, u))
      → (P.first_client_with_user claims.subject w.db ≡ ok (c, u))
        × (claims.subject ≡ c.client_token)
        × (claims.version ≡ c.version)
        × IsFresh policy claims (P.clock w.moment)
  unfolding client_of_claims is_stale
  client_of_claims_sound claims stale_policy_allow w c u h =
      ground (arith, text_beq_iff claims.subject c.client_token)
  client_of_claims_sound claims stale_policy_deny w c u h = elim (Option-cases claims.stale_at) [
    | inl absent ↦ ground arith
    | inr (t, e) ↦
        let same = text_beq_iff claims.subject c.client_token in
        (ground arith, ground arith, ground arith, (t, e, ground arith))
  ]

  get_client_complete :
      (access_token : Text) (policy : StaleTokenPolicy) (w : World P) (c : Client) (u : User)
      → Accepts access_token policy w c u
      → (get_client app access_token policy w).0 ≡ next (some (c, u))
  get_client_complete access_token policy w c u a =
      let e = (claims_of_iff _ a.claims).1 a.parsed in
      rw (get_client_parsed access_token policy w a.claims e)
        (client_of_claims_found a.claims policy _ c u a.found a.subject a.version a.fresh)

  get_client_sound :
      (access_token : Text) (policy : StaleTokenPolicy) (w : World P) (c : Client) (u : User)
      → (get_client app access_token policy w).0 ≡ next (some (c, u))
      → Accepts access_token policy w c u
  get_client_sound access_token policy w c u h =
      elim (Option-cases (parsed_claims access_token w)) [
        | inl nothing ↦ cc (get_client_unparsed access_token policy w nothing)
        | inr (claims, e) ↦
            let (f, s, v, fresh) =
              client_of_claims_sound claims policy _ c u
                (rw (get_client_parsed access_token policy w claims e) at h) in
            record {
              claims = claims;
              parsed = (claims_of_iff _ claims).0 e;
              found = f;
              subject = s;
              version = v;
              fresh = fresh;
            }
      ]

  -- `GetClient` returns a client with its user exactly if the token parses as valid with claims whose
  -- subject is the client token of that row, whose version is the row's, and, under
  -- StalePolicyDeny, which are not stale yet.
  pub get_client_iff :
      (access_token : Text) (policy : StaleTokenPolicy) (w : World P) (c : Client) (u : User)
      → ((get_client app access_token policy w).0 ≡ next (some (c, u)))
        ↔ Accepts access_token policy w c u
  get_client_iff access_token policy w c u =
      (get_client_sound access_token policy w c u, get_client_complete access_token policy w c u)

  -- `GetClient` never answers a request or returns an error by itself.
  abbrev pub Continues {ℓ} : {A : Type ℓ} → Exit A → Type 0
  Continues (next a) = Unit
  Continues (reply r) = ⊥
  Continues (fail e) = ⊥
  Continues panic = Unit

  pub get_client-Continues :
      (access_token : Text) (policy : StaleTokenPolicy) (w w' : World P)
      (e : Exit (Option (Client × User)))
      → get_client app access_token policy w ≡ (e, w')
      → Continues e × (w'.db ≡ w.db)
  unfolding get_client client_of_claims is_stale
  get_client-Continues access_token stale_policy_allow w w' (next a) h = ground arith
  get_client-Continues access_token stale_policy_allow w w' (reply r) h = ground arith
  get_client-Continues access_token stale_policy_allow w w' (fail e) h = ground arith
  get_client-Continues access_token stale_policy_allow w w' panic h = ground arith
  get_client-Continues access_token stale_policy_deny w w' (next a) h = ground arith
  get_client-Continues access_token stale_policy_deny w w' (reply r) h = ground arith
  get_client-Continues access_token stale_policy_deny w w' (fail e) h = ground arith
  get_client-Continues access_token stale_policy_deny w w' panic h = ground arith
