-- ===== src/Model/Tokens.antt =====
-- `MakeAccessToken` and `GetClient`.
pub mod Lookup
pub mod Fresh
pub mod Revoked
use yggdrasil_authentication.Base.{
  ℕ, ◌+◌, ◌*◌, ◌-◌, ◌%◌, ◌^◌, Bool, true, false, ◌&&◌, ◌||◌, not, Option, none, some, List, [], ◌∷◌,
  ◌==◌, text_eq, nat_eq, Text, text, suc, if◌then◌else◌,
}
use yggdrasil_authentication.Base.Int.{ℤ, pos, negsuc, ltb_ℤ, ◌+ℤ◌, signed64}
use yggdrasil_authentication.Types.{
  Error, Result, ok, err, User, Client, Time, TokenClaims, StaleTokenPolicy, stale_policy_allow,
  stale_policy_deny,
}
use yggdrasil_authentication.Platform.{Platform, JwtToken}
use yggdrasil_authentication.Action.{
  App, Action, ◌>>=◌, ◌>>◌, pure, or_return, now, query, deref, World, Exit, next, reply, fail,
  panic,
}

-- `DISTANT_FUTURE`, 2038-01-01T00:00:00Z.
abbrev pub distant_future : Time
distant_future = pos (2145916800 * 10 ^ 9)

-- `time.Duration(seconds) * time.Second`, an `int64` that wraps around.
unfoldable pub duration_seconds : ℤ → ℤ
duration_seconds (pos n) = signed64 ((n * 10 ^ 9) % 2 ^ 64)
duration_seconds (negsuc n) = signed64 ((2 ^ 64 - (suc n * 10 ^ 9) % 2 ^ 64) % 2 ^ 64)

-- The claims of a token that was parsed, is valid and has claims of the right type.
abbrev claims_of : Result JwtToken → Option TokenClaims
claims_of (err e) = none
claims_of (ok token) = if not token.valid then none else token.claims

module _ ⦃P : Platform⦄ (app : App P) where
  -- `expiresAt` and `staleAt`: so many seconds from now, or, unless the setting is positive, the
  -- distant future, for which the clock is not read.
  unfoldable pub date_after : ℤ → Action Time
  date_after seconds =
      if ltb_ℤ (pos 0) seconds
      then (now >>= λ t. pure (t +ℤ duration_seconds seconds))
      else pure distant_future

  -- The claims that `MakeAccessToken` signs.
  unfoldable pub new_claims : Client → Action TokenClaims
  new_claims client = do
    expires_at ← date_after app.config.token_expire_sec
    stale_at ← date_after app.config.token_stale_sec
    issued_at ← now
    pure (record {
      subject = client.client_token;
      issued_at = P.new_numeric_date issued_at;
      expires_at = P.new_numeric_date expires_at;
      issuer = text "drasl";
      version = client.version;
      stale_at = some (P.new_numeric_date stale_at);
    })

  -- `MakeAccessToken`.
  unfoldable pub make_access_token : Client → Action Text
  make_access_token client = do
    claims ← new_claims client
    or_return (P.signed_string claims app.key)

  -- `stalePolicy == StalePolicyDeny && time.Now().After(claims.StaleAt.Time)`, which reads the
  -- clock, and follows the pointer, only under that policy.
  unfoldable pub is_stale : StaleTokenPolicy → TokenClaims → Action Bool
  is_stale stale_policy_allow claims = pure false
  is_stale stale_policy_deny claims = do
    t ← now
    stale_at ← deref claims.stale_at
    pure (ltb_ℤ stale_at t)

  -- The part of `GetClient` after the claims are known.
  unfoldable pub client_of_claims : StaleTokenPolicy → TokenClaims → Action (Option (Client × User))
  client_of_claims stale_policy claims w = elim (P.first_client_with_user claims.subject w.db) [
    | err e ↦ (next none, w)
    | ok (client, user) ↦
        (is_stale stale_policy claims >>= λ stale. pure (
            if stale
            then none
            else if not (claims.subject == client.client_token)
                || not (claims.version == client.version)
            then none
            else some (client, user)))
          w
  ]

  -- `GetClient`: nil, or the client with its user. Parsing the token reads the clock.
  unfoldable pub get_client : Text → StaleTokenPolicy → Action (Option (Client × User))
  get_client access_token stale_policy = do
    t ← now
    elim (claims_of (P.parse_with_claims access_token (P.public app.key) t)) [
      | none ↦ pure none
      | some claims ↦ client_of_claims stale_policy claims
    ]
