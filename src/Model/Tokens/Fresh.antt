-- ===== src/Model/Tokens/Fresh.antt =====
-- About `MakeAccessToken` and `GetClient` of model.go, one after the other.
use yggdrasil_authentication.Base.{
  ℕ, ◌+◌, ◌*◌, ◌^◌, ◌≤◌, ◌≡◌, ◌≢◌, true, some, text_eq, nat_eq, Text, arith, ap, sym, text,
  if◌then◌else◌,
}
use yggdrasil_authentication.Base.Int.{ℤ, pos, ◌<ℤ◌, ltb_ℤ, ◌+ℤ◌}
use yggdrasil_authentication.Types.{ok, err, User, Client, Time, TokenClaims, StaleTokenPolicy}
use yggdrasil_authentication.Platform.{Platform}
use yggdrasil_authentication.Platform.Laws.{JwtLaws, HasNumericDates}
use yggdrasil_authentication.Action.{App, World, Exit, next, reply, fail, panic}
use yggdrasil_authentication.Model.Tokens.{
  distant_future, duration_seconds, date_after, new_claims, make_access_token, get_client,
}
use yggdrasil_authentication.Model.Tokens.Lookup.{IsFresh, get_client_iff}

-- `time.Duration(n) * time.Second` is the exact number of nanoseconds while that fits an `int64`.
duration_exact : (n : ℕ) → n ≤ 9223372036 → duration_seconds (pos n) ≡ pos (n * 10 ^ 9)
unfolding duration_seconds
duration_exact n h = ground arith

-- The date so many seconds after `t`, or the distant future unless the number is positive.
abbrev pub deadline : ℤ → Time → Time
deadline seconds t = if ltb_ℤ (pos 0) seconds then t +ℤ duration_seconds seconds else distant_future

-- The readings of the clock that computing a date takes.
abbrev ticks : ℤ → ℕ
ticks seconds = if ltb_ℤ (pos 0) seconds then 1 else 0

module _ ⦃P : Platform⦄ (app : App P) where
  date_after_lem :
      (seconds : ℤ) (w : World P)
      → date_after app seconds w ≡ (
        next (deadline seconds (P.clock w.moment)),
        record w { moment = w.moment + ticks seconds },
      )
  unfolding date_after
  date_after_lem seconds w = ground arith

  -- The claims that `MakeAccessToken` signs in the state `w`.
  abbrev pub claims_at : Client → World P → TokenClaims
  claims_at c w =
      let stale_moment = w.moment + ticks app.config.token_expire_sec in
      record {
        subject = c.client_token;
        issued_at = P.new_numeric_date (P.clock (stale_moment + ticks app.config.token_stale_sec));
        expires_at = P.new_numeric_date (deadline app.config.token_expire_sec (P.clock w.moment));
        issuer = text "drasl";
        version = c.version;
        stale_at =
            some (P.new_numeric_date (deadline app.config.token_stale_sec (P.clock stale_moment)));
      }

  new_claims_lem :
      (c : Client) (w : World P)
      → (moment : ℕ) × (new_claims app c w ≡ (next (claims_at c w), record w { moment = moment }))
  unfolding new_claims
  new_claims_lem c w = (
    w.moment + ticks app.config.token_expire_sec + ticks app.config.token_stale_sec + 1,
    ground (
      arith,
      date_after_lem app.config.token_expire_sec w,
      date_after_lem app.config.token_stale_sec
          (record w { moment = w.moment + ticks app.config.token_expire_sec }),
    ),
  )

  -- `MakeAccessToken` signs those claims.
  make_access_token-eq :
      (c : Client) (w : World P)
      → (moment : ℕ) × (make_access_token app c w ≡ elim (P.signed_string (claims_at c w) app.key) [
        | ok t ↦ (next t, record w { moment = moment })
        | err e ↦ (fail e, record w { moment = moment })
      ])
  unfolding make_access_token
  make_access_token-eq c w = let (moment, e) = new_claims_lem c w in (moment, ground (arith, e))

  pub make_access_token_signs :
      (c : Client) (w : World P) (t : Text)
      → P.signed_string (claims_at c w) app.key ≡ ok t
      → (moment : ℕ) × (make_access_token app c w ≡ (next t, record w { moment = moment }))
  make_access_token_signs c w t signed =
      let (moment, e) = make_access_token-eq c w in (moment, ground (arith, e))

  -- Every token that comes out of `MakeAccessToken` is the signature of those claims.
  make_access_token-signed :
      (c : Client) (w w' : World P) (t : Text)
      → make_access_token app c w ≡ (next t, w')
      → (P.signed_string (claims_at c w) app.key ≡ ok t) × (w'.db ≡ w.db)
  make_access_token-signed c w w' t h =
      let (moment, e) = make_access_token-eq c w in (ground (arith, e), ground (arith, e))

  -- `MakeAccessToken` returns a token or an error, and leaves the database alone.
  abbrev pub Returns {ℓ} : {A : Type ℓ} → Exit A → Type 0
  Returns (next a) = Unit
  Returns (reply r) = ⊥
  Returns (fail e) = Unit
  Returns panic = ⊥

  pub make_access_token-Returns :
      (c : Client) (w w' : World P) (e : Exit Text)
      → make_access_token app c w ≡ (e, w')
      → Returns e × (w'.db ≡ w.db)
  make_access_token-Returns c w w' (next t) h =
      let (moment, e) = make_access_token-eq c w in ground (arith, e)
  make_access_token-Returns c w w' (reply r) h =
      let (moment, e) = make_access_token-eq c w in ground (arith, e)
  make_access_token-Returns c w w' (fail x) h =
      let (moment, e) = make_access_token-eq c w in ground (arith, e)
  make_access_token-Returns c w w' panic h =
      let (moment, e) = make_access_token-eq c w in ground (arith, e)

  module _ (laws : JwtLaws P) (c : Client) (w : World P) where
    claims_at-HasNumericDates : HasNumericDates P.jwt (claims_at c w)
    claims_at-HasNumericDates = record {
      issued = laws.numeric_date_idem _;
      expires = laws.numeric_date_idem _;
      stale = λ t e. ground (
        arith,
        laws.numeric_date_idem (
            deadline app.config.token_stale_sec
              (P.clock (w.moment + ticks app.config.token_expire_sec))),
      );
    }

    module _ (w' : World P) (t : Text) (made : make_access_token app c w ≡ (next t, w'))
        (utf8 : P.utf8_valid c.client_token ≡ true) (policy : StaleTokenPolicy) (later : World P)
        (row : Client) (u : User)
        (found : P.first_client_with_user c.client_token later.db ≡ ok (row, u)) where
      -- A token made for a client whose client token is valid UTF-8 is accepted, in any later
      -- state, as long as a client's row is found under the client token with that token and the
      -- version that it was made for, the token has not expired, and it is not stale where the
      -- policy forbids that. This rests on the documented behaviour of golang-jwt.
      pub get_client-make_access_token :
          row.client_token ≡ c.client_token
          → row.version ≡ c.version
          → P.clock later.moment <ℤ (claims_at c w).expires_at
          → IsFresh policy (claims_at c w) (P.clock (later.moment + 1))
          → (get_client app t policy later).0 ≡ next (some (row, u))
      get_client-make_access_token same_token same_version unexpired fresh =
          (get_client_iff app t policy later row u).1 (record {
            claims = claims_at c w;
            parsed =
                laws.parse_signed (claims_at c w) app.key t _
                  (make_access_token-signed c w w' t made).0 claims_at-HasNumericDates utf8
                  unexpired;
            found = found;
            subject = sym same_token;
            version = sym same_version;
            fresh = fresh;
          })

      -- Once the client's row has another version, the token is refused under either policy, at any
      -- time: `GetClient` returns no client.
      pub get_client-revoked :
          row.version ≢ c.version
          → (any : Client × User) → (get_client app t policy later).0 ≢ next (some any)
      get_client-revoked changed (c', u') e =
          let a = (get_client_iff app t policy later c' u').0 e in
          let same : a.claims ≡ claims_at c w =
            laws.parse_faithful (claims_at c w) a.claims app.key t _
              (make_access_token-signed c w w' t made).0 claims_at-HasNumericDates utf8 a.parsed in
          let subject : a.claims.subject ≡ c.client_token =
            ap (λ (x : TokenClaims). x.subject) same in
          let version : a.claims.version ≡ c.version = ap (λ (x : TokenClaims). x.version) same in
          let found' : P.first_client_with_user c.client_token later.db ≡ ok (c', u') =
            rw subject at a.found in
          changed (ground (arith, found, found', version, a.version))
