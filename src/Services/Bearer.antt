-- ===== src/Services/Bearer.antt =====
-- About `withBearerAuthentication` of services.go.
use yggdrasil_authentication.Base.{
  ◌≡◌, ◌≢◌, ◌⊎◌, refl, inl, inr, Option, none, some, text_eq, Text, ap, arith,
}
use yggdrasil_authentication.Types.{User, Client, stale_policy_allow}
use yggdrasil_authentication.Platform.{Platform}
use yggdrasil_authentication.Action.{App, Handler, World, Exit, next, reply, fail, panic}
use yggdrasil_authentication.Model.Tokens.{get_client, client_of_claims, is_stale}
use yggdrasil_authentication.Model.Tokens.Lookup.{Accepts, get_client_iff, get_client-Continues}
use yggdrasil_authentication.Services.{bearer_token, unauthorized, with_bearer_authentication}

module _ ⦃P : Platform⦄ (app : App P) where
  -- Only the check for stale tokens follows a pointer.
  get_client_no_panic :
      (t : Text) (w before : World P) → get_client app t stale_policy_allow w ≢ (panic, before)
  unfolding get_client client_of_claims is_stale
  get_client_no_panic t w before h = ground arith

  -- The request is let through for the user of an accepted token.
  pub record Admits (header : Text) (f : User → Handler) (run : Exit ⊥ × World P) (w : World P)
      : Type 0 where
    pub access_token : Text
    pub client : Client
    pub user : User
    pub before : World P
    pub token : bearer_token header ≡ some access_token
    pub accepted : Accepts app access_token stale_policy_allow w client user
    pub same_db : before.db ≡ w.db
    pub runs : run ≡ f user before

  module _ (path header : Text) (f : User → Handler) (w : World P) where
    abbrev run : Exit ⊥ × World P
    run = with_bearer_authentication app path header f w

    abbrev Guards : Type 0
    Guards = ((run.0 ≡ reply (unauthorized path)) × (run.1.db ≡ w.db)) ⊎ Admits header f run w

    guard_token :
        (t : Text)
        → bearer_token header ≡ some t
        → (e : Exit (Option (Client × User))) (before : World P)
        → get_client app t stale_policy_allow w ≡ (e, before)
        → Guards
    unfolding with_bearer_authentication
    guard_token t b (next (some (c, u))) before g = inr (record {
      access_token = t;
      client = c;
      user = u;
      before = before;
      token = b;
      accepted =
          (get_client_iff app t stale_policy_allow w c u).0
            (ap (λ (p : Exit (Option (Client × User)) × World P). p.0) g);
      same_db = (get_client-Continues app _ _ w before _ g).1;
      runs = ground (arith, b, g);
    })
    guard_token t b (next none) before g =
        let kept = (get_client-Continues app _ _ w before _ g).1 in
        inl (ground (arith, b, g), ground (arith, b, g, kept))
    guard_token t b (reply r) before g = absurd (get_client-Continues app _ _ w before _ g).0
    guard_token t b (fail x) before g = absurd (get_client-Continues app _ _ w before _ g).0
    guard_token t b panic before g = absurd (get_client_no_panic t w before g)

    guard_header : (t : Option Text) → bearer_token header ≡ t → Guards
    unfolding with_bearer_authentication
    guard_header (some t) b = guard_token t b _ _ refl
    guard_header none b = inl (ground (arith, b), ground (arith, b))

    -- A handler behind the bearer authentication either is not run, the answer is 401 and the
    -- database is left alone; or it is run once, with the database as it was, for the user of a
    -- client whose access token the header bears and `GetClient` accepts under StalePolicyAllow.
    pub with_bearer_authentication-Admits :
        ((run.0 ≡ reply (unauthorized path)) × (run.1.db ≡ w.db)) ⊎ Admits header f run w
    with_bearer_authentication-Admits = guard_header _ refl
