-- ===== src/Session/Elsewhere.antt =====
-- About the fallback servers that `SessionHasJoined` of session.go asks.
use yggdrasil_authentication.Base.{
  ℕ, ◌+◌, ◌≡◌, ◌≢◌, ◌⊎◌, inl, inr, refl, Bool, true, false, not, ◌&&◌, Option, none, some, List, [],
  ◌∷◌, ◌==◌, nat_eq, text_eq, Text, text, Bool-cases, arith,
}
use yggdrasil_authentication.Types.{Result, ok, err, Error, FallbackApiServer, blob}
use yggdrasil_authentication.Platform.{Platform, HttpResponse}
use yggdrasil_authentication.Action.{App, World, next, reply}
use yggdrasil_authentication.Fallback.{first_answer}
use yggdrasil_authentication.Fallback.Order.{Continues, first_answer-Continues}
use yggdrasil_authentication.Session.{ask_joined, has_joined_elsewhere}

module _ ⦃P : Platform⦄ where
  -- The address at which a server is asked about a player.
  abbrev pub joined_url : Text → Text → FallbackApiServer → Result Text
  joined_url player_name server_id server =
      P.url_append server.session_url (text "/session/minecraft/hasJoined")
        ((text "username", player_name) ∷ (text "serverId", server_id) ∷ [])

  -- What happens at a server that does not confirm the player, between two readings of the network:
  -- it is not asked about unknown users, or has no address, or cannot be reached, or does not answer
  -- 200.
  pub data Denies (known : Bool) (player_name server_id : Text) (server : FallbackApiServer)
      : ℕ → ℕ → Type 0 where
    not_asked :
        {moment : ℕ}
        → server.deny_unknown_users ≡ true
        → known ≡ false
        → Denies known player_name server_id server moment moment
    no_address :
        {moment : ℕ} (e : Error)
        → joined_url player_name server_id server ≡ err e
        → Denies known player_name server_id server moment moment
    unreachable :
        {moment later : ℕ} (url : Text) (e : Error)
        → joined_url player_name server_id server ≡ ok url
        → P.http_get moment url ≡ err e
        → later ≡ moment + 1
        → Denies known player_name server_id server moment later
    refuses :
        {moment later : ℕ} (url : Text) (res : HttpResponse)
        → joined_url player_name server_id server ≡ ok url
        → P.http_get moment url ≡ ok res
        → res.status_code ≢ 200
        → later ≡ moment + 1
        → Denies known player_name server_id server moment later

  -- A server is asked about the player and answers 200, with the content type and the body.
  pub record Confirms (known : Bool) (player_name server_id content_type body : Text)
      (server : FallbackApiServer) (moment : ℕ) : Type 0 where
    pub url : Text
    pub res : HttpResponse
    pub allowed : (server.deny_unknown_users ≡ false) ⊎ (known ≡ true)
    pub addressed : joined_url player_name server_id server ≡ ok url
    pub answered : P.http_get moment url ≡ ok res
    pub accepted : res.status_code ≡ 200
    pub sent_type : res.content_type ≡ content_type
    pub sent_body : res.body ≡ body

  -- One of the servers confirms the player, and each before it denies them.
  pub data FirstConfirms (known : Bool) (player_name server_id content_type body : Text)
      : List FallbackApiServer → ℕ → Type 0 where
    confirmed :
        {server : FallbackApiServer} {servers : List FallbackApiServer} {moment : ℕ}
        → Confirms known player_name server_id content_type body server moment
        → FirstConfirms known player_name server_id content_type body (server ∷ servers) moment
    denied :
        {server : FallbackApiServer} {servers : List FallbackApiServer} {moment later : ℕ}
        → Denies known player_name server_id server moment later
        → FirstConfirms known player_name server_id content_type body servers later
        → FirstConfirms known player_name server_id content_type body (server ∷ servers) moment

module _ ⦃P : Platform⦄ (app : App P) (known : Bool) (player_name server_id : Text) where
  -- The two outcomes of asking one server.
  abbrev Asked : FallbackApiServer → World P → Type 0
  Asked server w =
      ((w' : World P) × (ask_joined app known player_name server_id server w ≡ (next none, w'))
        × Denies known player_name server_id server w.moment w'.moment)
      ⊎ ((content_type : Text) × (body : Text) × (w' : World P) × (ask_joined app known player_name
              server_id server w
            ≡ (next (some (content_type, body)), w'))
          × Confirms known player_name server_id content_type body server w.moment)

  by_get :
      (server : FallbackApiServer) (w : World P) (url : Text) (got : Result HttpResponse)
      → (server.deny_unknown_users ≡ false) ⊎ (known ≡ true)
      → joined_url player_name server_id server ≡ ok url
      → P.http_get w.moment url ≡ got
      → Asked server w
  unfolding ask_joined
  by_get server w url (err e) allowed u g = inl (
    record w { moment = w.moment + 1 },
    ground (arith, allowed, u, g),
    unreachable url e u g refl,
  )
  by_get server w url (ok res) allowed u g = elim (Bool-cases (res.status_code == 200)) [
    | inl accepted ↦ inr (
      res.content_type,
      res.body,
      record w { moment = w.moment + 1 },
      ground (arith, allowed, u, g, accepted),
      record {
        url = url;
        res = res;
        allowed = allowed;
        addressed = u;
        answered = g;
        accepted = ground (arith, accepted);
        sent_type = refl;
        sent_body = refl;
      },
    )
    | inr other ↦ inl (
      record w { moment = w.moment + 1 },
      ground (arith, allowed, u, g, other),
      refuses url res u g (ground (arith, other)) refl,
    )
  ]

  by_url :
      (server : FallbackApiServer) (w : World P) (url : Result Text)
      → (server.deny_unknown_users ≡ false) ⊎ (known ≡ true)
      → joined_url player_name server_id server ≡ url
      → Asked server w
  unfolding ask_joined
  by_url server w (err e) allowed u = inl (w, ground (arith, allowed, u), no_address e u)
  by_url server w (ok url) allowed u = by_get server w url _ allowed u refl

  ask_joined_outcome : (server : FallbackApiServer) (w : World P) → Asked server w
  unfolding ask_joined
  ask_joined_outcome server w = elim (Bool-cases (server.deny_unknown_users && not known)) [
    | inl skip ↦
        inl (w, ground (arith, skip), not_asked (ground (arith, skip)) (ground (arith, skip)))
    | inr ask ↦ by_url server w _ (ground (arith, ask)) refl
  ]

  -- An answer of the loop over the servers is that of the first server which confirms the player.
  pub first_answer-FirstConfirms :
      (servers : List FallbackApiServer) (w w' : World P) (content_type body : Text)
      → first_answer (ask_joined app known player_name server_id) servers w
        ≡ (next (some (content_type, body)), w')
      → FirstConfirms known player_name server_id content_type body servers w.moment
  unfolding first_answer
  first_answer-FirstConfirms [] w w' content_type body h = absurd (ground (arith, h))
  first_answer-FirstConfirms (server ∷ servers) w w' content_type body h =
      elim (ask_joined_outcome server w) [
        | inl (w1, run, denies) ↦
            denied denies
              (first_answer-FirstConfirms servers w1 w' content_type body (ground (arith, h, run)))
        | inr (ct, b, w1, run, confirms) ↦
            (let same_type : ct ≡ content_type = ground (arith, h, run) in
              let same_body : b ≡ body = ground (arith, h, run) in
              confirmed (rw (← same_type) (rw (← same_body) confirms)))
      ]

  pub ask_joined-Continues :
      (server : FallbackApiServer) → Continues (ask_joined app known player_name server_id server)
  ask_joined-Continues server w = elim (ask_joined_outcome server w) [
    | inl (w1, run, denies) ↦ (none, w1, run)
    | inr (content_type, body, w1, run, confirms) ↦ (some (content_type, body), w1, run)
  ]

  -- The same of the loop's reply.
  pub has_joined_elsewhere-FirstConfirms :
      (w w' : World P) (content_type body : Text)
      → has_joined_elsewhere app known player_name server_id w
        ≡ (reply (blob 200 content_type body), w')
      → FirstConfirms known player_name server_id content_type body app.config.fallback_api_servers
          w.moment
  unfolding has_joined_elsewhere
  has_joined_elsewhere-FirstConfirms w w' content_type body h =
      by_answer (first_answer-Continues _ ask_joined-Continues app.config.fallback_api_servers w)
    where
      by_answer :
          (a : Option (Text × Text)) × (w1 : World P) × (first_answer
                (ask_joined app known player_name server_id)
                app.config.fallback_api_servers
                w
              ≡ (next a, w1))
          → FirstConfirms known player_name server_id content_type body
              app.config.fallback_api_servers w.moment
      by_answer (none, w1, e) = absurd (ground (arith, e, h))
      by_answer (some (ct, b), w1, e) =
          first_answer-FirstConfirms app.config.fallback_api_servers w w1 content_type body
            (ground (arith, e, h))
