-- ===== src/Fallback.antt =====
-- Asking the fallback API servers: `CachedGet` of common.go, and the loops over
-- `app.Config.FallbackAPIServers`.
pub mod Cache
pub mod Order
use yggdrasil_authentication.Base.{
  ℕ, ◌+◌, Bool, true, false, Option, none, some, List, [], ◌∷◌, ◌++◌, ◌==◌, nat_eq, Text,
  if◌then◌else◌,
}
use yggdrasil_authentication.Base.Int.{ℤ, pos, ltb_ℤ}
use yggdrasil_authentication.Types.{Result, ok, err, FallbackApiServer, Error, Response}
use yggdrasil_authentication.Platform.{Platform, CachedResponse, HttpResponse}
use yggdrasil_authentication.Action.{
  App, Action, World, Exit, next, reply, fail, panic, ◌>>=◌, ◌>>◌, pure, when, cache_get, cache_set,
  http_get,
}

module _ ⦃P : Platform⦄ where
  -- The lookup of `CachedGet`, which a time to live of zero or less skips.
  unfoldable pub cache_lookup : Text → ℤ → Action (Option CachedResponse)
  cache_lookup url ttl = if ltb_ℤ (pos 0) ttl then cache_get url else pure none

  -- `CachedGet`. What could be read of a body whose end is missing is stored and returned.
  unfoldable pub cached_get : Text → ℤ → Action (Result CachedResponse)
  cached_get url ttl = do
    found ← cache_lookup url ttl
    elim found [
      | some response ↦ pure (ok response)
      | none ↦ (do
        res ← http_get url
        elim res [
          | err e ↦ pure (err e)
          | ok res ↦ (do
            let response : CachedResponse = record {
              status_code = res.status_code;
              body_bytes = res.body;
            }
            when (ltb_ℤ (pos 0) ttl) (cache_set url response ttl)
            pure (ok response))
        ])
    ]

  -- A loop over the servers that `continue`s at a server with no answer (`none`) and returns the
  -- first answer.
  unfoldable pub first_answer {ℓ} :
      {A : Type ℓ}
      → (FallbackApiServer → Action (Option A))
      → List FallbackApiServer
      → Action (Option A)
  first_answer ask [] = pure none
  first_answer ask (server ∷ servers) = do
    answer ← ask server
    elim answer [ some a ↦ pure (some a) | none ↦ first_answer ask servers ]

  -- `CachedGet` of a URL that may not parse, if it answers 200: the body.
  unfoldable pub get_body : Result Text → Text → ℤ → Action (Option Text)
  get_body (err e) suffix ttl = pure none
  get_body (ok url) suffix ttl = do
    res ← cached_get (url ++ suffix) ttl
    elim res [
      | err e ↦ pure none
      | ok res ↦ pure (if res.status_code == 200 then some res.body_bytes else none)
    ]
