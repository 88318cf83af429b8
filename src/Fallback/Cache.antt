-- ===== src/Fallback/Cache.antt =====
-- About the cache of `CachedGet` of common.go.
use yggdrasil_authentication.Base.{
  ℕ, ◌+◌, ◌<◌, ◌≡◌, refl, inl, inr, true, false, none, some, Text, arith, Bool-cases, Option-cases,
  ◌≤◌,
}
use yggdrasil_authentication.Base.Int.{ℤ, pos, ltb_ℤ}
use yggdrasil_authentication.Types.{Result, ok, err, Error}
use yggdrasil_authentication.Platform.{Platform, CachedResponse, HttpResponse}
use yggdrasil_authentication.Platform.Laws.{CacheLaws}
use yggdrasil_authentication.Action.{World, Exit, next}
use yggdrasil_authentication.Fallback.{cache_lookup, cached_get}

module _ ⦃P : Platform⦄ where
  -- A server answered `response` to a request for `url` before the moment `m`.
  pub record Answered (m : ℕ) (url : Text) (response : CachedResponse) : Type 0 where
    pub at : ℕ
    pub earlier : at < m
    pub answer : HttpResponse
    pub got : P.http_get at url ≡ ok answer
    pub same : response ≡ record { status_code = answer.status_code; body_bytes = answer.body }

  -- Whatever can be found in the cache was answered by a server.
  abbrev pub Genuine : World P → Type 0
  Genuine w =
      (m : ℕ) (url : Text) (found : CachedResponse)
      → P.cache_get m url w.cache ≡ some found
      → Answered w.moment url found

  later :
      {m m' : ℕ} {url : Text} {r : CachedResponse} → m < m' → Answered m url r → Answered m' url r
  later lt a = record {
    at = a.at;
    earlier = omega (arith, a.earlier);
    answer = a.answer;
    got = a.got;
    same = a.same;
  }

  abbrev response_of : HttpResponse → CachedResponse
  response_of answer = record { status_code = answer.status_code; body_bytes = answer.body }

  -- How a call of `CachedGet` ends.
  data Outcome (url : Text) (w : World P) : Exit (Result CachedResponse) → World P → Type 0 where
    hit :
        (found : CachedResponse)
        → P.cache_get w.moment url w.cache ≡ some found
        → Outcome url w (next (ok found)) (record w { moment = w.moment + 1 })
    failed :
        (m : ℕ) (e : Error) → w.moment < m → Outcome url w (next (err e)) (record w { moment = m })
    fetched :
        (at : ℕ) (answer : HttpResponse)
        → w.moment ≤ at
        → P.http_get at url ≡ ok answer
        → Outcome url w (next (ok (response_of answer))) (record w { moment = at + 1 })
    stored :
        (at : ℕ) (answer : HttpResponse) (ttl : ℤ)
        → w.moment ≤ at
        → P.http_get at url ≡ ok answer
        → Outcome url w (next (ok (response_of answer))) (record w {
          cache = P.cache_set (at + 1) url (response_of answer) ttl w.cache;
          moment = at + 1 + 1;
        })

  module _ (url : Text) (ttl : ℤ) (w : World P) where
    abbrev Ends : Type 0
    Ends = Outcome url w (cached_get url ttl w).0 (cached_get url ttl w).1

    ends_uncached :
        ltb_ℤ (pos 0) ttl ≡ false
        → (res : Result HttpResponse) → P.http_get w.moment url ≡ res
        → Ends
    unfolding cached_get cache_lookup
    ends_uncached skip (err e) got = rw (skip, got) (failed _ e (omega arith))
    ends_uncached skip (ok res) got = rw (skip, got, skip) (fetched _ res (omega arith) got)

    ends_missed :
        ltb_ℤ (pos 0) ttl ≡ true
        → P.cache_get w.moment url w.cache ≡ none
        → (res : Result HttpResponse) → P.http_get (w.moment + 1) url ≡ res
        → Ends
    unfolding cached_get cache_lookup
    ends_missed look miss (err e) got = rw (look, miss, got) (failed _ e (omega arith))
    ends_missed look miss (ok res) got =
        rw (look, miss, got, look) (stored _ res ttl (omega arith) got)

    ends_hit :
        (found : CachedResponse)
        → ltb_ℤ (pos 0) ttl ≡ true
        → P.cache_get w.moment url w.cache ≡ some found
        → Ends
    unfolding cached_get cache_lookup
    ends_hit found look h = rw (look, h) (hit found h)

    ends : Ends
    ends = elim (Bool-cases (ltb_ℤ (pos 0) ttl)) [
      | inr skip ↦ ends_uncached skip _ refl
      | inl look ↦ elim (Option-cases (P.cache_get w.moment url w.cache)) [
        | inl miss ↦ ends_missed look miss _ refl
        | inr (found, h) ↦ ends_hit found look h
      ]
    ]

  returned : {a b : CachedResponse} → Exit.next (ok a) ≡ next (ok b) → b ≡ a
  returned h = cc

  fresh :
      {m : ℕ} (url : Text) (at : ℕ) (answer : HttpResponse)
      → P.http_get at url ≡ ok answer
      → at < m
      → Answered m url (response_of answer)
  fresh url at answer got lt = record {
    at = at;
    earlier = lt;
    answer = answer;
    got = got;
    same = refl;
  }

  Outcome-Genuine :
      (laws : CacheLaws P) (url : Text) (w w' : World P) (e : Exit (Result CachedResponse))
      → Genuine w
      → Outcome url w e w'
      → Genuine w' × ((r : CachedResponse) → e ≡ next (ok r) → Answered w'.moment url r)
  Outcome-Genuine laws url w w' e genuine (hit found h) = (
    λ m url' f at. later (omega arith) (genuine m url' f at),
    λ r same. rw (returned same) (later {m = w.moment} (omega arith) (genuine _ url found h)),
  )
  Outcome-Genuine laws url w w' e genuine (failed m x lt) =
      (λ m url' f at. later lt (genuine m url' f at), λ r same. cc)
  Outcome-Genuine laws url w w' e genuine (fetched at answer le got) = (
    λ m url' f found. later (omega arith) (genuine m url' f found),
    λ r same. rw (returned same) (fresh url at answer got (omega arith)),
  )
  Outcome-Genuine laws url w w' e genuine (stored at answer ttl le got) = (
    λ m url' f found. elim (laws.cache_get-set m (at + 1) url' url _ f ttl w.cache found) [
      | inl (same_url, same) ↦ rw (same_url, same) (fresh url at answer got (omega arith))
      | inr (m', before) ↦ later (omega arith) (genuine m' url' f before)
    ],
    λ r same. rw (returned same) (fresh url at answer got (omega arith)),
  )

  -- If everything in the cache was answered by a server for the URL that it is found under, then so
  -- it is after `CachedGet`, whatever its time to live, and what `CachedGet` returns was answered
  -- by a server for the URL that it was asked for; a cache finds under a key only what was written
  -- under it.
  pub cached_get-Genuine :
      (laws : CacheLaws P) (url : Text) (ttl : ℤ) (w : World P)
      → Genuine w
      → Genuine (cached_get url ttl w).1
        × ((r : CachedResponse)
            → (cached_get url ttl w).0 ≡ next (ok r)
            → Answered (cached_get url ttl w).1.moment url r)
  cached_get-Genuine laws url ttl w genuine =
      Outcome-Genuine laws url w _ _ genuine (ends url ttl w)
