-- ===== src/Action.antt =====
-- How a handler runs: the state that it works on, and the ways in which it ends.
pub mod Runs
pub mod Keeps
use yggdrasil_authentication.Base.{
  ℕ, ◌+◌, Bool, true, false, Option, none, some, List, [], ◌∷◌, ◌++◌, ◌≡◌, arith, Text,
}
use yggdrasil_authentication.Base.Int.{ℤ}
use yggdrasil_authentication.Types.{Config, Time, Error, Result, ok, err, Response}
use yggdrasil_authentication.Platform.{Platform, HttpResponse, CachedResponse}

-- `http.Cookie` as the program sets it: the path is "/", `SameSite` strict and `HttpOnly` in every
-- call; `max_age` is 0 where the call leaves it out, and -1 deletes the cookie.
pub record Cookie : Type 0 where
  pub name : Text
  pub value : Text
  pub max_age : ℤ

-- The state that the handlers share, and the cookies set on the response at hand. `moment` counts
-- the readings of the clock, of random bytes and of HTTP servers.
pub record World (P : Platform) : Type 0 where
  pub db : P.Db
  pub cache : P.Cache
  pub files : P.Files
  pub moment : ℕ
  pub set_cookies : List Cookie

-- `App`: what `setup` computes once. The regular expression stands for its `MatchString`; it is nil
-- unless transient users are allowed.
pub record App (P : Platform) : Type 0 where
  pub config : Config
  pub front_end_url : Text
  pub transient_username_regex : Text → Bool
  pub key : P.PrivateKey
  pub key_b3_sum512 : Text

-- A handler goes on, or returns a response, or returns an error, or panics on a nil pointer.
pub data Exit {ℓ} (A : Type ℓ) : Type ℓ where
  next : A → Exit A
  reply : Response → Exit A
  fail : Error → Exit A
  panic : Exit A

abbrev pub Action {ℓ} : ⦃P : Platform⦄ → Type ℓ → Type ℓ
Action ⦃P⦄ A = World P → Exit A × World P

-- A whole handler: it never goes on.
abbrev pub Handler : ⦃P : Platform⦄ → Type 0
Handler = Action ⊥

module _ ⦃P : Platform⦄ where
  infixl 5 ◌>>=◌ ◌>>◌
  abbrev pub ◌>>=◌ {ℓ κ} : {A : Type ℓ} {B : Type κ} → Action A → (A → Action B) → Action B
  ◌>>=◌ m f w =
      let (e, w') = m w in
      elim e [
        | next a ↦ f a w'
        | reply r ↦ (reply r, w')
        | fail e ↦ (fail e, w')
        | panic ↦ (panic, w')
      ]

  abbrev pub ◌>>◌ {ℓ κ} : {A : Type ℓ} {B : Type κ} → Action A → Action B → Action B
  m >> k = m >>= λ _. k

  abbrev pub pure {ℓ} : {A : Type ℓ} → A → Action A
  pure a w = (next a, w)

  -- `return c.JSON(…)` and the like.
  abbrev pub respond {ℓ} : {A : Type ℓ} → Response → Action A
  respond r w = (reply r, w)

  -- `return err`, for an error that is not nil.
  abbrev pub return_error {ℓ} : {A : Type ℓ} → Error → Action A
  return_error e w = (fail e, w)

  -- `if err != nil { return err }`, after a call that returns a value and an error.
  abbrev pub or_return {ℓ} : {A : Type ℓ} → Result A → Action A
  or_return (ok a) w = (next a, w)
  or_return (err e) w = (fail e, w)

  -- The same after a call that returns an error alone.
  abbrev pub check : Option Error → Action (Unit {0})
  check none w = (next tt, w)
  check (some e) w = (fail e, w)

  -- A call whose error the caller looks at: an error is a value here.
  abbrev pub attempt {ℓ} : {A : Type ℓ} → Action A → Action (Result A)
  attempt m w =
      let (e, w') = m w in
      elim e [
        | next a ↦ (next (ok a), w')
        | reply r ↦ (reply r, w')
        | fail x ↦ (next (err x), w')
        | panic ↦ (panic, w')
      ]

  -- A pointer that is followed.
  abbrev pub deref {ℓ} : {A : Type ℓ} → Option A → Action A
  deref none w = (panic, w)
  deref (some a) w = (next a, w)

  -- `if b { … }`, where the block may return.
  abbrev pub when : Bool → Action (Unit {0}) → Action (Unit {0})
  when true m = m
  when false m = pure tt

  abbrev pub query {ℓ} : {A : Type ℓ} → (P.Db → A) → Action A
  query f w = (next (f w.db), w)

  abbrev pub write : (P.Db → Option Error × P.Db) → Action (Option Error)
  write f w = let (e, db) = f w.db in (next e, record w { db = db })

  -- `time.Now()`.
  abbrev pub now : Action Time
  now w = (next (P.clock w.moment), record w { moment = w.moment + 1 })

  -- `rand.Read` into a slice of `n` bytes.
  abbrev pub rand_read : ℕ → Action (Result Text)
  rand_read n w = (next (P.rand_read w.moment n), record w { moment = w.moment + 1 })

  -- `rsa.GenerateKey(rand.Reader, bits)`.
  abbrev pub generate_key : ℕ → Action (Result P.PrivateKey)
  generate_key bits w = (next (P.generate_key w.moment bits), record w { moment = w.moment + 1 })

  -- `uuid.New().String()`.
  abbrev pub new_uuid : Action Text
  new_uuid w = (next (P.new_uuid w.moment), record w { moment = w.moment + 1 })

  -- `MakeHTTPClient().Get(url)`.
  abbrev pub http_get : Text → Action (Result HttpResponse)
  http_get url w = (next (P.http_get w.moment url), record w { moment = w.moment + 1 })

  -- `app.RequestCache.Get(url)`: nothing where it is not found.
  abbrev pub cache_get : Text → Action (Option CachedResponse)
  cache_get url w = (next (P.cache_get w.moment url w.cache), record w { moment = w.moment + 1 })

  -- `app.RequestCache.SetWithTTL(url, response, 0, ttl)`, the time to live in seconds.
  abbrev pub cache_set : Text → CachedResponse → ℤ → Action (Unit {0})
  cache_set url response ttl w = (
    next tt,
    record w { cache = P.cache_set w.moment url response ttl w.cache; moment = w.moment + 1 },
  )

  -- A call that reads the file system, and one that writes to it and returns an error.
  abbrev pub read_files {ℓ} : {A : Type ℓ} → (P.Files → A) → Action A
  read_files f w = (next (f w.files), w)

  abbrev pub write_files : (P.Files → Option Error × P.Files) → Action (Option Error)
  write_files f w = let (e, files) = f w.files in (next e, record w { files = files })

  abbrev pub set_cookie : Cookie → Action (Unit {0})
  set_cookie c w = (next tt, record w { set_cookies = w.set_cookies ++ c ∷ [] })
