-- ===== src/Platform/Laws.antt =====
-- Documented behaviour of the libraries behind Platform, as named hypotheses.
use yggdrasil_authentication.Base.{
  ℕ, ◌⊎◌, ◌≡◌, ◌↔◌, ◌+◌, ◌<◌, ◌^◌, true, false, none, some, List, [], ◌∷◌, ◌++◌, map, Text, text_eq,
}
use yggdrasil_authentication.Base.Int.{ℤ, ◌≤ℤ◌, ◌<ℤ◌}
use yggdrasil_authentication.Types.{Time, ok, err, record_not_found, TokenClaims, Client, User}
use yggdrasil_authentication.Util.{contains}
use yggdrasil_authentication.Platform.{
  Platform, Jwt, CachedResponse, by_player_name, by_username, by_browser_token,
}

module _ (J : Jwt) where
  -- The dates of the claims are as `NewNumericDate` makes them.
  pub record HasNumericDates (c : TokenClaims) : Type 0 where
    pub issued : J.new_numeric_date c.issued_at ≡ c.issued_at
    pub expires : J.new_numeric_date c.expires_at ≡ c.expires_at
    pub stale : (t : Time) → c.stale_at ≡ some t → J.new_numeric_date t ≡ t

-- golang-jwt: `NewNumericDate` truncates to a coarser precision, and what it returns is unchanged
-- by it; a token that was signed by a key, with such dates and a subject that is valid UTF-8, is
-- parsed by the public half to the same claims until it expires; and an expired one is not valid.
-- Parsing a signed token never gives other claims than those that were signed, and parsing any
-- token gives the same claims whenever it succeeds.
pub record JwtLaws (P : Platform) : Type 0 where
  pub numeric_date_le : (t : Time) → P.new_numeric_date t ≤ℤ t
  pub numeric_date_idem :
      (t : Time) → P.new_numeric_date (P.new_numeric_date t) ≡ P.new_numeric_date t
  pub parse_signed :
      (c : TokenClaims) (k : P.PrivateKey) (t : Text) (at : Time)
      → P.signed_string c k ≡ ok t
      → HasNumericDates P.jwt c
      → P.utf8_valid c.subject ≡ true
      → at <ℤ c.expires_at
      → P.parse_with_claims t (P.public k) at ≡ ok (record { valid = true; claims = some c })
  pub parse_faithful :
      (c c' : TokenClaims) (k : P.PrivateKey) (t : Text) (at : Time)
      → P.signed_string c k ≡ ok t
      → HasNumericDates P.jwt c
      → P.utf8_valid c.subject ≡ true
      → P.parse_with_claims t (P.public k) at ≡ ok (record { valid = true; claims = some c' })
      → c' ≡ c
  pub parse_stable :
      (c c' : TokenClaims) (k : P.PublicKey) (t : Text) (at at' : Time)
      → P.parse_with_claims t k at ≡ ok (record { valid = true; claims = some c })
      → P.parse_with_claims t k at' ≡ ok (record { valid = true; claims = some c' })
      → c ≡ c'
  pub parse_expires :
      (c : TokenClaims) (k : P.PublicKey) (t : Text) (at : Time)
      → P.parse_with_claims t k at ≡ ok (record { valid = true; claims = some c })
      → at <ℤ c.expires_at

-- GORM and the schema of model.go, for clients: a client is found under its primary key, with the
-- user that its foreign key names; saving a loaded client with its user replaces its row;
-- `Update("version", gorm.Expr("version + ?", 1))` adds one to every client of the user, as long as
-- that fits the column; and saving a user with one more client creates the client's row.
pub record ClientLaws (P : Platform) : Type 0 where
  pub first_client_key :
      (t : Text) (db : P.Db) (c : Client) (u : User)
      → P.first_client_with_user t db ≡ ok (c, u)
      → (c.client_token ≡ t) × (c.user_uuid ≡ u.uuid)
  pub save_client_stores :
      (old new : Client) (u : User) (db db' : P.Db)
      → P.first_client_with_user new.client_token db ≡ ok (old, u)
      → new.user_uuid ≡ old.user_uuid
      → P.save_client (new, u) db ≡ (none, db')
      → P.first_client_with_user new.client_token db' ≡ ok (new, u)
  pub increment_versions_bumps :
      (t : Text) (c : Client) (u : User) (db db' : P.Db)
      → P.first_client_with_user t db ≡ ok (c, u)
      → c.version + 1 < 2 ^ 63
      → P.increment_versions u.uuid db ≡ (none, db')
      → P.first_client_with_user t db' ≡ ok (record c { version = c.version + 1 }, u)
  pub save_user_adds_client :
      (user : User) (others : List Client) (c : Client) (db db' : P.Db)
      → user.clients ≡ others ++ c ∷ []
      → contains (map (λ (d : Client). d.client_token) others) c.client_token ≡ false
      → P.first_client_with_user c.client_token db ≡ err record_not_found
      → P.save_user user db ≡ (none, db')
      → (u : User) × (P.first_client_with_user c.client_token db'
          ≡ ok (record c { user_uuid = user.uuid }, u))

-- The cache of answers: what is found under a key after a write is what was written under it, or
-- could be found before.
pub record CacheLaws (P : Platform) : Type 0 where
  pub cache_get-set :
      (m m' : ℕ) (url key : Text) (response found : CachedResponse) (ttl : ℤ) (cache : P.Cache)
      → P.cache_get m url (P.cache_set m' key response ttl cache) ≡ some found
      → ((url ≡ key) × (found ≡ response))
        ⊎ ((earlier : ℕ) × (P.cache_get earlier url cache ≡ some found))

-- GORM, for the row of a user that was loaded: after it is saved with another server id, it is found
-- by its player name, and after it is saved with a browser token that no user had, by that token;
-- without the association that a query does not preload.
pub record UserLaws (P : Platform) : Type 0 where
  pub save_user_finds_name :
      (t : Text) (c : Client) (old new : User) (db db' : P.Db)
      → P.first_client_with_user t db ≡ ok (c, old)
      → new ≡ record old { server_id = new.server_id }
      → P.save_user new db ≡ (none, db')
      → P.first_user (by_player_name new.player_name) db' ≡ ok (record new { clients = [] })
  pub save_user_finds_token :
      (username token : Text) (old : User) (db db' : P.Db)
      → P.first_user (by_username username) db ≡ ok old
      → P.first_user (by_browser_token token) db ≡ err record_not_found
      → P.save_user (record old { browser_token = record { string = token; valid = true } }) db
        ≡ (none, db')
      → P.first_user (by_browser_token token) db'
        ≡ ok (record old { browser_token = record { string = token; valid = true }; clients = [] })

-- RSA keys: `Equal` is equality, parsing a marshalled key gives it back, and so does decoding an encoded
-- text.
pub record KeyLaws (P : Platform) : Type 0 where
  pub key_equal_iff : (k l : P.PublicKey) → (P.key_equal k l ≡ true) ↔ (k ≡ l)
  pub parse_marshal :
      (k : P.PublicKey) (der : Text)
      → P.marshal_pkix_public_key k ≡ ok der
      → P.parse_pkix_public_key der ≡ ok (some k)
  pub base64_decode-base64_encode : (b : Text) → P.base64_decode (P.base64_encode b) ≡ ok b

-- GORM, for the row of a user that was loaded with a client: after it is saved with another player name,
-- which is unique among the rows, it is found by that name, without its association.
pub record NameLaws (P : Platform) : Type 0 where
  pub save_user_renames :
      (t name : Text) (c : Client) (old : User) (at : Time) (db db' : P.Db)
      → P.first_client_with_user t db ≡ ok (c, old)
      → P.save_user (record old { player_name = name; name_last_changed_at = at }) db ≡ (none, db')
      → P.first_user (by_player_name name) db'
        ≡ ok (record old { player_name = name; name_last_changed_at = at; clients = [] })

-- net/url: `QueryUnescape` reads what `QueryEscape` writes, which is empty for the empty text alone.
pub record QueryLaws (P : Platform) : Type 0 where
  pub query_unescape-query_escape : (s : Text) → P.query_unescape (P.query_escape s) ≡ ok s
  pub query_escape_empty : P.query_escape [] ≡ []
  pub query_escape_some : (s : Text) → P.query_escape s ≡ [] → s ≡ []

-- The file of the key: what `os.WriteFile` wrote is read again, and parsing a marshalled key gives it
-- back.
pub record KeyFileLaws (P : Platform) : Type 0 where
  pub read_file-write_file :
      (path contents : Text) (files files' : P.Files)
      → P.write_file path contents files ≡ (none, files')
      → P.read_file path files' ≡ ok contents
  pub parse_marshal_private :
      (k : P.PrivateKey) (der : Text)
      → P.marshal_pkcs8_private_key k ≡ ok der
      → P.parse_pkcs8_private_key der ≡ ok (some k)
