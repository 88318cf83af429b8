-- ===== src/Platform.antt =====
-- What the program takes from code that is not in the repository: the database through GORM, JSON
-- web tokens, hash functions and codecs, the HTTP client and the cache of its answers, files, the
-- clock and the source of randomness. Each is an operation of an interface; the laws that a theorem
-- relies on are records of their own (Platform/Laws).
pub mod Laws
pub mod Transactions
pub mod Rows
pub mod Pixels
use yggdrasil_authentication.Base.{ℕ, Bool, Option, List, Text}
use yggdrasil_authentication.Base.Int.{ℤ}
use yggdrasil_authentication.Types.{
  Time, Error, Result, Client, User, Invite, TokenClaims, SessionProfileResponse, TexturesValue,
  PlayerNameToUuidResponse, PublicKeysResponse, Config,
}

-- The conditions of the queries on users: `username = ?` and so on.
pub data UserQuery : Type 0 where
  by_username by_player_name by_uuid by_offline_uuid by_browser_token : Text → UserQuery

-- The models that `AutoMigrate` is called for.
pub data Table : Type 0 where
  users_table clients_table invites_table : Table

-- The state of the open database and the calls of GORM that the program makes. A query returns
-- gorm.ErrRecordNotFound as `err record_not_found`; a write returns `.Error` and the new state.
pub record Gorm : Type 1 where
  pub Db : Type 0
  pub first_user : UserQuery → Db → Result User
  pub first_user_with_clients : UserQuery → Db → Result User
  pub first_client_with_user : Text → Db → Result (Client × User)
  pub find_users : Db → Result (List User)
  pub find_invites : Db → Result (List Invite)
  pub first_invite : Text → Db → Result Invite
  pub skin_hash_in_use : Text → Db → Result Bool
  pub cape_hash_in_use : Text → Db → Result Bool
  pub create_user : User → Db → Option Error × Db
  pub save_user : User → Db → Option Error × Db
  pub delete_user : User → Db → Option Error × Db
  pub save_client : Client × User → Db → Option Error × Db
  pub increment_versions : Text → Db → Option Error × Db
  pub create_invite : Invite → Db → Option Error × Db
  pub delete_invite : Text → Db → Option Error × Db
  pub make_admins : List Text → Db → Option Error × Db
  pub count_users : Db → Result ℕ
  pub any_invite : Db → Result Invite
  -- Transactions: `DB.Begin`, the calls on the transaction, `Commit` and `Rollback`. The open
  -- transactions with their pending writes are part of the database's state.
  pub Tx : Type 0
  pub begin : Db → Tx × Db
  pub commit : Tx → Db → Option Error × Db
  pub rollback : Tx → Db → Db
  pub tx_find_users : Tx → Db → Result (List User)
  pub tx_create_user : Tx → User → Db → Option Error × Db
  pub tx_save_user : Tx → User → Db → Option Error × Db
  pub tx_delete_invite : Tx → Invite → Db → Option Error × Db
  -- Migration: `PRAGMA user_version`, `Migrator().AddColumn(&User{}, …)`, `AutoMigrate` and
  -- `Model(&user).Update("offline_uuid", …)`.
  pub user_version : Db → Result ℕ
  pub tx_set_user_version : Tx → ℕ → Db → Option Error × Db
  pub tx_add_user_column : Tx → Text → Db → Option Error × Db
  pub tx_auto_migrate : Tx → Table → Db → Option Error × Db
  pub tx_update_offline_uuid : Tx → User → Text → Db → Option Error × Db

-- `jwt.Token`: `Valid`, and `Claims` where they are a `*TokenClaims`.
pub record JwtToken : Type 0 where
  pub valid : Bool
  pub claims : Option TokenClaims

-- golang-jwt: `NewNumericDate`, `NewWithClaims(SigningMethodRS512, …).SignedString` and
-- `ParseWithClaims`, which reads the clock.
pub record Jwt : Type 1 where
  pub PrivateKey : Type 0
  pub PublicKey : Type 0
  pub public : PrivateKey → PublicKey
  pub new_numeric_date : Time → Time
  pub signed_string : TokenClaims → PrivateKey → Result Text
  pub parse_with_claims : Text → PublicKey → Time → Result JwtToken
  pub sign_pkcs1v15_sha1 : PrivateKey → Text → Result Text

-- crypto/rsa, crypto/x509 and encoding/pem: `GenerateKey(rand.Reader, bits)` at a moment, `Equal`,
-- `MarshalPKIXPublicKey`, `MarshalPKCS8PrivateKey`, the parsers, which give nothing for a key that is
-- not one of RSA, and `EncodeToMemory` of a block with a type and bytes.
pub record X509 (J : Jwt) : Type 0 where
  pub key_equal : J.PublicKey → J.PublicKey → Bool
  pub marshal_pkix_public_key : J.PublicKey → Result Text
  pub parse_pkix_public_key : Text → Result (Option J.PublicKey)
  pub generate_key : ℕ → ℕ → Result J.PrivateKey
  pub marshal_pkcs8_private_key : J.PrivateKey → Result Text
  pub parse_pkcs8_private_key : Text → Result (Option J.PrivateKey)
  pub pem_encode : Text → Text → Text

-- An `io.Reader`: the bytes that it gives, and the error that it ends with, nil for io.EOF.
pub record Reader : Type 0 where
  pub bytes : Text
  pub broken : Option Error

-- Hash functions and codecs, over byte sequences. `decode_…` is a JSON decoder on a stream. `png_decode_config` gives the width and height;
-- `url_append` is `url.Parse`, `Path +=`, `RawQuery = Values.Encode()` and `String`; `to_upper` and `to_lower` are those of strings; `error_string` is
-- `err.Error()`, as formatting writes it; `rand_intn` is `rand.New(rand.NewSource(seed)).Intn(n)`.
pub record Codecs : Type 0 where
  pub md5 : Text → Text
  pub blake3_sum256 : Text → Text
  pub blake3_sum512 : Text → Text
  pub scrypt_key : Text → Text → ℕ → ℕ → ℕ → ℕ → Result Text
  pub uuid_parse : Text → Result Text
  pub uuid_from_bytes : Text → Result Text
  pub uuid_string : Text → Text
  pub base62_encode : Text → Text
  pub base64_encode : Text → Text
  pub base64_decode : Text → Result Text
  pub marshal_textures : TexturesValue → Result Text
  pub unmarshal_textures : Text → Result TexturesValue
  pub unmarshal_profile : Text → Result SessionProfileResponse
  pub unmarshal_player : Text → Result PlayerNameToUuidResponse
  pub decode_player : Text → Result PlayerNameToUuidResponse
  pub decode_profile : Text → Result SessionProfileResponse
  pub decode_public_keys : Text → Result PublicKeysResponse
  pub png_decode_config : Reader → Result (ℕ × ℕ)
  pub url_join_path : Text → List Text → Result Text
  pub url_parse : Text → Option Error
  pub error_string : Error → Text
  pub url_append : Text → Text → List (Text × Text) → Result Text
  pub path_join : Text → Text → Text
  pub path_dir : Text → Text
  pub filepath_rel : Text → Text → Result Text
  pub rand_intn : ℤ → ℕ → ℕ
  pub format_int : ℤ → Text
  pub query_escape : Text → Text
  pub query_unescape : Text → Result Text
  pub to_upper : Text → Text
  pub to_lower : Text → Text
  pub utf8_valid : Text → Bool

-- `url.URL`: `url.Parse`, `Path`, `String`, and `query := u.Query(); query.Del(…); u.RawQuery =
-- query.Encode()`.
pub record Urls : Type 1 where
  pub Url : Type 0
  pub parse_url : Text → Result Url
  pub url_path : Url → Text
  pub with_path : Url → Text → Url
  pub without_query_param : Url → Text → Url
  pub url_string : Url → Text

-- `color.NRGBA`.
pub record Nrgba : Type 0 where
  pub r : ℕ
  pub g : ℕ
  pub b : ℕ
  pub a : ℕ

-- `image.NRGBA`, with its width and height; and image/png, where decoding gives nothing for an image
-- of another type.
pub record Images : Type 1 where
  pub Image : Type 0
  pub new_nrgba : ℕ → ℕ → Image
  pub bounds : Image → ℕ × ℕ
  pub nrgba_at : Image → ℕ → ℕ → Nrgba
  pub set_nrgba : ℕ → ℕ → Nrgba → Image → Image
  pub png_encode : Image → Result Text
  pub png_decode : Text → Result (Option Image)

-- `CachedResponse`.
pub record CachedResponse : Type 0 where
  pub status_code : ℕ
  pub body_bytes : Text

-- What an HTTP server answers; `body` is what could be read of it, and `broken` the error that
-- reading it ended with.
pub record HttpResponse : Type 0 where
  pub status_code : ℕ
  pub content_type : Text
  pub body : Text
  pub broken : Option Error

-- What is read from outside: the clock, random bytes and HTTP servers, each at a moment, the number
-- of such readings before it; and the cache of answers, which drops entries as it likes.
pub record Outside : Type 1 where
  pub Cache : Type 0
  pub clock : ℕ → Time
  pub rand_read : ℕ → ℕ → Result Text
  pub new_uuid : ℕ → Text
  pub http_get : ℕ → Text → Result HttpResponse
  pub cache_get : ℕ → Text → Cache → Option CachedResponse
  pub cache_set : ℕ → Text → CachedResponse → ℤ → Cache → Cache

-- `os.Stat` as the program reads it.
pub data Stat : Type 0 where
  exists not_exist : Stat
  stat_failed : Error → Stat

-- The file system; `write_file` is `os.WriteFile`, and `decode_config` is `toml.DecodeFile` of a path
-- into a configuration.
pub record FileSystem : Type 1 where
  pub Files : Type 0
  pub stat : Text → Files → Stat
  pub open_file : Text → Files → Option Error
  pub mkdir_all : Text → Files → Option Error × Files
  pub create : Text → Files → Option Error × Files
  pub write_to : Text → Text → Files → Option Error × Files
  pub remove : Text → Files → Option Error × Files
  pub glob : Text → Files → Result (List Text)
  pub read_file : Text → Files → Result Text
  pub write_file : Text → Text → Files → Option Error × Files
  pub decode_config : Text → Config → Files → Result Config

pub record Platform : Type 1 where
  pub gorm : Gorm
  pub open gorm use *
  pub jwt : Jwt
  pub open jwt use *
  pub x509 : X509 jwt
  pub open x509 use *
  pub codecs : Codecs
  pub open codecs use *
  pub urls : Urls
  pub open urls use *
  pub images : Images
  pub open images use *
  pub outside : Outside
  pub open outside use *
  pub file_system : FileSystem
  pub open file_system use *
