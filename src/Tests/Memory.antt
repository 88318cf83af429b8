-- ===== src/Tests/Memory.antt =====
-- A concrete platform: a database with room for one user and one client, tokens that spell out their
-- claims, hash functions that keep their input, a clock that starts at zero, and one answer of every
-- HTTP server.
use yggdrasil_authentication.Base.{
  ℕ, zero, suc, ◌+◌, Bool, true, false, ◌&&◌, Option, none, some, List, [], ◌∷◌, ◌++◌, ◌==◌,
  text_eq, nat_eq, Text, text, length, take, drop, replicate, if◌then◌else◌,
}
use yggdrasil_authentication.Base.Int.{ℤ, pos, negsuc, ltb_ℤ}
use yggdrasil_authentication.Types.{
  Time, Error, record_not_found, errors_new, Result, ok, err, Client, User, TokenClaims,
}
use yggdrasil_authentication.Platform.{
  Gorm, Jwt, X509, JwtToken, CachedResponse, HttpResponse, Codecs, Urls, Nrgba, Images, Outside,
  FileSystem, Platform, UserQuery, by_username, by_player_name, by_uuid, by_offline_uuid,
  by_browser_token, not_exist,
}

pub record Db : Type 0 where
  pub user : Option User
  pub client : Option Client

abbrev pub fits : UserQuery → User → Bool
fits (by_username s) u = u.username == s
fits (by_player_name s) u = u.player_name == s
fits (by_uuid s) u = u.uuid == s
fits (by_offline_uuid s) u = u.offline_uuid == s
fits (by_browser_token s) u = u.browser_token.valid && u.browser_token.string == s

abbrev pub find_user : UserQuery → Option User → Result User
find_user q none = err record_not_found
find_user q (some u) = if fits q u then ok u else err record_not_found

abbrev pub client_list : Option Client → List Client
client_list none = []
client_list (some c) = c ∷ []

abbrev pub with_clients : Option Client → Result User → Result User
with_clients c (err e) = err e
with_clients c (ok u) = ok (record u { clients = client_list c })

abbrev pub find_client : Text → Option Client → Option User → Result (Client × User)
find_client t (some c) (some u) =
    if c.client_token == t && c.user_uuid == u.uuid then ok (c, u) else err record_not_found
find_client t (some c) none = err record_not_found
find_client t none u = err record_not_found

abbrev pub locked : Error
locked = errors_new (text "database is locked")

abbrev pub last : List Client → Option Client
last [] = none
last (c ∷ []) = some c
last (c ∷ d ∷ cs) = last (d ∷ cs)

-- The association of a saved user: a client is added if there is room.
abbrev pub add_client : Text → Option Client → Option Client → Option (Option Client)
add_client uuid none none = some none
add_client uuid none (some c) = some (some (record c { user_uuid = uuid }))
add_client uuid (some c) none = some (some c)
add_client uuid (some c) (some d) = none

abbrev pub save_user : User → Db → Option Error × Db
save_user u db = elim (add_client u.uuid db.client (last u.clients)) [
  | none ↦ (some locked, db)
  | some c ↦ (none, record { user = some (record u { clients = [] }); client = c })
]

abbrev pub save_client_to : Client → Option Client → Db → Option Error × Db
save_client_to c none db = (some locked, db)
save_client_to c (some old) db =
    if old.client_token == c.client_token
    then (none, record db { client = some c })
    else (some locked, db)

abbrev pub increment : Text → Option Client → Option Client
increment uuid none = none
increment uuid (some c) =
    some (if c.user_uuid == uuid then record c { version = c.version + 1 } else c)

abbrev pub memory : Gorm
memory = record {
  Db = Db;
  first_user = λ q db. find_user q db.user;
  first_user_with_clients = λ q db. with_clients db.client (find_user q db.user);
  first_client_with_user = λ t db. find_client t db.client db.user;
  find_users = λ db. elim (db.user) [ none ↦ ok [] | some u ↦ ok (u ∷ []) ];
  find_invites = λ db. ok [];
  first_invite = λ code db. err record_not_found;
  skin_hash_in_use = λ h db. ok false;
  cape_hash_in_use = λ h db. ok false;
  create_user = save_user;
  save_user = save_user;
  delete_user = λ u db. (none, record db { user = none });
  save_client = λ p db. save_client_to p.0 db.client db;
  increment_versions = λ uuid db. (none, record db { client = increment uuid db.client });
  create_invite = λ i db. (some locked, db);
  delete_invite = λ i db. (some locked, db);
  make_admins = λ names db. (none, db);
  count_users = λ db. ok 0;
  any_invite = λ db. err record_not_found;
  Tx = Unit {0};
  begin = λ db. (tt, db);
  commit = λ tx db. (none, db);
  rollback = λ tx db. db;
  tx_find_users = λ tx db. err locked;
  tx_create_user = λ tx u db. (some locked, db);
  tx_save_user = λ tx u db. (some locked, db);
  tx_delete_invite = λ tx i db. (some locked, db);
  user_version = λ db. err locked;
  tx_set_user_version = λ tx v db. (some locked, db);
  tx_add_user_column = λ tx name db. (some locked, db);
  tx_auto_migrate = λ tx table db. (some locked, db);
  tx_update_offline_uuid = λ tx u uuid db. (some locked, db);
}

-- A token: the claims as numbers.
abbrev pub sign_of : ℤ → ℕ
sign_of (pos n) = 0
sign_of (negsuc n) = 1

abbrev pub size_of : ℤ → ℕ
size_of (pos n) = n
size_of (negsuc n) = n

abbrev pub encode_ℤ : ℤ → Text → Text
encode_ℤ t rest = sign_of t ∷ size_of t ∷ rest

abbrev pub decode_ℤ : ℕ → ℕ → ℤ
decode_ℤ zero n = pos n
decode_ℤ (suc s) n = negsuc n

abbrev pub flag_of : Option Time → ℕ
flag_of none = 0
flag_of (some t) = 1

abbrev pub time_of : Option Time → Time
time_of none = pos 0
time_of (some t) = t

abbrev pub encode_stale : Option Time → Text → Text
encode_stale t rest = flag_of t ∷ encode_ℤ (time_of t) rest

abbrev pub decode_stale : ℕ → ℕ → ℕ → Option Time
decode_stale zero s n = none
decode_stale (suc f) s n = some (decode_ℤ s n)

abbrev pub encode : TokenClaims → Text
encode c = encode_ℤ c.issued_at (
    encode_ℤ c.expires_at
      (encode_stale c.stale_at (c.version ∷ length c.issuer ∷ (c.issuer ++ c.subject))))

abbrev pub decode : Text → Option TokenClaims
decode (s1 ∷ n1 ∷ s2 ∷ n2 ∷ f ∷ s3 ∷ n3 ∷ v ∷ k ∷ rest) = some (record {
  subject = drop k rest;
  issued_at = decode_ℤ s1 n1;
  expires_at = decode_ℤ s2 n2;
  issuer = take k rest;
  version = v;
  stale_at = decode_stale f s3 n3;
})
decode _ = none

abbrev pub expired : Error
expired = errors_new (text "token has invalid claims: token is expired")

abbrev pub check_expiry : Time → Option TokenClaims → Result JwtToken
check_expiry at none = err expired
check_expiry at (some c) =
    if ltb_ℤ at c.expires_at then ok (record { valid = true; claims = some c }) else err expired

abbrev pub spelled_out : Jwt
spelled_out = record {
  PrivateKey = Unit {0};
  PublicKey = Unit {0};
  public = λ k. k;
  new_numeric_date = λ t. t;
  signed_string = λ c k. ok (encode c);
  parse_with_claims = λ t k at. check_expiry at (decode t);
  sign_pkcs1v15_sha1 = λ k s. ok s;
}

-- There is one key.
abbrev pub one_key : X509 spelled_out
one_key = record {
  key_equal = λ k l. true;
  marshal_pkix_public_key = λ k. ok [];
  parse_pkix_public_key = λ s. ok (some tt);
  generate_key = λ moment bits. ok tt;
  marshal_pkcs8_private_key = λ k. ok (text "private");
  parse_pkcs8_private_key = λ s. ok (some tt);
  pem_encode = λ label b. label ++ b;
}

abbrev pub failure : Error
failure = errors_new []

abbrev pub join : Text → List Text → Text
join base [] = base
join base (e ∷ es) = join (base ++ (b'/' ∷ e)) es

abbrev pub codecs : Codecs
codecs = record {
  md5 = λ s. replicate 16 255;
  blake3_sum256 = λ s. s;
  blake3_sum512 = λ s. s;
  scrypt_key = λ password salt n r p size. ok (salt ++ password);
  uuid_parse = λ s. err failure;
  uuid_from_bytes = λ b. if length b == 16 then ok b else err failure;
  uuid_string = λ b. replicate 36 b'0';
  base62_encode = λ b. b;
  base64_encode = λ b. b;
  base64_decode = λ b. ok b;
  marshal_textures = λ t. ok [];
  unmarshal_textures = λ t. err failure;
  unmarshal_profile = λ t. err failure;
  unmarshal_player = λ t. err failure;
  decode_player = λ t. err failure;
  decode_profile = λ t. err failure;
  decode_public_keys = λ t. err failure;
  png_decode_config = λ b. ok (64, 64);
  url_join_path = λ base elements. ok (join base elements);
  url_parse = λ s. none;
  error_string = λ e. [];
  url_append = λ base path query. ok (base ++ path);
  path_join = λ base path. base ++ (b'/' ∷ path);
  path_dir = λ path. path;
  filepath_rel = λ base path. ok path;
  rand_intn = λ seed n. 0;
  format_int = λ n. text "n";
  query_escape = λ s. s;
  query_unescape = λ s. ok s;
  to_upper = λ s. s;
  to_lower = λ s. s;
  utf8_valid = λ s. true;
}

-- A URL is its text, and an image a function on pixels.
abbrev pub plain_urls : Urls
plain_urls = record {
  Url = Text;
  parse_url = λ s. ok s;
  url_path = λ url. [];
  with_path = λ url path. url ++ path;
  without_query_param = λ url param. url;
  url_string = λ url. url;
}

abbrev pub blank : Nrgba
blank = record { r = 0; g = 0; b = 0; a = 0 }

pub record Picture : Type 0 where
  pub width : ℕ
  pub height : ℕ
  pub pixel : ℕ → ℕ → Nrgba

abbrev pub pictures : Images
pictures = record {
  Image = Picture;
  new_nrgba = λ width height. record { width = width; height = height; pixel = λ x y. blank };
  bounds = λ img. (img.width, img.height);
  nrgba_at = λ img. img.pixel;
  set_nrgba = λ x y c img. record img {
    pixel = λ x' y'. if x' == x then (if y' == y then c else img.pixel x' y') else img.pixel x' y';
  };
  png_encode = λ img. ok [];
  png_decode = λ s. ok none;
}

abbrev pub lookup : Text → List (Text × CachedResponse) → Option CachedResponse
lookup url [] = none
lookup url (entry ∷ cache) = if url == entry.0 then some entry.1 else lookup url cache

abbrev pub answer : HttpResponse
answer = record {
  status_code = 200;
  content_type = text "application/json";
  body = text "{}";
  broken = none;
}

abbrev pub outside : Outside
outside = record {
  Cache = List (Text × CachedResponse);
  clock = λ moment. pos moment;
  rand_read = λ moment n. ok (replicate n moment);
  new_uuid = λ moment. replicate 36 b'0';
  http_get = λ moment url. ok answer;
  cache_get = λ moment url cache. lookup url cache;
  cache_set = λ moment url response ttl cache. (url, response) ∷ cache;
}

abbrev pub no_files : FileSystem
no_files = record {
  Files = Unit {0};
  stat = λ path files. not_exist;
  open_file = λ path files. none;
  mkdir_all = λ path files. (none, files);
  create = λ path files. (none, files);
  write_to = λ path content files. (none, files);
  remove = λ path files. (none, files);
  read_file = λ path files. err failure;
  write_file = λ path contents files. (none, files);
  decode_config = λ path config files. ok config;
  glob = λ pattern files. ok [];
}

instance abbrev pub platform : Platform
platform = record {
  gorm = memory;
  jwt = spelled_out;
  x509 = one_key;
  codecs = codecs;
  urls = plain_urls;
  images = pictures;
  outside = outside;
  file_system = no_files;
}
