-- ===== src/Tests/Store.antt =====
-- A concrete platform with transactions: a database with room for one user and one invite, and servers
-- on which a player wears a black skin. Migrating its tables succeeds or fails as the argument says.
use yggdrasil_authentication.Base.{
  ℕ, Bool, true, false, Option, none, some, List, [], ◌∷◌, ◌==◌, text_eq, Text, text, replicate,
  length, if◌then◌else◌,
}
use yggdrasil_authentication.Types.{
  Error, record_not_found, Result, ok, err, User, Invite, SessionProfileResponse, TexturesValue,
}
use yggdrasil_authentication.Base.Int.{pos}
use yggdrasil_authentication.Platform.{Gorm, Codecs, Platform}
use yggdrasil_authentication.Tests.Memory.{
  find_user, locked, spelled_out, one_key, codecs, outside, no_files, plain_urls, pictures, Picture,
  blank,
}

pub record Store : Type 0 where
  pub row : Option User
  pub pending : Option User
  pub invite : Option Invite
  pub pending_invite : Option Invite
  pub version : ℕ
  pub pending_version : ℕ

abbrev pub rows : Option User → List User
rows none = []
rows (some u) = record u { clients = [] } ∷ []

abbrev pub stripped : Option User → Option User
stripped none = none
stripped (some u) = some (record u { clients = [] })

abbrev pub replaced : User → Option User → Option User
replaced u none = none
replaced u (some r) = some (if r.uuid == u.uuid then u else r)

abbrev pub with_offline : User → Text → Option User → Option User
with_offline u offline none = none
with_offline u offline (some r) =
    some (if r.uuid == u.uuid then record r { offline_uuid = offline } else r)

abbrev pub created : User → Option User → Store → Option Error × Store
created u none db = (none, record db { pending = some u })
created u (some r) db = (some locked, db)

abbrev pub stored_invite : Text → Option Invite → Result Invite
stored_invite code none = err record_not_found
stored_invite code (some i) = if i.code == code then ok i else err record_not_found

abbrev pub or_missing : Option Invite → Result Invite
or_missing none = err record_not_found
or_missing (some i) = ok i

abbrev pub deleted : Text → Option Invite → Option Invite
deleted code none = none
deleted code (some i) = if i.code == code then none else some i

abbrev pub migrated : Bool → Store → Option Error × Store
migrated true db = (none, db)
migrated false db = (some locked, db)

abbrev pub committed : Store → Store
committed db = record db {
  row = db.pending;
  invite = db.pending_invite;
  version = db.pending_version;
}

abbrev pub forgotten : Store → Store
forgotten db = record db {
  pending = db.row;
  pending_invite = db.invite;
  pending_version = db.version;
}

abbrev pub transactional : Bool → Gorm
transactional reliable = record {
  Db = Store;
  first_user = λ q db. find_user q (stripped db.row);
  first_user_with_clients = λ q db. find_user q db.row;
  first_client_with_user = λ t db. err record_not_found;
  find_users = λ db. ok (rows db.row);
  find_invites = λ db. ok [];
  first_invite = λ code db. stored_invite code db.invite;
  skin_hash_in_use = λ h db. ok false;
  cape_hash_in_use = λ h db. ok false;
  create_user = λ u db. (some locked, db);
  save_user = λ u db. (none, record db { row = replaced u db.row });
  delete_user = λ u db. (some locked, db);
  save_client = λ p db. (some locked, db);
  increment_versions = λ uuid db. (none, db);
  create_invite = λ i db. (none, record db { invite = some i });
  delete_invite = λ i db. (some locked, db);
  make_admins = λ names db. (none, db);
  count_users = λ db. ok (length (rows db.row));
  any_invite = λ db. or_missing db.invite;
  Tx = Unit {0};
  begin = λ db. (tt, forgotten db);
  commit = λ tx db. (none, committed db);
  rollback = λ tx db. forgotten db;
  tx_find_users = λ tx db. ok (rows db.pending);
  tx_create_user = λ tx u db. created u db.pending db;
  tx_save_user = λ tx u db. (none, record db { pending = replaced u db.pending });
  tx_delete_invite =
      λ tx i db. (none, record db { pending_invite = deleted i.code db.pending_invite });
  user_version = λ db. ok db.version;
  tx_set_user_version = λ tx v db. (none, record db { pending_version = v });
  tx_add_user_column = λ tx name db. (none, db);
  tx_auto_migrate = λ tx table db. migrated reliable db;
  tx_update_offline_uuid =
      λ tx u offline db. (none, record db { pending = with_offline u offline db.pending });
}

abbrev pub profile : SessionProfileResponse
profile = record {
  id = replicate 32 b'0';
  name = text "alex";
  properties = record { name = text "textures"; value = []; signature = none } ∷ [];
}

abbrev pub textures : TexturesValue
textures = record {
  timestamp = pos 0;
  profile_id = [];
  profile_name = [];
  textures = record { skin = some (record { url = []; metadata = none }); cape = none };
}

abbrev pub black : Picture
black = record { width = 64; height = 64; pixel = λ x y. blank }

abbrev pub wardrobe : Codecs
wardrobe = record codecs {
  blake3_sum512 = λ s. replicate 64 0;
  unmarshal_textures = λ s. ok textures;
  decode_player = λ s. ok (record { name = []; id = [] });
  decode_profile = λ s. ok profile;
}

abbrev pub store_at : Bool → Platform
store_at reliable = record {
  gorm = transactional reliable;
  jwt = spelled_out;
  x509 = one_key;
  codecs = wardrobe;
  urls = plain_urls;
  images = record pictures { png_decode = λ s. ok (some black) };
  outside = outside;
  file_system = no_files;
}

instance abbrev pub store : Platform
store = store_at true
