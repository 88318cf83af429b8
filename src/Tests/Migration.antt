-- ===== src/Tests/Migration.antt =====
-- The theorems on the migration of the database and on the challenge skin, at a concrete database.
use yggdrasil_authentication.Base.{
  ◌≡◌, refl, true, false, Option, none, some, List, [], ◌∷◌, text, text_beq, replicate,
}
use yggdrasil_authentication.Types.{ok, User}
use yggdrasil_authentication.Action.{App, World, next, fail}
use yggdrasil_authentication.Model.Ids.{id_to_uuid}
use yggdrasil_authentication.Model.Offline.{offline_uuid, set_version_3}
use yggdrasil_authentication.Migration.{
  current_user_version, upgrade, auto_migrate, migration, migrate,
}
use yggdrasil_authentication.Migration.Rows.{fill_all}
use yggdrasil_authentication.Migration.Success.{migrate-fill_all}
use yggdrasil_authentication.Migration.Rollback.{migrate_rollback}
use yggdrasil_authentication.Challenge.{
  ProxiedAccountDetails, range, draw_challenge, read_row, read_rows, read_challenge, get_challenge,
  request_url, get_ok, check_skin, check_textures, verify_skin, validate_challenge,
}
use yggdrasil_authentication.Challenge.Roundtrip.{read_challenge-draw_challenge}
use yggdrasil_authentication.Challenge.Verified.{IsVerified, validate_challenge_verifies}
use yggdrasil_authentication.Tests.Memory.{locked}
use yggdrasil_authentication.Tests.Store.{Store, store_at, store, black}
use yggdrasil_authentication.Tests.StoreLaws.{tx_laws, migrator_laws, never_fails, image_laws}
use yggdrasil_authentication.Tests.Sample.{config, steve}

abbrev database : Option User → Store
database row = record {
  row = row;
  pending = none;
  invite = none;
  pending_invite = none;
  version = 0;
  pending_version = 0;
}

abbrev old : World store
old = record { db = database (some steve); cache = []; files = tt; moment = 0; set_cookies = [] }

abbrev filled : List User
filled = record steve { offline_uuid = replicate 36 b'0' } ∷ []

offline_known : fill_all (steve ∷ []) ≡ ok filled
unfolding offline_uuid set_version_3 text
offline_known = refl

migrate-fill_all_example :
    (w' : World store) × (migrate true old ≡ (next tt, w'))
    × (store.find_users w'.db ≡ ok filled)
    × (store.user_version w'.db ≡ ok current_user_version)
    × (w'' : World store) × (migrate true w' ≡ (next tt, w''))
    × (store.find_users w''.db ≡ ok filled)
    × (store.user_version w''.db ≡ ok current_user_version)
migrate-fill_all_example =
    migrate-fill_all (tx_laws true) (migrator_laws true) never_fails (steve ∷ []) filled old refl
      refl offline_known

abbrev failing : World (store_at false)
failing = record {
  db = record (database (some steve)) { version = 1 };
  cache = [];
  files = tt;
  moment = 0;
  set_cookies = [];
}

abbrev rolled_back : World (store_at false)
rolled_back = record failing {
  db = record failing.db { pending = some steve; pending_version = 1 };
}

fails : migrate ⦃P = store_at false⦄ true failing ≡ (fail locked, rolled_back)
unfolding migrate migration upgrade auto_migrate
fails = refl

migrate_rollback_example :
    (store_at false).find_users rolled_back.db ≡ (store_at false).find_users failing.db
migrate_rollback_example =
    migrate_rollback ⦃P = store_at false⦄ (tx_laws false) (migrator_laws false) true locked failing
      rolled_back fails

read_challenge-draw_challenge_example :
    read_challenge (draw_challenge (replicate 64 7) black) ≡ replicate 64 7
read_challenge-draw_challenge_example =
    read_challenge-draw_challenge image_laws (replicate 64 7) black refl

abbrev app : App store
app = record {
  config = record config {
    registration_existing_player = record config.registration_existing_player {
      allow = true;
      require_skin_verification = true;
    };
  };
  front_end_url = text "https://drasl.example.com";
  transient_username_regex = λ name. false;
  key = tt;
  key_b3_sum512 = text "key";
}

abbrev details : ProxiedAccountDetails
details = record { username = text "alex"; uuid = text "00000000-0000-0000-0000-000000000000" }

abbrev asked : World store
asked = record old { moment = 3 }

verifies : validate_challenge app (text "alex") (text "token") old ≡ (next details, asked)
unfolding validate_challenge get_ok request_url id_to_uuid verify_skin check_textures check_skin
    read_challenge read_rows read_row range get_challenge text text_beq
verifies = refl

validate_challenge_verifies_example : IsVerified app (text "alex") (text "token") details old.moment
validate_challenge_verifies_example =
    validate_challenge_verifies app (text "alex") (text "token") details old asked refl verifies
