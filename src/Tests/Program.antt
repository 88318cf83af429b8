-- ===== src/Tests/Program.antt =====
-- The theorems on the start of the program: on a disk with room for one file, and with an empty
-- database.
use yggdrasil_authentication.Base.{
  ◌≡◌, refl, ap, true, Option, none, some, [], Text, text, text_beq, arith,
}
use yggdrasil_authentication.Types.{Result, ok, err, Invite}
use yggdrasil_authentication.Platform.{Platform, FileSystem, not_exist}
use yggdrasil_authentication.Platform.Laws.{KeyFileLaws}
use yggdrasil_authentication.Action.{App, World, Exit, next}
use yggdrasil_authentication.Random.{random_base62}
use yggdrasil_authentication.Model.Names.{invite_url}
use yggdrasil_authentication.Users.{create_invite}
use yggdrasil_authentication.Startup.{wants_invite, initial_invite, initial_invite_url, post_setup}
use yggdrasil_authentication.Startup.Invited.{post_setup_invites}
use yggdrasil_authentication.Program.{create_key, read_or_create_key}
use yggdrasil_authentication.Program.Restart.{read_or_create_key_again}
use yggdrasil_authentication.Tests.Memory.{platform, failure}
use yggdrasil_authentication.Tests.Store.{store}
use yggdrasil_authentication.Tests.StoreLaws.{first_invite_laws}
use yggdrasil_authentication.Tests.Sample.{config}

abbrev contents : Option Text → Result Text
contents none = err failure
contents (some s) = ok s

abbrev one_file : FileSystem
one_file = record {
  Files = Option Text;
  stat = λ path files. not_exist;
  open_file = λ path files. none;
  mkdir_all = λ path files. (none, files);
  create = λ path files. (none, some []);
  write_to = λ path content files. (none, some content);
  remove = λ path files. (none, none);
  glob = λ pattern files. ok [];
  read_file = λ path files. contents files;
  write_file = λ path content files. (none, some content);
  decode_config = λ path config files. ok config;
}

abbrev disk : Platform
disk = record platform { file_system = one_file }

disk_laws : KeyFileLaws disk
disk_laws = record {
  read_file-write_file = λ path content files files' written.
      let kept : files' ≡ some content = ground (arith, written) in ap contents kept;
  parse_marshal_private = λ k der h. refl;
}

abbrev empty_disk : World disk
empty_disk = record {
  db = record { user = none; client = none };
  cache = [];
  files = none;
  moment = 0;
  set_cookies = [];
}

abbrev key_disk : World disk
key_disk = record empty_disk { files = some (text "private"); moment = 1 }

creates_key : read_or_create_key ⦃P = disk⦄ config empty_disk ≡ (next tt, key_disk)
unfolding read_or_create_key create_key
creates_key = refl

read_or_create_key_again_example :
    read_or_create_key ⦃P = disk⦄ config key_disk ≡ (next tt, key_disk)
read_or_create_key_again_example =
    read_or_create_key_again ⦃P = disk⦄ disk_laws config tt empty_disk key_disk key_disk creates_key
      refl

abbrev app : App store
app = record {
  config = record config {
    registration_new_player = record config.registration_new_player { require_invite = true };
  };
  front_end_url = text "https://drasl.example.com";
  transient_username_regex = λ name. true;
  key = tt;
  key_b3_sum512 = [];
}

abbrev start : World store
start = record {
  db = record {
    row = none;
    pending = none;
    invite = none;
    pending_invite = none;
    version = 1;
    pending_version = 1;
  };
  cache = [];
  files = tt;
  moment = 0;
  set_cookies = [];
}

abbrev url_of : Exit (Option Text) → Text
url_of (next (some url)) = url
url_of _ = []

abbrev run_start : Exit (Option Text) × World store
run_start = post_setup ⦃P = store⦄ app start

prints : run_start ≡ (next (some (url_of run_start.0)), run_start.1)
unfolding post_setup initial_invite_url wants_invite initial_invite create_invite random_base62
    invite_url text text_beq
prints = refl

post_setup_invites_example :
    (i : Invite) × (invite_url ⦃P = store⦄ app i ≡ ok (url_of run_start.0))
    × (store.first_invite i.code run_start.1.db ≡ ok i)
post_setup_invites_example =
    post_setup_invites ⦃P = store⦄ app first_invite_laws (url_of run_start.0) start run_start.1
      prints
