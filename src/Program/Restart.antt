-- ===== src/Program/Restart.antt =====
-- About `ReadOrCreateKey` of config.go.
use yggdrasil_authentication.Base.{◌≡◌, refl, Option, none, some, Text, text, arith}
use yggdrasil_authentication.Types.{Config, Result, ok, err, Error}
use yggdrasil_authentication.Platform.{Platform}
use yggdrasil_authentication.Platform.Laws.{KeyFileLaws}
use yggdrasil_authentication.Action.{World, next}
use yggdrasil_authentication.Program.{create_key, read_or_create_key}

module _ ⦃P : Platform⦄ (laws : KeyFileLaws P) where
  -- The file of a path holds a key.
  pub record Holds (path : Text) (key : P.PrivateKey) (files : P.Files) : Type 0 where
    pub der : Text
    pub reads : P.read_file path files ≡ ok der
    pub parses : P.parse_pkcs8_private_key der ≡ ok (some key)

  create_key-Holds :
      (path : Text) (key : P.PrivateKey) (w w' : World P)
      → create_key path w ≡ (next key, w')
      → Holds path key w'.files
  unfolding create_key
  create_key-Holds path key w w' h = by_key _ refl
    where
      by_write :
          (k : P.PrivateKey) (der : Text)
          → P.generate_key w.moment 4096 ≡ ok k
          → P.marshal_pkcs8_private_key k ≡ ok der
          → (e : Option Error) (files : P.Files) → P.write_file path der w.files ≡ (e, files)
          → Holds path key w'.files
      by_write k der g m none files written = record {
        der = der;
        reads =
            ground
              (arith, h, g, m, written, laws.read_file-write_file path der w.files files written);
        parses = ground (arith, h, g, m, written, laws.parse_marshal_private k der m);
      }
      by_write k der g m (some e) files written = absurd (ground (arith, h, g, m, written))

      by_der :
          (k : P.PrivateKey)
          → P.generate_key w.moment 4096 ≡ ok k
          → (der : Result Text) → P.marshal_pkcs8_private_key k ≡ der
          → Holds path key w'.files
      by_der k g (ok der) m = by_write k der g m _ _ refl
      by_der k g (err e) m = absurd (ground (arith, h, g, m))

      by_key :
          (k : Result P.PrivateKey) → P.generate_key w.moment 4096 ≡ k → Holds path key w'.files
      by_key (ok k) g = by_der k g _ refl
      by_key (err e) g = absurd (ground (arith, h, g))

  abbrev key_path : Config → Text
  key_path config = P.path_join config.state_directory (text "key.pkcs8")

  read_or_create_key-Holds :
      (config : Config) (key : P.PrivateKey) (w w' : World P)
      → read_or_create_key config w ≡ (next key, w')
      → Holds (key_path config) key w'.files
  unfolding read_or_create_key
  read_or_create_key-Holds config key w w' h = by_file _ refl
    where
      by_parse :
          (der : Text)
          → P.read_file (key_path config) w.files ≡ ok der
          → (k : Result (Option P.PrivateKey)) → P.parse_pkcs8_private_key der ≡ k
          → Holds (key_path config) key w'.files
      by_parse der r (ok (some k)) p = record {
        der = der;
        reads = ground (arith, h, r, p);
        parses = ground (arith, h, r, p);
      }
      by_parse der r (ok none) p = absurd (ground (arith, h, r, p))
      by_parse der r (err e) p = absurd (ground (arith, h, r, p))

      by_file :
          (file : Result Text)
          → P.read_file (key_path config) w.files ≡ file
          → Holds (key_path config) key w'.files
      by_file (ok der) r = by_parse der r _ refl
      by_file (err e) r = create_key-Holds (key_path config) key w w' (ground (arith, h, r))

  -- The server's key survives a restart: whichever key `ReadOrCreateKey` returns, the one of a file or a
  -- new one, it returns the same key as long as the files stay as they are, and then changes nothing.
  -- This rests on the documented behaviour of files and of the key library.
  pub read_or_create_key_again :
      (config : Config) (key : P.PrivateKey) (w w' later : World P)
      → read_or_create_key config w ≡ (next key, w')
      → later.files ≡ w'.files
      → read_or_create_key config later ≡ (next key, later)
  unfolding read_or_create_key
  read_or_create_key_again config key w w' later h same =
      let held = read_or_create_key-Holds config key w w' h in
      ground (arith, same, held.reads, held.parses)
