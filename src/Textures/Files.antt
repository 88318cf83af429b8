-- ===== src/Textures/Files.antt =====
-- About `SetSkinAndSave` of common.go.
use yggdrasil_authentication.Base.{
  ℕ, zero, suc, ◌≡◌, ◌≤◌, refl, Bool, true, false, ◌&&◌, Option, none, some, List, [], ◌∷◌, nat_eq,
  nat_beq_iff, sym, Text, length, take, leb, arith, Bool-cases, inl, inr,
}
use yggdrasil_authentication.Base.Int.{pos, ltb_ℤ}
use yggdrasil_authentication.Types.{Result, ok, err, Error, User}
use yggdrasil_authentication.Platform.{Platform, Reader, Stat, exists, not_exist, stat_failed}
use yggdrasil_authentication.Action.{App, World, Exit, next, reply, fail, panic}
use yggdrasil_authentication.Action.Runs.{KeepsDb}
use yggdrasil_authentication.Random.{hex_encode}
use yggdrasil_authentication.Model.Ids.{make_null_string, unmake_null_string}
use yggdrasil_authentication.Textures.{
  validate_skin, check_width, read_limited, read_texture, texture_limit, load_texture,
  store_texture, write_texture, create_texture, delete_if_unused, delete_skin_if_unused,
  set_skin_and_save, get_skin_path, hash_column,
}

length-take : {A : Type 0} (n : ℕ) (xs : List A) → length (take n xs) ≤ n
length-take zero xs = omega arith
length-take (suc n) [] = omega arith
length-take (suc n) (x ∷ xs) = omega (arith, length-take n xs)

leb-false : (a b : ℕ) → leb a b ≡ false → b ≤ a
leb-false a b h = ground arith

module _ ⦃P : Platform⦄ (app : App P) where
  -- An image that is accepted as a skin, and the bytes of it that are stored.
  pub record IsAccepted (reader : Reader) (buf : Text) : Type 0 where
    pub width : ℕ
    pub square : P.png_decode_config reader ≡ ok (width, width)
    pub fits :
        ltb_ℤ (pos 0) app.config.skin_size_limit && ltb_ℤ app.config.skin_size_limit (pos width)
        ≡ false
    pub read : read_limited app reader ≡ ok buf
    pub limited : length buf ≤ texture_limit

  skin_size :
      (reader : Reader)
      → validate_skin app reader ≡ none
      → (size : Result (ℕ × ℕ)) → P.png_decode_config reader ≡ size
      → (width : ℕ) × (size ≡ ok (width, width))
        × (ltb_ℤ (pos 0) app.config.skin_size_limit && ltb_ℤ app.config.skin_size_limit (pos width)
            ≡ false)
  unfolding validate_skin check_width
  skin_size reader v (err e) d = ground (arith, v, d)
  skin_size reader v (ok (width, height)) d =
      (width, ground (arith, v, d, nat_beq_iff width height), ground (arith, v, d))

  length-read_limited :
      (reader : Reader) (buf : Text) → read_limited app reader ≡ ok buf → length buf ≤ texture_limit
  unfolding read_limited
  length-read_limited reader buf h = elim (Bool-cases (leb texture_limit (length reader.bytes))) [
    | inl long ↦
        let cut : buf ≡ take texture_limit reader.bytes = ground (arith, long, h) in
        rw cut (length-take texture_limit reader.bytes)
    | inr short ↦ by_error short _ refl
  ]
    where
      by_error :
          leb texture_limit (length reader.bytes) ≡ false
          → (broken : Option Error) → reader.broken ≡ broken
          → length buf ≤ texture_limit
      by_error short none b =
          let same : buf ≡ reader.bytes = ground (arith, short, h, b) in
          rw same (leb-false texture_limit (length reader.bytes) short)
      by_error short (some e) b = ground (arith, short, h, b)

  load_steps :
      (reader : Reader) (w w1 : World P) (loaded : Option (Text × Text))
      → load_texture app (validate_skin app) (some reader) w ≡ (next loaded, w1)
      → (valid : Option Error) → validate_skin app reader ≡ valid
      → (buf : Result Text) → read_limited app reader ≡ buf
      → (w1 ≡ w)
        × ((bytes : Text) × (loaded ≡ some (bytes, hex_encode (P.blake3_sum256 bytes)))
            × IsAccepted reader bytes)
  unfolding load_texture read_texture
  load_steps reader w w1 loaded h (some e) v buf r = ground (arith, h, v)
  load_steps reader w w1 loaded h none v (err e) r = ground (arith, h, v, r)
  load_steps reader w w1 loaded h none v (ok buf) r =
      let (width, square, fits) = skin_size reader v _ refl in
      (
        ground (arith, h, v, r),
        (
          buf,
          ground (arith, h, v, r),
          record {
            width = width;
            square = square;
            fits = fits;
            read = r;
            limited = length-read_limited reader buf r;
          },
        ),
      )

  create-KeepsDb : (path buf : Text) → KeepsDb (create_texture app path buf)
  unfolding create_texture
  create-KeepsDb path buf w = by_steps _ refl _ refl _ refl
    where
      by_steps :
          (made : Option Error × P.Files)
          → P.mkdir_all (P.path_dir path) w.files ≡ made
          → (created : Option Error × P.Files) → P.create path made.1 ≡ created
          → (written : Option Error × P.Files) → P.write_to path buf created.1 ≡ written
          → (create_texture app path buf w).1.db ≡ w.db
      by_steps (some e, f) m created c written x = ground (arith, m)
      by_steps (none, f) m (some e, g) c written x = ground (arith, m, c)
      by_steps (none, f) m (none, g) c (some e, i) x = ground (arith, m, c, x)
      by_steps (none, f) m (none, g) c (none, i) x = ground (arith, m, c, x)

  store-KeepsDb :
      (get_path : Text → Text) (loaded : Option (Text × Text))
      → KeepsDb (store_texture app get_path loaded)
  unfolding store_texture write_texture
  store-KeepsDb get_path none w = refl
  store-KeepsDb get_path (some (buf, hash)) w = by_stat _ refl
    where
      by_stat :
          (stat : Stat)
          → P.stat (get_path hash) w.files ≡ stat
          → (write_texture app (get_path hash) buf w).1.db ≡ w.db
      by_stat exists s = ground (arith, s)
      by_stat (stat_failed e) s = ground (arith, s)
      by_stat not_exist s = ground (arith, s, create-KeepsDb (get_path hash) buf w)

  delete-KeepsDb :
      (in_use : Text → P.Db → Result Bool) (get_path : Text → Text) (hash : Option Text)
      → KeepsDb (delete_if_unused app in_use get_path hash)
  unfolding delete_if_unused
  delete-KeepsDb in_use get_path none w = refl
  delete-KeepsDb in_use get_path (some hash) w = by_use _ refl _ refl
    where
      by_use :
          (used : Result Bool)
          → in_use hash w.db ≡ used
          → (removed : Option Error × P.Files) → P.remove (get_path hash) w.files ≡ removed
          → (delete_if_unused app in_use get_path (some hash) w).1.db ≡ w.db
      by_use (ok true) u removed r = ground (arith, u)
      by_use (ok false) u (none, files) r = ground (arith, u, r)
      by_use (ok false) u (some e, files) r = ground (arith, u, r)
      by_use (err e) u removed r = ground (arith, u)

  module _ (user user' : User) (reader : Reader) (w w' : World P)
      (h : set_skin_and_save app user (some reader) w ≡ (next user', w')) where
    -- The user that is saved.
    abbrev changed : Option (Text × Text) → User
    changed loaded = record user { skin_hash = hash_column app loaded }

    abbrev WritesRow : Option (Text × Text) → World P → Type 0
    WritesRow loaded w1 =
        (user' ≡ changed loaded) × (P.save_user (changed loaded) w1.db ≡ (none, w'.db))

    module _ (loaded : Option (Text × Text)) (w1 : World P)
        (l : load_texture app (validate_skin app) (some reader) w ≡ (next loaded, w1)) where
      saves_deleted :
          (db : P.Db)
          → P.save_user (changed loaded) w1.db ≡ (none, db)
          → (w2 : World P)
          → store_texture app (get_skin_path app) loaded (record w1 { db = db }) ≡ (next tt, w2)
          → (e : Exit Unit) (w3 : World P)
          → delete_skin_if_unused app (unmake_null_string user.skin_hash) w2 ≡ (e, w3)
          → w2.db ≡ db
          → w3.db ≡ w2.db
          → WritesRow loaded w1
      unfolding set_skin_and_save
      saves_deleted db s w2 st (next tt) w3 d same2 same3 =
          (ground (arith, h, l, s, st, d), ground (arith, h, l, s, st, d, same2, same3))
      saves_deleted db s w2 st (reply r) w3 d same2 same3 = ground (arith, h, l, s, st, d)
      saves_deleted db s w2 st (fail x) w3 d same2 same3 = ground (arith, h, l, s, st, d)
      saves_deleted db s w2 st panic w3 d same2 same3 = ground (arith, h, l, s, st, d)

      saves_stored :
          (db : P.Db)
          → P.save_user (changed loaded) w1.db ≡ (none, db)
          → (e : Exit Unit) (w2 : World P)
          → store_texture app (get_skin_path app) loaded (record w1 { db = db }) ≡ (e, w2)
          → w2.db ≡ db
          → WritesRow loaded w1
      unfolding set_skin_and_save delete_skin_if_unused
      saves_stored db s (next tt) w2 st same = saves_deleted db s w2 st _ _ refl same (
          delete-KeepsDb P.skin_hash_in_use (get_skin_path app) (unmake_null_string user.skin_hash)
            w2)
      saves_stored db s (reply r) w2 st same = ground (arith, h, l, s, st)
      saves_stored db s (fail x) w2 st same = ground (arith, h, l, s, st)
      saves_stored db s panic w2 st same = ground (arith, h, l, s, st)

      saves :
          (saved : Option Error × P.Db)
          → P.save_user (changed loaded) w1.db ≡ saved
          → WritesRow loaded w1
      unfolding set_skin_and_save
      saves (some e, db) s = ground (arith, h, l, s)
      saves (none, db) s =
          saves_stored db s _ _ refl
            (store-KeepsDb (get_skin_path app) loaded (record w1 { db = db }))

    loads :
        (e : Exit (Option (Text × Text))) (w1 : World P)
        → load_texture app (validate_skin app) (some reader) w ≡ (e, w1)
        → (loaded : Option (Text × Text)) × (e ≡ next loaded)
    unfolding set_skin_and_save
    loads (next loaded) w1 l = (loaded, refl)
    loads (reply r) w1 l = ground (arith, h, l)
    loads (fail x) w1 l = ground (arith, h, l)
    loads panic w1 l = ground (arith, h, l)

    -- If `SetSkinAndSave` with an image returns no error, then the image is a square PNG within
    -- SkinSizeLimit, the user's row was saved with the BLAKE3 hash of the bytes that were read, at
    -- most ten million, as its skin hash and otherwise unchanged, and the database is as that left
    -- it.
    pub set_skin_and_save-IsAccepted :
        (buf : Text) × IsAccepted reader buf
        × (user' ≡ record user {
          skin_hash = make_null_string (some (hex_encode (P.blake3_sum256 buf)));
        })
        × (P.save_user user' w.db ≡ (none, w'.db))
    set_skin_and_save-IsAccepted =
        let run = load_texture app (validate_skin app) (some reader) w in
        let (loaded, went) = loads run.0 run.1 refl in
        let l : run ≡ (next loaded, run.1) = rw went refl in
        let (same, (buf, got, accepted)) = load_steps reader w run.1 loaded l _ refl _ refl in
        let (same_user, stored) = saves loaded run.1 l _ refl in
        (buf, accepted, rw got at same_user, rw (same_user, sym same) stored)
