-- ===== src/Tests/MemoryLaws.antt =====
-- The concrete platform meets the laws that the theorems assume.
use yggdrasil_authentication.Base.{
  ◌+◌, ◌≡◌, refl, sym, ap, ◌∙◌, true, Option, none, some, List, [], ◌∷◌, ◌++◌, text_eq,
  text_beq_iff, Text, arith, Bool-cases, inl, inr, ◌==◌, take-append, drop-append,
}
use yggdrasil_authentication.Base.Int.{ℤ, pos, negsuc, ◌<ℤ◌}
use yggdrasil_authentication.Types.{Time, Error, ok, Client, User, TokenClaims}
use yggdrasil_authentication.Platform.Laws.{JwtLaws, ClientLaws, CacheLaws, UserLaws, NameLaws}
use yggdrasil_authentication.Tests.Memory.{
  Db, find_client, save_client_to, save_user, last, increment, encode, decode, decode_ℤ, sign_of,
  size_of, flag_of, time_of, decode_stale, check_expiry, platform,
}

decode_sign : (t : ℤ) → decode_ℤ (sign_of t) (size_of t) ≡ t
decode_sign (pos n) = refl
decode_sign (negsuc n) = refl

decode_flag :
    (t : Option Time) → decode_stale (flag_of t) (sign_of (time_of t)) (size_of (time_of t)) ≡ t
decode_flag none = refl
decode_flag (some t) = ap some (decode_sign t)

decode-encode : (c : TokenClaims) → decode (encode c) ≡ some c
decode-encode c = rw (
  decode_sign c.issued_at,
  decode_sign c.expires_at,
  decode_flag c.stale_at,
  take-append c.issuer c.subject,
  drop-append c.issuer c.subject,
)

check_expiry_sound :
    (at : Time) (o : Option TokenClaims) (c : TokenClaims)
    → check_expiry at o ≡ ok (record { valid = true; claims = some c })
    → (o ≡ some c) × (at <ℤ c.expires_at)
check_expiry_sound at none c h = ground arith
check_expiry_sound at (some d) c h = (ground arith, ground arith)

check_expiry_early :
    (at : Time) (c : TokenClaims)
    → at <ℤ c.expires_at
    → check_expiry at (some c) ≡ ok (record { valid = true; claims = some c })
check_expiry_early at c h = ground arith

some_inj : {a b : TokenClaims} → some a ≡ some b → a ≡ b
some_inj {a} {b} h = ground arith

pub jwt_laws : JwtLaws platform
jwt_laws = record {
  numeric_date_le = λ t. omega arith;
  numeric_date_idem = λ t. refl;
  parse_signed = λ c k t at signed dates utf8 early.
      let same : t ≡ encode c = ground (arith, signed) in
      ap (λ s. check_expiry at (decode s)) same
      ∙ ap (check_expiry at) (decode-encode c)
      ∙ check_expiry_early at c early;
  parse_faithful = λ c c' k t at signed dates utf8 parsed.
      let same : t ≡ encode c = ground (arith, signed) in
      let found : decode t ≡ some c' = (check_expiry_sound at (decode t) c' parsed).0 in
      some_inj (sym found ∙ ap decode same ∙ decode-encode c);
  parse_stable = λ c c' k t at at' parsed parsed'. some_inj (
      sym (check_expiry_sound at (decode t) c parsed).0
      ∙ (check_expiry_sound at' (decode t) c' parsed').0);
  parse_expires = λ c k t at h. (check_expiry_sound at (decode t) c h).1;
}

last-append : (cs : List Client) (c : Client) → last (cs ++ c ∷ []) ≡ some c
last-append [] c = refl
last-append (d ∷ []) c = refl
last-append (d ∷ e ∷ cs) c = last-append (e ∷ cs) c

find_client_found :
    (t : Text) (row : Option Client) (owner : Option User) (c : Client) (u : User)
    → find_client t row owner ≡ ok (c, u)
    → (row ≡ some c) × (owner ≡ some u) × (c.client_token ≡ t) × (c.user_uuid ≡ u.uuid)
find_client_found t none owner c u h = ground arith
find_client_found t (some d) none c u h = ground arith
find_client_found t (some d) (some v) c u h =
    ground (arith, text_beq_iff d.client_token t, text_beq_iff d.user_uuid v.uuid)

find_client_here :
    (t : Text) (row : Option Client) (owner : Option User) (c : Client) (u : User)
    → row ≡ some c
    → owner ≡ some u
    → c.client_token ≡ t
    → c.user_uuid ≡ u.uuid
    → find_client t row owner ≡ ok (c, u)
find_client_here t row owner c u r o k f =
    rw (r, o) (ground (arith, text_beq_iff c.client_token t, text_beq_iff c.user_uuid u.uuid))

save_client_here :
    (new old : Client) (row : Option Client) (db db' : Db)
    → row ≡ some old
    → save_client_to new row db ≡ (none, db')
    → (db'.client ≡ some new) × (db'.user ≡ db.user)
save_client_here new old none db db' r h = ground arith
save_client_here new old (some c) db db' r h = (ground arith, ground arith)

increment_here :
    (row : Option Client) (c : Client) (uuid : Text)
    → row ≡ some c
    → c.user_uuid ≡ uuid
    → increment uuid row ≡ some (record c { version = c.version + 1 })
increment_here none c uuid r same = ground arith
increment_here (some d) c uuid r same = ground (arith, text_beq_iff c.user_uuid uuid)

save_user_here :
    (user : User) (c : Client) (row : Option Client) (added : Option Client) (db db' : Db)
    → db.client ≡ row
    → last user.clients ≡ added
    → added ≡ some c
    → save_user user db ≡ (none, db')
    → (db'.client ≡ some (record c { user_uuid = user.uuid }))
      × (db'.user ≡ some (record user { clients = [] }))
save_user_here user c row none db db' r l a h = ground arith
save_user_here user c none (some d) db db' r l a h = ground (arith, r, l)
save_user_here user c (some e) (some d) db db' r l a h = ground (arith, r, l)

pub client_laws : ClientLaws platform
client_laws = record {
  first_client_key = λ t db c u found.
      let (row, owner, key, uuid) = find_client_found t db.client db.user c u found in (key, uuid);
  save_client_stores = λ old new u db db' found same saved.
      let (row, owner, key, uuid) = find_client_found _ db.client db.user old u found in
      let (row', owner') = save_client_here new old db.client db db' row saved in
      find_client_here _ db'.client db'.user new u row' (owner' ∙ owner) refl (same ∙ uuid);
  increment_versions_bumps = λ t c u db db' found small saved.
      let (row, owner, key, uuid) = find_client_found t db.client db.user c u found in
      let row' : db'.client ≡ some (record c { version = c.version + 1 }) =
        ap (λ (p : Option Error × Db). p.1.client) (sym saved)
        ∙ increment_here db.client c u.uuid row uuid in
      let owner' : db'.user ≡ some u =
        ap (λ (p : Option Error × Db). p.1.user) (sym saved) ∙ owner in
      find_client_here t db'.client db'.user (record c { version = c.version + 1 }) u row' owner'
        key uuid;
  save_user_adds_client = λ user others c db db' shape absent unused saved.
      let (row, owner) =
        save_user_here user c db.client (last user.clients) db db' refl refl
          (ap last shape ∙ last-append others c) saved in
      (
        record user { clients = [] },
        find_client_here _ db'.client db'.user (record c { user_uuid = user.uuid })
            (record user { clients = [] }) row owner refl refl,
      );
}

pub cache_laws : CacheLaws platform
cache_laws = record {
  cache_get-set = λ m m' url key response found ttl cache hit. elim (Bool-cases (url == key)) [
    | inl same ↦ inl ((text_beq_iff url key).0 same, ground (arith, same, hit))
    | inr other ↦ inr (m, ground (arith, other, hit))
  ];
}

saved_user :
    (user : User) (row added : Option Client) (db db' : Db)
    → db.client ≡ row
    → last user.clients ≡ added
    → save_user user db ≡ (none, db')
    → db'.user ≡ some (record user { clients = [] })
saved_user user none none db db' r l h = ground (arith, r, l)
saved_user user none (some d) db db' r l h = ground (arith, r, l)
saved_user user (some e) none db db' r l h = ground (arith, r, l)
saved_user user (some e) (some d) db db' r l h = ground (arith, r, l)

pub user_laws : UserLaws platform
user_laws = record {
  save_user_finds_name = λ t c old new db db' found same saved.
      rw (saved_user new _ _ db db' refl refl saved)
        (ground (arith, text_beq_iff new.player_name new.player_name));
  save_user_finds_token = λ username token old db db' found unused saved.
      let new : User = record old { browser_token = record { string = token; valid = true } } in
      rw (saved_user new db.client (last new.clients) db db' refl refl saved)
        (ground (arith, text_beq_iff token token));
}

pub name_laws : NameLaws platform
name_laws = record {
  save_user_renames = λ t name c old at db db' found saved.
      let new : User = record old { player_name = name; name_last_changed_at = at } in
      rw (saved_user new db.client (last new.clients) db db' refl refl saved)
        (ground (arith, text_beq_iff name name));
}
