-- ===== src/Services/Names.antt =====
-- About `ServicesChangeName` of services.go.
use yggdrasil_authentication.Base.{
  ◌≡◌, ◌≢◌, refl, ◌⊎◌, inl, inr, Bool-cases, true, Option, none, some, ◌==◌, text_eq, text_beq_iff,
  Text, arith,
}
use yggdrasil_authentication.Types.{
  Result, ok, err, Error, stale_policy_allow, User, Client, Time, Response, ServicesProfile,
  services_profile, json, player_name_to_uuid,
}
use yggdrasil_authentication.Platform.{Platform, by_player_name}
use yggdrasil_authentication.Platform.Laws.{NameLaws}
use yggdrasil_authentication.Action.{App, World, Exit, next, reply, fail, panic}
use yggdrasil_authentication.Model.Ids.{uuid_to_id}
use yggdrasil_authentication.Model.Tokens.Lookup.{Accepts}
use yggdrasil_authentication.Model.Names.{validate_player_name}
use yggdrasil_authentication.Account.{uuid_of_user, account_player_name_to_id}
use yggdrasil_authentication.Services.{bearer_token, rename, change_name, services_change_name}
use yggdrasil_authentication.Services.Bearer.{with_bearer_authentication-Admits}
use yggdrasil_authentication.Services.Keeps.{get_services_profile-Keeps}

module _ ⦃P : Platform⦄ (app : App P) where
  -- The answer is no user's profile.
  abbrev pub AnswersNoProfile : Exit ⊥ × World P → Type 0
  AnswersNoProfile run =
      (profile : ServicesProfile) → run.0 ≢ reply (json 200 (services_profile profile))

  -- A row that has the player name, and is the user's but for it and the instant of the change.
  pub record IsRenamed (name : Text) (user changed : User) : Type 0 where
    pub named : changed.player_name ≡ name
    pub since : Time
    pub rest : changed ≡ record user { player_name = name; name_last_changed_at = since }
    pub permitted : (user.player_name ≡ name) ⊎ (app.config.allow_changing_player_name ≡ true)

  rename-IsRenamed :
      (path name : Text) (user changed : User) (w w' : World P)
      → rename app path name user w ≡ (next changed, w')
      → IsRenamed name user changed × (w'.db ≡ w.db)
  unfolding rename
  rename-IsRenamed path name user changed w w' h = elim (Bool-cases (user.player_name == name)) [
    | inl same ↦ (
      record {
        named = ground (arith, h, same, text_beq_iff user.player_name name);
        since = user.name_last_changed_at;
        rest = ground (arith, h, same, text_beq_iff user.player_name name);
        permitted = inl ((text_beq_iff user.player_name name).0 same);
      },
      ground (arith, h, same),
    )
    | inr other ↦ (
      record {
        named = ground (arith, h, other);
        since = P.clock w.moment;
        rest = ground (arith, h, other);
        permitted = inr (ground (arith, h, other));
      },
      ground (arith, h, other),
    )
  ]

  rename_keeps :
      (path name : Text) (user : User) (w : World P) → (rename app path name user w).1.db ≡ w.db
  unfolding rename
  rename_keeps path name user w = ground arith

  rename_no_profile :
      (path name : Text) (user : User) (w w1 : World P) (x : Response)
      → rename app path name user w ≡ (reply x, w1)
      → (profile : ServicesProfile) → x ≢ json 200 (services_profile profile)
  unfolding rename
  rename_no_profile path name user w w1 x r profile h = ground (arith, r, h)

  module _ (path name : Text) (user : User) (w : World P) where
    abbrev changed_run : Exit ⊥ × World P
    changed_run = change_name app path name user w

    -- One row was written, or tried to be.
    pub record Writes : Type 0 where
      pub valid : validate_player_name app name ≡ none
      pub changed : User
      pub renamed : IsRenamed name user changed
      pub saved : Option Error
      pub saves : P.save_user changed w.db ≡ (saved, changed_run.1.db)
      pub answers : (saved ≡ none) ⊎ AnswersNoProfile changed_run

    abbrev Kept : Type 0
    Kept = (changed_run.1.db ≡ w.db) × AnswersNoProfile changed_run

    change_name_saves :
        (changed : User) (w1 : World P)
        → validate_player_name app name ≡ none
        → rename app path name user w ≡ (next changed, w1)
        → (saved : Option Error) (db : P.Db) → P.save_user changed w1.db ≡ (saved, db)
        → Writes
    unfolding change_name
    change_name_saves changed w1 valid r (some e) db s =
        let (renamed, same_db) = rename-IsRenamed path name user changed w w1 r in
        record {
          valid = valid;
          changed = changed;
          renamed = renamed;
          saved = some e;
          saves = ground (arith, valid, r, s, same_db);
          answers = inr (λ profile h. ground (arith, valid, r, s, h));
        }
    change_name_saves changed w1 valid r none db s =
        let (renamed, same_db) = rename-IsRenamed path name user changed w w1 r in
        record {
          valid = valid;
          changed = changed;
          renamed = renamed;
          saved = none;
          saves = ground (
            arith,
            valid,
            r,
            s,
            same_db,
            get_services_profile-Keeps app changed (record w1 { db = db }),
          );
          answers = inl refl;
        }

    change_name_writes : Kept ⊎ Writes
    unfolding change_name
    change_name_writes = by_validity _ refl
      where
        by_renamed :
            (e : Exit User) (w1 : World P)
            → validate_player_name app name ≡ none
            → rename app path name user w ≡ (e, w1)
            → w1.db ≡ w.db
            → Kept ⊎ Writes
        by_renamed (next changed) w1 valid r kept =
            inr (change_name_saves changed w1 valid r _ _ refl)
        by_renamed (reply x) w1 valid r kept = inl (
          ground (arith, valid, r, kept),
          λ profile h.
              rename_no_profile path name user w w1 x r profile (ground (arith, valid, r, h)),
        )
        by_renamed (fail e) w1 valid r kept =
            inl (ground (arith, valid, r, kept), λ profile h. ground (arith, valid, r, h))
        by_renamed panic w1 valid r kept =
            inl (ground (arith, valid, r, kept), λ profile h. ground (arith, valid, r, h))

        by_validity : (e : Option Error) → validate_player_name app name ≡ e → Kept ⊎ Writes
        by_validity (some e) v = inl (ground (arith, v), λ profile h. ground (arith, v, h))
        by_validity none v = by_renamed _ _ v refl (rename_keeps path name user w)

  -- The row that the handler wrote, or tried to.
  pub record HasRenamed (header name : Text) (w : World P) (run : Exit ⊥ × World P) : Type 0 where
    pub token : Text
    pub client : Client
    pub user : User
    pub bears : bearer_token header ≡ some token
    pub accepted : Accepts app token stale_policy_allow w client user
    pub valid : validate_player_name app name ≡ none
    pub changed : User
    pub renamed : IsRenamed name user changed
    pub saved : Option Error
    pub saves : P.save_user changed w.db ≡ (saved, run.1.db)
    pub answers : (saved ≡ none) ⊎ AnswersNoProfile run

  -- However `ServicesChangeName` ends, the database is left alone and no profile is answered, or the row
  -- of the user of an accepted token was saved, with a valid player name, which is the one asked for,
  -- with another instant of the last change, and otherwise as it was; and the name is the old one unless
  -- the configuration allows changing it. In this case the row was saved without an error, or no profile
  -- is answered.
  pub services_change_name_writes :
      (path header name : Text) (w : World P)
      → (((services_change_name app path header name w).1.db ≡ w.db)
          × AnswersNoProfile (services_change_name app path header name w))
        ⊎ HasRenamed header name w (services_change_name app path header name w)
  unfolding services_change_name
  services_change_name_writes path header name w =
      elim (with_bearer_authentication-Admits app path header (change_name app path name) w) [
        | inl (denied, kept) ↦ inl (kept, λ profile h. ground (arith, denied, h))
        | inr a ↦ elim (change_name_writes path name a.user a.before) [
          | inl (kept, silent) ↦ inl (
            ground (arith, kept, a.runs, a.same_db),
            λ profile h. silent profile (ground (arith, a.runs, h)),
          )
          | inr writes ↦ inr (record {
            token = a.access_token;
            client = a.client;
            user = a.user;
            bears = a.token;
            accepted = a.accepted;
            valid = writes.valid;
            changed = writes.changed;
            renamed = writes.renamed;
            saved = writes.saved;
            saves = ground (arith, writes.saves, a.runs, a.same_db);
            answers = rw a.runs writes.answers;
          })
        ]
      ]

  -- What the account server answers about a row with a name.
  abbrev pub name_answer : Text → User → World P → Exit ⊥ × World P
  name_answer name user w = elim (uuid_to_id user.uuid) [
    | err e ↦ (fail e, w)
    | ok id ↦ (reply (json 200 (player_name_to_uuid (record { name = name; id = id }))), w)
  ]

  name_found :
      (path name : Text) (row user : User) (w : World P)
      → P.first_user (by_player_name name) w.db ≡ ok row
      → row.player_name ≡ name
      → row.uuid ≡ user.uuid
      → (id : Result Text) → uuid_to_id user.uuid ≡ id
      → account_player_name_to_id app path name w ≡ name_answer name user w
  unfolding account_player_name_to_id uuid_of_user
  name_found path name row user w found named same (ok id) i = ground (arith, found, named, same, i)
  name_found path name row user w found named same (err e) i = ground (arith, found, named, same, i)

  -- After `ServicesChangeName` has answered a profile, the account server answers the name that was
  -- asked for with the id of the UUID of the user whose token the header bears, as long as the database
  -- is as it was left. This rests on the documented behaviour of GORM.
  pub services_change_name-account_player_name_to_id :
      (laws : NameLaws P) (path path' header name : Text) (w later : World P)
      (profile : ServicesProfile)
      → (services_change_name app path header name w).0
        ≡ reply (json 200 (services_profile profile))
      → later.db ≡ (services_change_name app path header name w).1.db
      → (renamed : HasRenamed header name w (services_change_name app path header name w))
        × (account_player_name_to_id app path' name later ≡ name_answer name renamed.user later)
  services_change_name-account_player_name_to_id laws path path' header name w later profile
        answered same_db =
      elim (services_change_name_writes path header name w) [
        | inl (kept, silent) ↦ absurd (silent profile answered)
        | inr r ↦ (r, by_saved r r.answers)
      ]
    where
      by_saved :
          (r : HasRenamed header name w (services_change_name app path header name w))
          → (r.saved ≡ none) ⊎ AnswersNoProfile (services_change_name app path header name w)
          → account_player_name_to_id app path' name later ≡ name_answer name r.user later
      by_saved r (inr silent) = absurd (silent profile answered)
      by_saved r (inl done) =
          let saved : P.save_user
                (record r.user { player_name = name; name_last_changed_at = r.renamed.since }) w.db
              ≡ (none, later.db) =
            ground (arith, r.saves, done, r.renamed.rest, same_db) in
          let found =
            laws.save_user_renames r.accepted.claims.subject name r.client r.user r.renamed.since
              w.db later.db r.accepted.found saved in
          name_found path' name _ r.user later found refl refl _ refl
