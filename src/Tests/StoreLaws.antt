-- ===== src/Tests/StoreLaws.antt =====
-- The concrete platform with transactions meets the laws that the theorems assume.
use yggdrasil_authentication.Base.{
  ◌≡◌, refl, sym, ap, ◌∙◌, Bool, true, false, Option, none, some, List, [], ◌∷◌, ◌++◌, map, Text,
  text_eq, text_beq_iff, arith,
}
use yggdrasil_authentication.Types.{ok, err, record_not_found, User, Invite}
use yggdrasil_authentication.Util.{contains}
use yggdrasil_authentication.Util.Slices.{IsUnique}
use yggdrasil_authentication.Platform.Transactions.{
  TxLaws, MigratorLaws, InviteLaws, FirstInviteLaws, TableLaws, saved_row, offline_row, uuids,
}
use yggdrasil_authentication.Platform.Pixels.{ImageLaws}
use yggdrasil_authentication.Migration.Success.{NeverFails}
use yggdrasil_authentication.Tests.Store.{
  Store, rows, stripped, replaced, with_offline, created, stored_invite, or_missing, deleted,
  migrated, store_at, store,
}

rows-IsUnique : (o : Option User) → IsUnique (uuids (rows o))
unfolding contains
rows-IsUnique none = tt
rows-IsUnique (some u) = (refl, tt)

rows-replaced : (u : User) (o : Option User) → rows (replaced u o) ≡ map (saved_row u) (rows o)
rows-replaced u none = refl
rows-replaced u (some r) = ground arith

rows_offline :
    (u : User) (offline : Text) (o : Option User)
    → rows (with_offline u offline o) ≡ map (offline_row u offline) (rows o)
rows_offline u offline none = refl
rows_offline u offline (some r) = ground arith

ok_inj : {A : Type 0} {a b : A} → ok a ≡ ok b → a ≡ b
ok_inj {a = a} {b = b} h = ground arith

created_row : (u : User) (o : Option User) (db : Store) → (created u o db).1.row ≡ db.row
created_row u none db = refl
created_row u (some r) db = refl

migrated_row : (reliable : Bool) (db : Store) → (migrated reliable db).1.row ≡ db.row
migrated_row true db = refl
migrated_row false db = refl

migrated_pending : (reliable : Bool) (db : Store) → (migrated reliable db).1.pending ≡ db.pending
migrated_pending true db = refl
migrated_pending false db = refl

created_none :
    (u : User) (o : Option User) (db db' : Store)
    → created u o db ≡ (none, db')
    → (o ≡ none) × (db'.pending ≡ some u)
created_none u none db db' h = (refl, ground (arith, h))
created_none u (some r) db db' h = absurd (ground (arith, h))

pub tx_laws : (reliable : Bool) → TxLaws (store_at reliable)
tx_laws reliable = record {
  begin_reads = λ db. refl;
  begin_isolated = λ db. refl;
  primary_key = λ db users h. rw (sym (ok_inj h)) (rows-IsUnique db.row);
  save_reads = λ tx u users db db' reads listed saved.
      let pending : db'.pending ≡ replaced u db.pending = ground (arith, saved) in
      rw pending (ap ok (rows-replaced u db.pending ∙ ap (map (saved_row u)) (ok_inj reads)));
  save_isolated = λ tx u db. refl;
  create_isolated = λ tx u db. ap (λ o. ok (rows o)) (created_row u db.pending db);
  delete_isolated = λ tx i db. refl;
  increment_reads = λ tx uuid db. refl;
  increment_isolated = λ uuid db. refl;
  commit_publishes = λ tx db db' done.
      let row : db'.row ≡ db.pending = ground (arith, done) in ap (λ o. ok (rows o)) row;
  commit_fails = λ tx e db db' done. absurd (ground (arith, done));
  rollback_isolated = λ tx db. refl;
}

pub migrator_laws : (reliable : Bool) → MigratorLaws (store_at reliable)
migrator_laws reliable = record {
  add_column_reads = λ tx name db. refl;
  auto_migrate_reads = λ tx table db. ap (λ o. ok (rows o)) (migrated_pending reliable db);
  set_version_reads = λ tx v db. refl;
  update_reads = λ tx u offline users db db' reads updated.
      let pending : db'.pending ≡ with_offline u offline db.pending = ground (arith, updated) in
      rw pending (
        ap ok
          (rows_offline u offline db.pending ∙ ap (map (offline_row u offline)) (ok_inj reads)));
  add_column_isolated = λ tx name db. refl;
  auto_migrate_isolated = λ tx table db. ap (λ o. ok (rows o)) (migrated_row reliable db);
  set_version_isolated = λ tx v db. refl;
  update_isolated = λ tx u offline db. refl;
  version_commits = λ tx v db db' db'' set done. ground (arith, set, done);
}

pub never_fails : NeverFails store
never_fails = record {
  add_column = λ tx name db. refl;
  update = λ tx u offline db. refl;
  migrates = λ tx table db. refl;
  set_version = λ tx v db. refl;
  commits = λ tx db. refl;
}

pub image_laws : ImageLaws store
image_laws = record {
  bounds_new = λ width height. refl;
  bounds_set = λ x y c img. refl;
  at_set = λ x y c img x' y' wide high. refl;
}

find_deleted :
    (code : Text) (o : Option Invite) → stored_invite code (deleted code o) ≡ err record_not_found
find_deleted code none = refl
find_deleted code (some i) = ground arith

find_key :
    (code : Text) (i : Invite) (o : Option Invite) → stored_invite code o ≡ ok i → i.code ≡ code
find_key code i none h = absurd (ground (arith, h))
find_key code i (some j) h = ground (arith, h, text_beq_iff j.code code)

pub invite_laws : InviteLaws store
invite_laws = record {
  create_reads = λ tx u users db db' reads done.
      let (empty, full) = created_none u db.pending db db' done in
      ([], [], sym (ok_inj reads) ∙ ap rows empty, ap (λ o. ok (rows o)) full);
  delete_reads = λ tx i db. refl;
  first_invite_key = λ code i db found. find_key code i db.invite found;
  delete_publishes = λ tx i db db' db'' deletes done.
      let gone : db''.invite ≡ deleted i.code db.pending_invite = ground (arith, deletes, done) in
      rw gone (find_deleted i.code db.pending_invite);
  rollback_done = λ tx db db' done. ground (arith, done);
}

found_again : (i : Invite) (o : Option Invite) → or_missing o ≡ ok i → stored_invite i.code o ≡ ok i
found_again i none h = absurd (ground (arith, h))
found_again i (some j) h = ground (arith, h, text_beq_iff i.code i.code, text_beq_iff j.code i.code)

pub first_invite_laws : FirstInviteLaws store
first_invite_laws = record {
  any_invite_found = λ i db found. found_again i db.invite found;
  create_invite_found = λ i db db' created.
      let kept : db'.invite ≡ some i = ground (arith, created) in
      rw kept (ground (arith, text_beq_iff i.code i.code));
}

found_row :
    (before after : List User) (u : User) (o : Option User)
    → rows o ≡ before ++ u ∷ after
    → stripped o ≡ some u
found_row [] after u none h = absurd (ground (arith, h))
found_row (b ∷ before) after u none h = absurd (ground (arith, h))
found_row [] after u (some r) h = ground (arith, h)
found_row (b ∷ []) after u (some r) h = absurd (ground (arith, h))
found_row (b ∷ c ∷ before) after u (some r) h = absurd (ground (arith, h))

pub table_laws : TableLaws store
table_laws = record {
  first_by_username = λ before after u db listed.
      rw (found_row before after u db.row (ok_inj listed))
        (ground (arith, text_beq_iff u.username u.username));
}
