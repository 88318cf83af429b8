-- ===== src/Platform/Transactions.antt =====
-- Documented behaviour of GORM's transactions on the table of users, as named hypotheses. A write in
-- a transaction is seen in it and by nobody else, until the transaction is committed; one that is
-- rolled back leaves no trace.
use yggdrasil_authentication.Base.{
  ℕ, true, ◌≡◌, none, some, List, [], ◌∷◌, ◌++◌, map, Text, text_eq, ◌==◌, if◌then◌else◌,
}
use yggdrasil_authentication.Types.{Error, ok, err, record_not_found, User, Invite}
use yggdrasil_authentication.Util.{contains}
use yggdrasil_authentication.Util.Slices.{IsUnique}
use yggdrasil_authentication.Platform.{Platform, Table, by_username}

-- The row of a user after another user was saved, and after the offline UUID of another was set: the
-- primary key tells whether it is the same row. The association is not a column.
abbrev pub saved_row : User → User → User
saved_row u r = if r.uuid == u.uuid then record u { clients = r.clients } else r

abbrev pub offline_row : User → Text → User → User
offline_row u offline r = if r.uuid == u.uuid then record r { offline_uuid = offline } else r

abbrev pub uuids : List User → List Text
uuids = map (λ (u : User). u.uuid)

pub record TxLaws (P : Platform) : Type 0 where
  pub begin_reads : (db : P.Db) → P.tx_find_users (P.begin db).0 (P.begin db).1 ≡ P.find_users db
  pub begin_isolated : (db : P.Db) → P.find_users (P.begin db).1 ≡ P.find_users db
  pub primary_key :
      (db : P.Db) (users : List User) → P.find_users db ≡ ok users → IsUnique (uuids users)
  pub save_reads :
      (tx : P.Tx) (u : User) (users : List User) (db db' : P.Db)
      → P.tx_find_users tx db ≡ ok users
      → contains (uuids users) u.uuid ≡ true
      → P.tx_save_user tx u db ≡ (none, db')
      → P.tx_find_users tx db' ≡ ok (map (saved_row u) users)
  pub save_isolated :
      (tx : P.Tx) (u : User) (db : P.Db) → P.find_users (P.tx_save_user tx u db).1 ≡ P.find_users db
  pub create_isolated :
      (tx : P.Tx) (u : User) (db : P.Db)
      → P.find_users (P.tx_create_user tx u db).1 ≡ P.find_users db
  pub delete_isolated :
      (tx : P.Tx) (i : Invite) (db : P.Db)
      → P.find_users (P.tx_delete_invite tx i db).1 ≡ P.find_users db
  pub increment_reads :
      (tx : P.Tx) (uuid : Text) (db : P.Db)
      → P.tx_find_users tx (P.increment_versions uuid db).1 ≡ P.tx_find_users tx db
  pub increment_isolated :
      (uuid : Text) (db : P.Db) → P.find_users (P.increment_versions uuid db).1 ≡ P.find_users db
  pub commit_publishes :
      (tx : P.Tx) (db db' : P.Db)
      → P.commit tx db ≡ (none, db')
      → P.find_users db' ≡ P.tx_find_users tx db
  pub commit_fails :
      (tx : P.Tx) (e : Error) (db db' : P.Db)
      → P.commit tx db ≡ (some e, db')
      → P.find_users db' ≡ P.find_users db
  pub rollback_isolated :
      (tx : P.Tx) (db : P.Db) → P.find_users (P.rollback tx db) ≡ P.find_users db

-- The same for what the migration calls: only the update of the offline UUID changes rows as `Find`
-- reads them, where a column that the table has not yet reads as the empty text; and the version that
-- is set last in a transaction is the one that is committed.
pub record MigratorLaws (P : Platform) : Type 0 where
  pub add_column_reads :
      (tx : P.Tx) (name : Text) (db : P.Db)
      → P.tx_find_users tx (P.tx_add_user_column tx name db).1 ≡ P.tx_find_users tx db
  pub auto_migrate_reads :
      (tx : P.Tx) (table : Table) (db : P.Db)
      → P.tx_find_users tx (P.tx_auto_migrate tx table db).1 ≡ P.tx_find_users tx db
  pub set_version_reads :
      (tx : P.Tx) (v : ℕ) (db : P.Db)
      → P.tx_find_users tx (P.tx_set_user_version tx v db).1 ≡ P.tx_find_users tx db
  pub update_reads :
      (tx : P.Tx) (u : User) (offline : Text) (users : List User) (db db' : P.Db)
      → P.tx_find_users tx db ≡ ok users
      → P.tx_update_offline_uuid tx u offline db ≡ (none, db')
      → P.tx_find_users tx db' ≡ ok (map (offline_row u offline) users)
  pub add_column_isolated :
      (tx : P.Tx) (name : Text) (db : P.Db)
      → P.find_users (P.tx_add_user_column tx name db).1 ≡ P.find_users db
  pub auto_migrate_isolated :
      (tx : P.Tx) (table : Table) (db : P.Db)
      → P.find_users (P.tx_auto_migrate tx table db).1 ≡ P.find_users db
  pub set_version_isolated :
      (tx : P.Tx) (v : ℕ) (db : P.Db)
      → P.find_users (P.tx_set_user_version tx v db).1 ≡ P.find_users db
  pub update_isolated :
      (tx : P.Tx) (u : User) (offline : Text) (db : P.Db)
      → P.find_users (P.tx_update_offline_uuid tx u offline db).1 ≡ P.find_users db
  pub version_commits :
      (tx : P.Tx) (v : ℕ) (db db' db'' : P.Db)
      → P.tx_set_user_version tx v db ≡ (none, db')
      → P.commit tx db' ≡ (none, db'')
      → P.user_version db'' ≡ ok v

-- The same for what a registration writes: a row is created once, among the others; an invite that was
-- deleted is not found any more; and there is nothing to roll back after a commit.
pub record InviteLaws (P : Platform) : Type 0 where
  pub create_reads :
      (tx : P.Tx) (u : User) (users : List User) (db db' : P.Db)
      → P.tx_find_users tx db ≡ ok users
      → P.tx_create_user tx u db ≡ (none, db')
      → (before : List User) × (after : List User) × (users ≡ before ++ after)
        × (P.tx_find_users tx db' ≡ ok (before ++ record u { clients = [] } ∷ after))
  pub delete_reads :
      (tx : P.Tx) (i : Invite) (db : P.Db)
      → P.tx_find_users tx (P.tx_delete_invite tx i db).1 ≡ P.tx_find_users tx db
  pub first_invite_key :
      (code : Text) (i : Invite) (db : P.Db) → P.first_invite code db ≡ ok i → i.code ≡ code
  pub delete_publishes :
      (tx : P.Tx) (i : Invite) (db db' db'' : P.Db)
      → P.tx_delete_invite tx i db ≡ (none, db')
      → P.commit tx db' ≡ (none, db'')
      → P.first_invite i.code db'' ≡ err record_not_found
  pub rollback_done :
      (tx : P.Tx) (db db' : P.Db) → P.commit tx db ≡ (none, db') → P.rollback tx db' ≡ db'

-- GORM, for invites outside of a transaction, where the code is the primary key: the first invite of all
-- and one that was created are found under their codes.
pub record FirstInviteLaws (P : Platform) : Type 0 where
  pub any_invite_found :
      (i : Invite) (db : P.Db) → P.any_invite db ≡ ok i → P.first_invite i.code db ≡ ok i
  pub create_invite_found :
      (i : Invite) (db db' : P.Db)
      → P.create_invite i db ≡ (none, db')
      → P.first_invite i.code db' ≡ ok i

-- GORM, for a row of the users' table, in which usernames are unique: it is the one that is found by its
-- username.
pub record TableLaws (P : Platform) : Type 0 where
  pub first_by_username :
      (before after : List User) (u : User) (db : P.Db)
      → P.find_users db ≡ ok (before ++ u ∷ after)
      → P.first_user (by_username u.username) db ≡ ok u
