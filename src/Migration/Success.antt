-- ===== src/Migration/Success.antt =====
-- About `migrate` of db.go where the database does not fail.
use yggdrasil_authentication.Base.{ℕ, ◌≡◌, refl, ◌∙◌, true, none, List, [], arith, Text, text}
use yggdrasil_authentication.Types.{ok, User}
use yggdrasil_authentication.Platform.{Platform, Table, users_table, clients_table, invites_table}
use yggdrasil_authentication.Util.Slices.{IsUnique}
use yggdrasil_authentication.Platform.Transactions.{TxLaws, MigratorLaws, uuids}
use yggdrasil_authentication.Action.{Action, World, next}
use yggdrasil_authentication.Transaction.{transaction}
use yggdrasil_authentication.Migration.{
  current_user_version, add_offline_uuids, upgrade, set_user_version, auto_migrate, migration,
  migrate,
}
use yggdrasil_authentication.Migration.Rows.{fill_all, updates}

-- No call of the migration returns an error.
pub record NeverFails (P : Platform) : Type 0 where
  pub add_column :
      (tx : P.Tx) (name : Text) (db : P.Db) → (P.tx_add_user_column tx name db).0 ≡ none
  pub update :
      (tx : P.Tx) (u : User) (o : Text) (db : P.Db) → (P.tx_update_offline_uuid tx u o db).0 ≡ none
  pub migrates : (tx : P.Tx) (table : Table) (db : P.Db) → (P.tx_auto_migrate tx table db).0 ≡ none
  pub set_version : (tx : P.Tx) (v : ℕ) (db : P.Db) → (P.tx_set_user_version tx v db).0 ≡ none
  pub commits : (tx : P.Tx) (db : P.Db) → (P.commit tx db).0 ≡ none

module _ ⦃P : Platform⦄ where
  -- The database after the tables were migrated and the version was set.
  abbrev auto_migrated : P.Tx → P.Db → P.Db
  auto_migrated tx db =
      (P.tx_auto_migrate tx invites_table
        (P.tx_auto_migrate tx clients_table (P.tx_auto_migrate tx users_table db).1).1).1

  module _ (tx_laws : TxLaws P) (laws : MigratorLaws P) (sound : NeverFails P) where
    transaction_commits :
        (f : P.Tx → Action (Unit {0})) (w w1 : World P)
        → f (P.begin w.db).0 (record w { db = (P.begin w.db).1 }) ≡ (next tt, w1)
        → transaction f w ≡ (next tt, record w1 { db = (P.commit (P.begin w.db).0 w1.db).1 })
    transaction_commits f w w1 run = ground (arith, run, sound.commits (P.begin w.db).0 w1.db)

    auto_migrate_runs :
        (tx : P.Tx) (w : World P)
        → auto_migrate tx w ≡ (next tt, record w { db = auto_migrated tx w.db })
    unfolding auto_migrate
    auto_migrate_runs tx w = ground (
      arith,
      sound.migrates tx users_table w.db,
      sound.migrates tx clients_table (P.tx_auto_migrate tx users_table w.db).1,
      sound.migrates tx invites_table
          (P.tx_auto_migrate tx clients_table (P.tx_auto_migrate tx users_table w.db).1).1,
    )

    auto_migrate_reads :
        (tx : P.Tx) (db : P.Db) → P.tx_find_users tx (auto_migrated tx db) ≡ P.tx_find_users tx db
    auto_migrate_reads tx db =
        laws.auto_migrate_reads tx invites_table _
        ∙ laws.auto_migrate_reads tx clients_table _
        ∙ laws.auto_migrate_reads tx users_table db

    set_version_runs :
        (tx : P.Tx) (v : ℕ) (w : World P)
        → set_user_version tx v w ≡ (next tt, record w { db = (P.tx_set_user_version tx v w.db).1 })
    unfolding set_user_version
    set_version_runs tx v w = ground (arith, sound.set_version tx v w.db)

    migration_runs :
        (version upgraded : ℕ) (tx : P.Tx) (w w1 : World P)
        → upgrade tx version w ≡ (next upgraded, w1)
        → migration version tx w ≡ (
          next tt,
          record w1 { db = (P.tx_set_user_version tx upgraded (auto_migrated tx w1.db)).1 },
        )
    unfolding migration
    migration_runs version upgraded tx w w1 run = ground (
      arith,
      run,
      auto_migrate_runs tx w1,
      set_version_runs tx upgraded (record w1 { db = auto_migrated tx w1.db }),
    )

    -- The rows and the version after a migration whose first step was run.
    migrates :
        (version upgraded : ℕ) (w w1 : World P)
        → P.user_version w.db ≡ ok version
        → upgrade (P.begin w.db).0 version (record w { db = (P.begin w.db).1 })
          ≡ (next upgraded, w1)
        → (w' : World P) × (migrate true w ≡ (next tt, w'))
          × (P.find_users w'.db ≡ P.tx_find_users (P.begin w.db).0 w1.db)
          × (P.user_version w'.db ≡ ok upgraded)
    unfolding migrate
    migrates version upgraded w w1 stored run =
        let tx = (P.begin w.db).0 in
        let done = migration_runs version upgraded tx _ w1 run in
        let db = auto_migrated tx w1.db in
        let set = (P.tx_set_user_version tx upgraded db).1 in
        let db' = (P.commit tx set).1 in
        (
          record w1 { db = db' },
          ground (arith, stored, transaction_commits (migration version) w _ done),
          tx_laws.commit_publishes tx set db' (ground (arith, sound.commits tx set))
              ∙ laws.set_version_reads tx upgraded db
              ∙ auto_migrate_reads tx w1.db,
          laws.version_commits tx upgraded db set db'
              (ground (arith, sound.set_version tx upgraded db))
              (ground (arith, sound.commits tx set)),
        )

    upgrades :
        (tx : P.Tx) (users filled : List User) (w : World P)
        → P.tx_find_users tx w.db ≡ ok users
        → IsUnique (uuids users)
        → fill_all users ≡ ok filled
        → (w' : World P) × (upgrade tx 0 w ≡ (next 1, w')) × (P.tx_find_users tx w'.db ≡ ok filled)
    unfolding upgrade add_offline_uuids
    upgrades tx users filled w reads unique h =
        let db = (P.tx_add_user_column tx (text "offline_uuid") w.db).1 in
        let reads' : P.tx_find_users tx db ≡ ok users =
          laws.add_column_reads tx (text "offline_uuid") w.db ∙ reads in
        let (w', run, result) =
          updates tx_laws laws sound.update tx [] users filled (record w { db = db }) reads' unique
            h in
        (w', ground (arith, sound.add_column tx (text "offline_uuid") w.db, reads', run), result)

    -- A database at the current version keeps its rows and its version.
    keeps :
        (users : List User) (w : World P)
        → P.user_version w.db ≡ ok current_user_version
        → P.find_users w.db ≡ ok users
        → (w' : World P) × (migrate true w ≡ (next tt, w'))
          × (P.find_users w'.db ≡ ok users)
          × (P.user_version w'.db ≡ ok current_user_version)
    unfolding upgrade
    keeps users w stored found =
        let (w', run, rows, version) = migrates 1 1 w _ stored refl in
        (w', run, rows ∙ tx_laws.begin_reads w.db ∙ found, version)

    -- If a database at version 0 has users whose player names all have an offline UUID, and no call
    -- of the migration fails, then `migrate` returns no error and leaves the database at the current
    -- version with the same users in the same order, each with the offline UUID of its player name;
    -- and migrating it again returns no error and changes neither. This rests on the documented
    -- behaviour of GORM and its migrator.
    pub migrate-fill_all :
        (users filled : List User) (w : World P)
        → P.user_version w.db ≡ ok 0
        → P.find_users w.db ≡ ok users
        → fill_all users ≡ ok filled
        → (w' : World P) × (migrate true w ≡ (next tt, w'))
          × (P.find_users w'.db ≡ ok filled)
          × (P.user_version w'.db ≡ ok current_user_version)
          × (w'' : World P) × (migrate true w' ≡ (next tt, w''))
          × (P.find_users w''.db ≡ ok filled)
          × (P.user_version w''.db ≡ ok current_user_version)
    migrate-fill_all users filled w stored found h =
        let (w1, up, rows1) =
          upgrades (P.begin w.db).0 users filled _ (tx_laws.begin_reads w.db ∙ found)
            (tx_laws.primary_key w.db users found) h in
        let (w', run, rows, version) = migrates 0 1 w w1 stored up in
        let (w'', again, rows2, version2) = keeps filled w' version (rows ∙ rows1) in
        (w', run, rows ∙ rows1, version, w'', again, rows2, version2)
