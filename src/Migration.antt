-- ===== src/Migration.antt =====
-- Opening and migrating the database: db.go.
pub mod Rows
pub mod Success
pub mod Rollback
use yggdrasil_authentication.Base.{
  ℕ, ◌+◌, Bool, true, false, Option, none, some, List, [], ◌∷◌, ◌++◌, ◌==◌, nat_eq, Text, text,
  if◌then◌else◌,
}
use yggdrasil_authentication.Types.{Result, ok, err, Error, errors_new, User, Config}
use yggdrasil_authentication.Platform.{
  Platform, Stat, exists, not_exist, stat_failed, users_table, clients_table, invites_table,
}
use yggdrasil_authentication.Action.{
  Action, World, Exit, next, reply, fail, panic, ◌>>=◌, ◌>>◌, pure, or_return, return_error, check,
  write, query, attempt, read_files,
}
use yggdrasil_authentication.Transaction.{transaction}
use yggdrasil_authentication.Model.Offline.{offline_uuid}

-- CURRENT_USER_VERSION
abbrev pub current_user_version : ℕ
current_user_version = 1

module _ ⦃P : Platform⦄ where
  -- The loop of the migration from version 0 to 1.
  unfoldable pub update_offline_uuids : P.Tx → List User → Action (Unit {0})
  update_offline_uuids tx [] = pure tt
  update_offline_uuids tx (user ∷ users) = do
    offline ← or_return (offline_uuid user.player_name)
    updated ← write (P.tx_update_offline_uuid tx user offline)
    check updated
    update_offline_uuids tx users

  -- Version 0 to 1: the column OfflineUUID is added.
  unfoldable pub add_offline_uuids : P.Tx → Action (Unit {0})
  add_offline_uuids tx = do
    added ← write (P.tx_add_user_column tx (text "offline_uuid"))
    check added
    users ← query (P.tx_find_users tx) >>= or_return
    update_offline_uuids tx users

  -- `if userVersion == 0 { … userVersion += 1 }`: the version afterwards.
  unfoldable pub upgrade : P.Tx → ℕ → Action ℕ
  upgrade tx version =
      if version == 0 then add_offline_uuids tx >> pure (version + 1) else pure version

  -- `setUserVersion`.
  unfoldable pub set_user_version : P.Tx → ℕ → Action (Unit {0})
  set_user_version tx version = write (P.tx_set_user_version tx version) >>= check

  -- The calls of `AutoMigrate`.
  unfoldable pub auto_migrate : P.Tx → Action (Unit {0})
  auto_migrate tx = do
    write (P.tx_auto_migrate tx users_table) >>= check
    write (P.tx_auto_migrate tx clients_table) >>= check
    write (P.tx_auto_migrate tx invites_table) >>= check

  -- The function that `migrate` gives to `db.Transaction`; what it logs is left out.
  unfoldable pub migration : ℕ → P.Tx → Action (Unit {0})
  migration version tx = do
    upgraded ← upgrade tx version
    auto_migrate tx
    set_user_version tx upgraded

  -- `migrate`: where the version cannot be read, it returns nil and does nothing.
  unfoldable pub migrate : Bool → Action (Unit {0})
  migrate true = do
    version ← query P.user_version
    elim version [ ok v ↦ transaction (migration v) | err e ↦ pure tt ]
  migrate false = transaction (migration current_user_version)

  -- `alreadyExisted`, from `os.Stat`.
  abbrev pub already_existed : Stat → Bool
  already_existed exists = true
  already_existed not_exist = false
  already_existed (stat_failed e) = false

  -- `OpenDB`, given whether the file was there and with the database that gorm.Open gave as the
  -- world's.
  unfoldable pub open_db : Stat → Action (Unit {0})
  open_db stat = do
    migrated ← attempt (migrate (already_existed stat))
    elim migrated [
      | ok done ↦ pure tt
      | err e ↦ return_error (errors_new (text "Error migrating database: " ++ P.error_string e))
    ]
