-- ===== src/Migration/Rollback.antt =====
-- About `migrate` of db.go where it returns an error.
use yggdrasil_authentication.Base.{
  ℕ, ◌+◌, ◌==◌, nat_eq, Bool-cases, inl, inr, ◌≡◌, refl, Bool, true, false, Option, none, some,
  List, [], ◌∷◌, arith, text,
}
use yggdrasil_authentication.Types.{Result, ok, err, Error, User}
use yggdrasil_authentication.Platform.{Platform, users_table, clients_table, invites_table}
use yggdrasil_authentication.Platform.Transactions.{TxLaws, MigratorLaws}
use yggdrasil_authentication.Action.{
  Action, World, Exit, next, reply, fail, panic, ◌>>=◌, ◌>>◌, or_return, check, write, query, pure,
}
use yggdrasil_authentication.Action.Keeps.{
  Keeps, bind-Keeps, or_return-Keeps, check-Keeps, write-Keeps,
}
use yggdrasil_authentication.Transaction.{transaction}
use yggdrasil_authentication.Model.Offline.{offline_uuid}
use yggdrasil_authentication.Migration.{
  update_offline_uuids, add_offline_uuids, upgrade, set_user_version, auto_migrate, migration,
  migrate,
}

module _ ⦃P : Platform⦄ where
  -- An action after which other connections read the same users.
  abbrev Isolated {ℓ} : {A : Type ℓ} → Action A → Type 0
  Isolated = Keeps P.find_users

  module _ (tx_laws : TxLaws P) (laws : MigratorLaws P) where
    update_offline_uuids-Isolated :
        (tx : P.Tx) (users : List User) → Isolated (update_offline_uuids tx users)
    unfolding update_offline_uuids
    update_offline_uuids-Isolated tx [] = λ w. refl
    update_offline_uuids-Isolated tx (u ∷ users) =
        bind-Keeps P.find_users (or_return (offline_uuid u.player_name))
          (λ offline.
            (write (P.tx_update_offline_uuid tx u offline) >>= check)
            >> update_offline_uuids tx users)
          (or_return-Keeps P.find_users (offline_uuid u.player_name))
          λ offline.
            write-Keeps P.find_users (P.tx_update_offline_uuid tx u offline)
              (update_offline_uuids tx users) (laws.update_isolated tx u offline)
              (update_offline_uuids-Isolated tx users)

    add_offline_uuids-Isolated : (tx : P.Tx) → Isolated (add_offline_uuids tx)
    unfolding add_offline_uuids
    add_offline_uuids-Isolated tx =
        write-Keeps P.find_users (P.tx_add_user_column tx (text "offline_uuid"))
          ((query (P.tx_find_users tx) >>= or_return) >>= update_offline_uuids tx)
          (laws.add_column_isolated tx (text "offline_uuid"))
          (bind-Keeps P.find_users (query (P.tx_find_users tx) >>= or_return)
            (update_offline_uuids tx)
            (bind-Keeps P.find_users (query (P.tx_find_users tx)) or_return (λ w. refl)
              (or_return-Keeps P.find_users))
            (update_offline_uuids-Isolated tx))

    upgrade-Isolated : (tx : P.Tx) (version : ℕ) → Isolated (upgrade tx version)
    unfolding upgrade
    upgrade-Isolated tx version = elim (Bool-cases (version == 0)) [
      | inl old ↦ λ w. rw old (
          bind-Keeps P.find_users (add_offline_uuids tx) (λ _. pure (version + 1))
            (add_offline_uuids-Isolated tx) (λ _ w. refl) w)
      | inr current ↦ λ w. rw current refl
    ]

    migration-Isolated : (version : ℕ) (tx : P.Tx) → Isolated (migration version tx)
    unfolding migration auto_migrate set_user_version
    migration-Isolated version tx =
        bind-Keeps P.find_users (upgrade tx version)
          (λ upgraded. auto_migrate tx >> set_user_version tx upgraded)
          (upgrade-Isolated tx version)
          λ upgraded.
            bind-Keeps P.find_users (auto_migrate tx) (λ _. set_user_version tx upgraded)
              (write-Keeps P.find_users (P.tx_auto_migrate tx users_table)
                ((write (P.tx_auto_migrate tx clients_table) >>= check)
                  >> (write (P.tx_auto_migrate tx invites_table) >>= check))
                (laws.auto_migrate_isolated tx users_table)
                (write-Keeps P.find_users (P.tx_auto_migrate tx clients_table)
                  (write (P.tx_auto_migrate tx invites_table) >>= check)
                  (laws.auto_migrate_isolated tx clients_table)
                  (bind-Keeps P.find_users (write (P.tx_auto_migrate tx invites_table)) check
                    (λ w. laws.auto_migrate_isolated tx invites_table w.db)
                    (check-Keeps P.find_users))))
              λ _.
                bind-Keeps P.find_users (write (P.tx_set_user_version tx upgraded)) check
                  (λ w. laws.set_version_isolated tx upgraded w.db) (check-Keeps P.find_users)

    -- A transaction that returns an error.
    transaction_fails :
        (f : P.Tx → Action (Unit {0}))
        → ((tx : P.Tx) → Isolated (f tx))
        → (w w' : World P) (e : Error) → transaction f w ≡ (fail e, w')
        → P.find_users w'.db ≡ P.find_users w.db
    transaction_fails f isolated w w' e h =
        by_exit (f tx start).0 (f tx start).1 refl (P.commit tx (f tx start).1.db).0 _ refl
      where
        tx : P.Tx
        tx = (P.begin w.db).0

        start : World P
        start = record w { db = (P.begin w.db).1 }

        by_exit :
            (exit : Exit (Unit {0})) (w1 : World P)
            → f tx start ≡ (exit, w1)
            → (committed : Option Error) (db : P.Db) → P.commit tx w1.db ≡ (committed, db)
            → P.find_users w'.db ≡ P.find_users w.db
        by_exit (next u) w1 run none db c = ground (arith, h, run, c)
        by_exit (next u) w1 run (some x) db c = ground (
          arith,
          h,
          run,
          c,
          isolated tx start,
          tx_laws.begin_isolated w.db,
          tx_laws.commit_fails tx x w1.db db c,
          tx_laws.rollback_isolated tx db,
        )
        by_exit (reply r) w1 run committed db c = ground (arith, h, run)
        by_exit (fail x) w1 run committed db c = ground (
          arith,
          h,
          run,
          isolated tx start,
          tx_laws.begin_isolated w.db,
          tx_laws.rollback_isolated tx w1.db,
        )
        by_exit panic w1 run committed db c = ground (arith, h, run)

    -- Where `migrate` returns an error, everyone reads the users as they were before: the
    -- transaction leaves nothing behind. This rests on the documented behaviour of GORM and its
    -- migrator.
    pub migrate_rollback :
        (existed : Bool) (e : Error) (w w' : World P)
        → migrate existed w ≡ (fail e, w')
        → P.find_users w'.db ≡ P.find_users w.db
    unfolding migrate
    migrate_rollback false e w w' h =
        transaction_fails (migration 1) (migration-Isolated 1) w w' e h
    migrate_rollback true e w w' h = by_version (P.user_version w.db) refl
      where
        by_version :
            (version : Result ℕ)
            → P.user_version w.db ≡ version
            → P.find_users w'.db ≡ P.find_users w.db
        by_version (ok v) stored =
            transaction_fails (migration v) (migration-Isolated v) w w' e
              (ground (arith, h, stored))
        by_version (err x) stored = ground (arith, h, stored)
