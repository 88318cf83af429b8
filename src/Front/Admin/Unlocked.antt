-- ===== src/Front/Admin/Unlocked.antt =====
-- About `FrontUpdateUsers` of front.go: what is read of the users afterwards.
use yggdrasil_authentication.Base.{
  ◌≡◌, ◌≢◌, refl, ◌∙◌, ◌⊎◌, inl, inr, Bool, true, false, Option, none, some, List, [], map, Text,
  text_eq, if◌then◌else◌, arith,
}
use yggdrasil_authentication.Types.{ok, Error, User, redirect}
use yggdrasil_authentication.Platform.{Platform, by_browser_token}
use yggdrasil_authentication.Platform.Transactions.{TxLaws}
use yggdrasil_authentication.Action.{App, World, next, fail, reply}
use yggdrasil_authentication.Front.{
  Request, get_return_url, browser_token_of, with_browser_admin, with_login,
  with_browser_authentication,
}
use yggdrasil_authentication.Front.Admin.{
  update_users, finish_update, update_all, front_update_users,
}
use yggdrasil_authentication.Front.Admin.Updates.{
  updated_row, any_unlocked_admin, update_users-UsersOutcome, UsersOutcome, flag_after,
}

-- No update of clients fails.
abbrev pub Increments : (P : Platform) → Type 0
Increments P = (uuid : Text) (db : P.Db) → (P.increment_versions uuid db).0 ≡ none

module _ ⦃P : Platform⦄ (app : App P) (laws : TxLaws P)
    (saves : (tx : P.Tx) (u : User) (db : P.Db) → (P.tx_save_user tx u db).0 ≡ none) (req : Request)
    (w : World P) (token : Text) (admin : User) (users : List User)
    (cookie : browser_token_of app req ≡ some token)
    (found : P.first_user (by_browser_token token) w.db ≡ ok admin)
    (is_admin : admin.is_admin ≡ true) (listed : P.find_users w.db ≡ ok users) where
  start : World P
  start = record w { db = (P.begin w.db).1 }

  reaches : front_update_users app req w ≡ update_all app req w
  unfolding front_update_users with_browser_admin with_login with_browser_authentication
  reaches = ground (arith, cookie, found, is_admin)

  -- The rows that the form asks for.
  abbrev wanted : List User
  wanted = map (updated_row app req) users

  outcome : UsersOutcome app laws saves (P.begin w.db).0 req [] users false start
  unfolding start
  outcome =
      update_users-UsersOutcome app laws saves (P.begin w.db).0 req [] users false start
        (laws.primary_key w.db users listed) (laws.begin_reads w.db ∙ listed)

  abbrev Rows : List User → Type 0
  Rows rows = P.find_users (front_update_users app req w).1.db ≡ ok rows

  fails :
      (w1 : World P) (e : Error)
      → P.find_users w1.db ≡ P.find_users start.db
      → update_users app (P.begin w.db).0 req false users start ≡ (fail e, w1)
      → Rows users
  unfolding update_all start
  fails w1 e same run = ground (
    arith,
    reaches,
    listed,
    run,
    same,
    laws.begin_isolated w.db,
    laws.rollback_isolated (P.begin w.db).0 w1.db,
  )

  refuses :
      (w1 : World P)
      → P.find_users w1.db ≡ P.find_users start.db
      → update_users app (P.begin w.db).0 req false users start ≡ (next false, w1)
      → Rows users
        × ((front_update_users app req w).0 ≡ reply (redirect 303 (get_return_url app req)))
  unfolding update_all finish_update start
  refuses w1 same run = (
    ground (
      arith,
      reaches,
      listed,
      run,
      same,
      laws.begin_isolated w.db,
      laws.rollback_isolated (P.begin w.db).0 w1.db,
    ),
    ground (arith, reaches, listed, run),
  )

  commits_form :
      (w1 : World P) (rows : List User)
      → P.find_users w1.db ≡ P.find_users start.db
      → update_users app (P.begin w.db).0 req false users start ≡ (next true, w1)
      → P.tx_find_users (P.begin w.db).0 w1.db ≡ ok rows
      → (commit : Option Error × P.Db) → P.commit (P.begin w.db).0 w1.db ≡ commit
      → ((front_update_users app req w).0 ≡ reply (redirect 303 (get_return_url app req)))
        × (((commit.0 ≢ none) × Rows users) ⊎ Rows rows)
  unfolding update_all finish_update start
  commits_form w1 rows same run reads (none, db) c = (
    ground (arith, reaches, listed, run, c),
    inr (
        ground (
          arith,
          reaches,
          listed,
          run,
          c,
          laws.rollback_isolated (P.begin w.db).0 db,
          laws.commit_publishes (P.begin w.db).0 w1.db db c,
          reads,
        )),
  )
  commits_form w1 rows same run reads (some e, db) c = (
    ground (arith, reaches, listed, run, c),
    inl (
      λ h. cc,
      ground (
        arith,
        reaches,
        listed,
        run,
        c,
        same,
        laws.begin_isolated w.db,
        laws.rollback_isolated (P.begin w.db).0 db,
        laws.commit_fails (P.begin w.db).0 e w1.db db c,
      ),
    ),
  )

  -- If the rows can be saved, then whatever an admin asks for, and whatever else fails: afterwards
  -- everyone reads the users as they were, or they read the rows that the form asks for, and some
  -- admin among them is not locked. This rests on the documented behaviour of GORM's transactions.
  pub front_update_users_unlocked :
      Rows users ⊎ (Rows wanted × (any_unlocked_admin app wanted ≡ true))
  unfolding flag_after
  front_update_users_unlocked = by_outcome outcome _ refl
    where
      by_outcome :
          UsersOutcome app laws saves (P.begin w.db).0 req [] users false start
          → (flag : Bool) → any_unlocked_admin app wanted ≡ flag
          → Rows users ⊎ (Rows wanted × (any_unlocked_admin app wanted ≡ true))
      by_outcome (w1, same, inl (e, uuid, db, run, failed)) flag f = inl (fails w1 e same run)
      by_outcome (w1, same, inr (run, reads)) false f =
          inl (refuses w1 same (ground (arith, run, f))).0
      by_outcome (w1, same, inr (run, reads)) true f =
          elim (commits_form w1 wanted same (ground (arith, run, f)) reads _ refl).1 [
            | inl (failed, rows) ↦ inl rows
            | inr rows ↦ inr (rows, f)
          ]

  -- If no write fails, an admin is sent back to the page; and if some admin would not be locked,
  -- everyone reads the users in the same order afterwards, each with the role and the lock that the
  -- form and the default admins ask for, and without a browser token where a changed user is locked;
  -- otherwise they read the users as they were. This rests on the documented behaviour of GORM's
  -- transactions.
  pub front_update_users-map :
      Increments P
      → ((tx : P.Tx) (db : P.Db) → (P.commit tx db).0 ≡ none)
      → ((front_update_users app req w).0 ≡ reply (redirect 303 (get_return_url app req)))
        × Rows (if any_unlocked_admin app wanted then wanted else users)
  unfolding flag_after
  front_update_users-map increments commits = by_outcome outcome _ refl
    where
      by_outcome :
          UsersOutcome app laws saves (P.begin w.db).0 req [] users false start
          → (flag : Bool) → any_unlocked_admin app wanted ≡ flag
          → ((front_update_users app req w).0 ≡ reply (redirect 303 (get_return_url app req)))
            × Rows (if any_unlocked_admin app wanted then wanted else users)
      by_outcome (w1, same, inl (e, uuid, db, run, failed)) flag f =
          absurd (ground (arith, failed, increments uuid db))
      by_outcome (w1, same, inr (run, reads)) false f =
          let (rows, answer) = refuses w1 same (ground (arith, run, f)) in (answer, rw f rows)
      by_outcome (w1, same, inr (run, reads)) true f =
          let (answer, rows) = commits_form w1 wanted same (ground (arith, run, f)) reads _ refl in
          (
            answer,
            rw f (elim rows [
              | inl (failed, old) ↦ absurd (failed (commits (P.begin w.db).0 w1.db))
              | inr new ↦ new
            ]),
          )
