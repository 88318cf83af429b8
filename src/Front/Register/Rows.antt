-- ===== src/Front/Register/Rows.antt =====
-- About the transaction of `FrontRegister` of front.go.
use yggdrasil_authentication.Base.{
  ◌≡◌, refl, sym, ap, ◌∙◌, ◌⊎◌, inl, inr, Bool, true, false, Option, none, some, Text, text,
  text_eq, arith,
}
use yggdrasil_authentication.Types.{Error, User, Invite, Response}
use yggdrasil_authentication.Platform.{Platform}
use yggdrasil_authentication.Platform.Transactions.{TxLaws}
use yggdrasil_authentication.Action.{
  App, Action, World, Exit, next, reply, fail, panic, ◌>>=◌, ◌>>◌, check,
}
use yggdrasil_authentication.Transaction.{commit as commit_tx}
use yggdrasil_authentication.Errors.{is_error_unique_failed_field}
use yggdrasil_authentication.Front.Register.{check_created, use_invite, save_registration}

module _ ⦃P : Platform⦄ (app : App P) where
  -- A run that does not go on.
  pub data IsStopped {ℓ} {A : Type ℓ} : Exit A → Type ℓ where
    failed : (e : Error) → IsStopped (fail e)
    answered : (r : Response) → IsStopped (reply r)

  created_stops :
      (url : Text) (e : Error) (w : World P) (name player uuid : Bool)
      → is_error_unique_failed_field (some e) (text "users.username") ≡ name
      → is_error_unique_failed_field (some e) (text "users.player_name") ≡ player
      → is_error_unique_failed_field (some e) (text "users.uuid") ≡ uuid
      → IsStopped (check_created app url (some e) w).0
        × ((check_created app url (some e) w).1.db ≡ w.db)
  unfolding check_created
  created_stops url e w true player uuid n p u = rw n (answered _, refl)
  created_stops url e w false true uuid n p u = rw (n, p) (answered _, refl)
  created_stops url e w false false true n p u = rw (n, p, u) (answered _, refl)
  created_stops url e w false false false n p u = rw (n, p, u) (failed _, refl)

  pub stop_bind {ℓ ℓ'} :
      {A : Type ℓ} {B : Type ℓ'} (m : Action A) (f : A → Action B) (w : World P)
      → IsStopped (m w).0
      → IsStopped ((m >>= f) w).0 × (((m >>= f) w).1.db ≡ (m w).1.db)
  stop_bind {A = A} m f w stopped = by_exit (m w).0 (m w).1 refl stopped
    where
      by_exit :
          (e : Exit A) (w1 : World P)
          → m w ≡ (e, w1)
          → IsStopped e
          → IsStopped ((m >>= f) w).0 × (((m >>= f) w).1.db ≡ (m w).1.db)
      by_exit (fail e) w1 run (failed _) =
          let bound : (m >>= f) w ≡ (fail e, w1) = ground (arith, run) in
          (rw bound (failed e), ground (arith, run, bound))
      by_exit (reply r) w1 run (answered _) =
          let bound : (m >>= f) w ≡ (reply r, w1) = ground (arith, run) in
          (rw bound (answered r), ground (arith, run, bound))
      by_exit (next a) w1 run s = elim s [ ]
      by_exit panic w1 run s = elim s [ ]

  -- The deletion of the invite.
  abbrev pub used : P.Tx → Option Invite → P.Db → Option Error × P.Db
  used tx none db = (none, db)
  used tx (some invite) db = P.tx_delete_invite tx invite db

  -- Every call of the transaction succeeded; the last state is that after the commit.
  pub record HasSaved (tx : P.Tx) (invite : Option Invite) (user : User) (db db' : P.Db)
      : Type 0 where
    pub created : P.Db
    pub emptied : P.Db
    pub creates : P.tx_create_user tx user db ≡ (none, created)
    pub uses : used tx invite created ≡ (none, emptied)
    pub commits : P.commit tx emptied ≡ (none, db')

  module _ (laws : TxLaws P) where
    -- How the transaction ends.
    abbrev pub SaveOutcome : Text → Option Invite → User → P.Tx → World P → Type 0
    SaveOutcome url invite user tx w =
        (IsStopped (save_registration app url invite user tx w).0
          × (P.find_users (save_registration app url invite user tx w).1.db ≡ P.find_users w.db))
        ⊎ ((db' : P.Db) × (save_registration app url invite user tx w
              ≡ (next tt, record w { db = db' }))
            × HasSaved tx invite user w.db db')

    use_invite_runs :
        (tx : P.Tx) (invite : Option Invite) (w : World P) (deletion : Option Error × P.Db)
        → used tx invite w.db ≡ deletion
        → use_invite app tx invite w ≡ check deletion.0 (record w { db = deletion.1 })
    unfolding use_invite
    use_invite_runs tx none w deletion d = ground (arith, d)
    use_invite_runs tx (some i) w deletion d = ground (arith, d)

    used_isolated :
        (tx : P.Tx) (invite : Option Invite) (db : P.Db)
        → P.find_users (used tx invite db).1 ≡ P.find_users db
    used_isolated tx none db = refl
    used_isolated tx (some i) db = laws.delete_isolated tx i db

    after_deletion :
        (tx : P.Tx) (invite : Option Invite) (user : User) {db db1 db2 : P.Db} {e e' : Option Error}
        → P.tx_create_user tx user db ≡ (e, db1)
        → used tx invite db1 ≡ (e', db2)
        → P.find_users db2 ≡ P.find_users db
    after_deletion tx invite user {db = db} {db1 = db1} c d =
        ground (arith, c, d, laws.create_isolated tx user db, used_isolated tx invite db1)

    pub save_outcome :
        (url : Text) (invite : Option Invite) (user : User) (tx : P.Tx) (w : World P)
        (creation deletion commit : Option Error × P.Db)
        → P.tx_create_user tx user w.db ≡ creation
        → used tx invite creation.1 ≡ deletion
        → P.commit tx deletion.1 ≡ commit
        → SaveOutcome url invite user tx w
    unfolding save_registration check_created
    save_outcome url invite user tx w (some e, db) deletion commit c d m =
        let (stopped, same) = created_stops url e (record w { db = db }) _ _ _ refl refl refl in
        let then_commit = λ (_ : Unit {0}). use_invite app tx invite >> (commit_tx tx >>= check) in
        let (stopped1, same1) = stop_bind (check_created app url (some e)) then_commit _ stopped in
        let created : P.find_users db ≡ P.find_users w.db =
          ap (λ (p : Option Error × P.Db). P.find_users p.1) (sym c)
          ∙ laws.create_isolated tx user w.db in
        inl (rw c (stopped1, ap P.find_users (same1 ∙ same) ∙ created))
    save_outcome url invite user tx w (none, db) (some e, db1) commit c d m =
        let run = use_invite_runs tx invite (record w { db = db }) (some e, db1) d in
        let fails : save_registration app url invite user tx w ≡ (fail e, record w { db = db1 }) =
          ground (arith, c, run) in
        inl (rw fails (failed e), rw fails (after_deletion tx invite user c d))
    save_outcome url invite user tx w (none, db) (none, db1) (some e, db2) c d m =
        let run = use_invite_runs tx invite (record w { db = db }) (none, db1) d in
        let fails : save_registration app url invite user tx w ≡ (fail e, record w { db = db2 }) =
          ground (arith, c, run, m) in
        inl (
          rw fails (failed e),
          rw fails (laws.commit_fails tx e db1 db2 m ∙ after_deletion tx invite user c d),
        )
    save_outcome url invite user tx w (none, db) (none, db1) (none, db2) c d m = inr (
      db2,
      ground (arith, c, d, m, use_invite_runs tx invite (record w { db = db }) (none, db1) d),
      record { created = db; emptied = db1; creates = c; uses = d; commits = m },
    )
