-- ===== src/Front/Admin/Updates.antt =====
-- About `FrontUpdateUsers` of front.go.
use yggdrasil_authentication.Base.{
  ◌≡◌, refl, sym, ap, ◌∙◌, ◌⊎◌, inl, inr, Bool, Bool-cases, true, false, not, ◌&&◌, ◌||◌, Option,
  none, some, List, [], ◌∷◌, ◌++◌, map, Text, text_eq, text_beq_iff, if◌then◌else◌, arith,
}
use yggdrasil_authentication.Types.{ok, Error, User, NullString}
use yggdrasil_authentication.Util.{contains}
use yggdrasil_authentication.Util.Slices.{IsUnique}
use yggdrasil_authentication.Platform.{Platform}
use yggdrasil_authentication.Platform.Transactions.{TxLaws, saved_row, uuids}
use yggdrasil_authentication.Platform.Rows.{map_middle, shift, same_uuids}
use yggdrasil_authentication.Action.{App, Action, World, next, fail, when}
use yggdrasil_authentication.Model.Ids.{make_null_string}
use yggdrasil_authentication.Auth.{invalidate_user}
use yggdrasil_authentication.Users.{set_is_locked}
use yggdrasil_authentication.Front.{Request}
use yggdrasil_authentication.Front.Admin.{
  should_be_admin, should_be_locked, is_changed, update_user, update_users,
}

-- The browser token after `SetIsLocked`.
abbrev pub token_after : Bool → NullString → NullString
token_after true token = make_null_string none
token_after false token = token

module _ ⦃P : Platform⦄ (app : App P) where
  -- The row that the form asks for, where it changes the user.
  abbrev pub changed_row : Request → User → User
  changed_row req user = record user {
    is_admin = should_be_admin app req user;
    is_locked = should_be_locked app req user;
    browser_token = token_after (should_be_locked app req user) user.browser_token;
  }

  abbrev pub updated_row : Request → User → User
  updated_row req user = if is_changed app req user then changed_row req user else user

  -- Some admin is not locked.
  abbrev pub any_unlocked_admin : List User → Bool
  any_unlocked_admin [] = false
  any_unlocked_admin (u ∷ us) = u.is_admin && not u.is_locked || any_unlocked_admin us

  module _ (laws : TxLaws P)
      (saves : (tx : P.Tx) (u : User) (db : P.Db) → (P.tx_save_user tx u db).0 ≡ none) where
    -- What one change comes to: it fails where the clients cannot be invalidated, and saves the row
    -- otherwise.
    abbrev UpdateOutcome :
        P.Tx → Request → User → List User → List User → World P → Action (Unit {0}) → Type 0
    UpdateOutcome tx req u before after w m =
        (w' : World P) × (P.find_users w'.db ≡ P.find_users w.db)
        × (((e : Error) × (m w ≡ (fail e, w')) × ((P.increment_versions u.uuid w.db).0 ≡ some e))
            ⊎ ((m w ≡ (next tt, w'))
                × (P.tx_find_users tx w'.db ≡ ok (before ++ updated_row req u ∷ after))))

    contains_middle :
        (before : List User) (u : User) (after : List User)
        → contains (uuids (before ++ u ∷ after)) u.uuid ≡ true
    unfolding contains
    contains_middle [] u after = ground (arith, text_beq_iff u.uuid u.uuid)
    contains_middle (b ∷ before) u after = ground (arith, contains_middle before u after)

    saved_row_here :
        (row u : User) → row.uuid ≡ u.uuid → row.clients ≡ u.clients → saved_row row u ≡ row
    saved_row_here row u same clients = ground (arith, text_beq_iff u.uuid row.uuid, same, clients)

    save_middle :
        (tx : P.Tx) (row u : User) (before after : List User) (db : P.Db)
        → row.uuid ≡ u.uuid
        → row.clients ≡ u.clients
        → IsUnique (uuids (before ++ u ∷ after))
        → P.tx_find_users tx db ≡ ok (before ++ u ∷ after)
        → P.tx_find_users tx (P.tx_save_user tx row db).1 ≡ ok (before ++ row ∷ after)
    save_middle tx row u before after db same clients unique reads =
        laws.save_reads tx row (before ++ u ∷ after) db _ reads
          (rw same (contains_middle before u after)) (ground (arith, saves tx row db))
        ∙ ap ok (
            map_middle (saved_row row) u before after (λ r other. ground (arith, other, same))
              unique
            ∙ ap (λ r. before ++ r ∷ after) (saved_row_here row u same clients))

    update_outcome :
        (tx : P.Tx) (req : Request) (u : User) (before after : List User) (w : World P)
        → IsUnique (uuids (before ++ u ∷ after))
        → P.tx_find_users tx w.db ≡ ok (before ++ u ∷ after)
        → (changed locked : Bool) → is_changed app req u ≡ changed
        → should_be_locked app req u ≡ locked
        → (increment : Option Error × P.Db) → P.increment_versions u.uuid w.db ≡ increment
        → UpdateOutcome tx req u before after w
            (when (is_changed app req u) (update_user app tx req u))
    unfolding update_user set_is_locked invalidate_user
    update_outcome tx req u before after w unique reads false locked c l increment i =
        (w, refl, inr (ground (arith, c), ground (arith, c, reads)))
    update_outcome tx req u before after w unique reads true false c l increment i =
        let row = changed_row req u in
        (
          record w { db = (P.tx_save_user tx row w.db).1 },
          laws.save_isolated tx row w.db,
          inr (
            ground (arith, c, l),
            rw c (save_middle tx row u before after w.db refl refl unique reads),
          ),
        )
    update_outcome tx req u before after w unique reads true true c l (some e, db) i = (
      record w { db = db },
      ground (arith, i, laws.increment_isolated u.uuid w.db),
      inl (e, ground (arith, c, l, i), ground (arith, i)),
    )
    update_outcome tx req u before after w unique reads true true c l (none, db) i =
        let row = changed_row req u in
        let isolated : P.find_users db ≡ P.find_users w.db =
          ground (arith, i, laws.increment_isolated u.uuid w.db) in
        let reads' : P.tx_find_users tx db ≡ ok (before ++ u ∷ after) =
          ground (arith, i, reads, laws.increment_reads tx u.uuid w.db) in
        (
          record w { db = (P.tx_save_user tx row db).1 },
          laws.save_isolated tx row db ∙ isolated,
          inr (
            ground (arith, c, l, i),
            rw c (save_middle tx row u before after db refl refl unique reads'),
          ),
        )

    unlocked_row :
        (req : Request) (u : User)
        → (updated_row req u).is_admin && not (updated_row req u).is_locked
          ≡ should_be_admin app req u && not (should_be_locked app req u)
    unfolding is_changed
    unlocked_row req u = ground arith

    updated_uuid : (req : Request) (u : User) → (updated_row req u).uuid ≡ u.uuid
    updated_uuid req u = elim (Bool-cases (is_changed app req u)) [
      | inl changed ↦ ground (arith, changed)
      | inr unchanged ↦ ground (arith, unchanged)
    ]

    -- The same for the loop, with the flag that it returns.
    abbrev pub LoopOutcome : P.Tx → List User → World P → Bool → List User → Action Bool → Type 0
    LoopOutcome tx before w flag after m =
        (w' : World P) × (P.find_users w'.db ≡ P.find_users w.db)
        × (((e : Error) × (uuid : Text) × (db : P.Db) × (m w ≡ (fail e, w'))
              × ((P.increment_versions uuid db).0 ≡ some e))
            ⊎ ((m w ≡ (next flag, w')) × (P.tx_find_users tx w'.db ≡ ok (before ++ after))))

    unfoldable pub flag_after : Bool → Request → List User → Bool
    flag_after any req todo = any || any_unlocked_admin (map (updated_row req) todo)

    flag_after_cons :
        (any : Bool) (req : Request) (u : User) (todo : List User)
        → flag_after (any || should_be_admin app req u && not (should_be_locked app req u)) req todo
          ≡ flag_after any req (u ∷ todo)
    unfolding flag_after
    flag_after_cons any req u todo = ground (arith, unlocked_row req u)

    abbrev pub UsersOutcome : P.Tx → Request → List User → List User → Bool → World P → Type 0
    UsersOutcome tx req before todo any w =
        LoopOutcome tx before w (flag_after any req todo) (map (updated_row req) todo)
          (update_users app tx req any todo)

    first_then_rest :
        (tx : P.Tx) (req : Request) (before : List User) (u : User) (todo : List User) (any : Bool)
        (w w1 : World P)
        → P.find_users w1.db ≡ P.find_users w.db
        → when (is_changed app req u) (update_user app tx req u) w ≡ (next tt, w1)
        → UsersOutcome tx req
            (before ++ updated_row req u ∷ [])
            todo
            (any || should_be_admin app req u && not (should_be_locked app req u))
            w1
        → UsersOutcome tx req before (u ∷ todo) any w
    unfolding update_users
    first_then_rest tx req before u todo any w w1 same run
          (w2, same2, inl (e, uuid, db, run2, failed)) =
        (w2, same2 ∙ same, inl (e, uuid, db, ground (arith, run, run2), failed))
    first_then_rest tx req before u todo any w w1 same run (w2, same2, inr (run2, reads2)) = (
      w2,
      same2 ∙ same,
      inr (
        ground (arith, run, run2, flag_after_cons any req u todo),
        reads2 ∙ ap ok (sym (shift before (updated_row req u) (map (updated_row req) todo))),
      ),
    )

    pub update_users-UsersOutcome :
        (tx : P.Tx) (req : Request) (before todo : List User) (any : Bool) (w : World P)
        → IsUnique (uuids (before ++ todo))
        → P.tx_find_users tx w.db ≡ ok (before ++ todo)
        → UsersOutcome tx req before todo any w
    unfolding update_users flag_after
    update_users-UsersOutcome tx req before [] any w unique reads =
        (w, refl, inr (ground arith, reads))
    update_users-UsersOutcome tx req before (u ∷ todo) any w unique reads =
        after_first (update_outcome tx req u before todo w unique reads _ _ refl refl _ refl)
          (λ w1 reads1.
            update_users-UsersOutcome tx req (before ++ updated_row req u ∷ []) todo _ w1
              (rw
                (
                  sym (shift before (updated_row req u) todo),
                  same_uuids before u (updated_row req u) todo (updated_uuid req u),
                )
                unique)
              (reads1 ∙ ap ok (shift before (updated_row req u) todo)))
      where
        after_first :
            UpdateOutcome tx req u before todo w
              (when (is_changed app req u) (update_user app tx req u))
            → ((w1 : World P)
                → P.tx_find_users tx w1.db ≡ ok (before ++ updated_row req u ∷ todo)
                → UsersOutcome tx req
                    (before ++ updated_row req u ∷ [])
                    todo
                    (any || should_be_admin app req u && not (should_be_locked app req u))
                    w1)
            → UsersOutcome tx req before (u ∷ todo) any w
        after_first (w1, same, inl (e, run, failed)) rest =
            (w1, same, inl (e, u.uuid, w.db, ground (arith, run), failed))
        after_first (w1, same, inr (run, reads1)) rest =
            first_then_rest tx req before u todo any w w1 same run (rest w1 reads1)
