-- ===== src/Migration/Rows.antt =====
-- About the rows that `migrate` of db.go writes.
use yggdrasil_authentication.Base.{
  ◌≡◌, refl, sym, ap, ◌∙◌, none, List, [], ◌∷◌, ◌++◌, map, Text, text_eq, text_beq_iff, arith,
}
use yggdrasil_authentication.Types.{Result, ok, err, User}
use yggdrasil_authentication.Util.Slices.{IsUnique}
use yggdrasil_authentication.Platform.{Platform}
use yggdrasil_authentication.Platform.Transactions.{TxLaws, MigratorLaws, offline_row, uuids}
use yggdrasil_authentication.Platform.Rows.{map_middle, shift, same_uuids}
use yggdrasil_authentication.Action.{World, next}
use yggdrasil_authentication.Model.Offline.{offline_uuid}
use yggdrasil_authentication.Migration.{update_offline_uuids}

abbrev with_offline : User → Text → User
with_offline u offline = record u { offline_uuid = offline }

offline_row_here : (u : User) (o : Text) → offline_row u o u ≡ with_offline u o
offline_row_here u o = ground (arith, text_beq_iff u.uuid u.uuid)

offline_row-middle :
    (u : User) (o : Text) (done todo : List User)
    → IsUnique (uuids (done ++ u ∷ todo))
    → map (offline_row u o) (done ++ u ∷ todo) ≡ done ++ with_offline u o ∷ todo
offline_row-middle u o done todo unique =
    map_middle (offline_row u o) u done todo (λ r other. ground (arith, other)) unique
    ∙ ap (λ row. done ++ row ∷ todo) (offline_row_here u o)

-- What the migration makes of the users: each gets the offline UUID of its player name.
abbrev pub fill_all : ⦃P : Platform⦄ → List User → Result (List User)
fill_all [] = ok []
fill_all (u ∷ us) = elim (offline_uuid u.player_name) [
  | err e ↦ err e
  | ok offline ↦ elim (fill_all us) [
    | err e ↦ err e
    | ok us' ↦ ok (record u { offline_uuid = offline } ∷ us')
  ]
]

module _ ⦃P : Platform⦄ where
  fill_all_cons :
      (u : User) (us filled : List User) (name : Result Text) (rest : Result (List User))
      → offline_uuid u.player_name ≡ name
      → fill_all us ≡ rest
      → fill_all (u ∷ us) ≡ ok filled
      → (o : Text) × (us' : List User) × (offline_uuid u.player_name ≡ ok o)
        × (fill_all us ≡ ok us')
        × (filled ≡ with_offline u o ∷ us')
  fill_all_cons u us filled (err e) rest n r h = ground (arith, n, r, h)
  fill_all_cons u us filled (ok o) (err e) n r h = ground (arith, n, r, h)
  fill_all_cons u us filled (ok o) (ok us') n r h = (o, us', n, r, ground (arith, n, r, h))

  module _ (tx_laws : TxLaws P) (laws : MigratorLaws P)
      (succeeds : (tx : P.Tx) (u : User) (o : Text) (db : P.Db)
        → (P.tx_update_offline_uuid tx u o db).0 ≡ none) where
    update_step :
        (tx : P.Tx) (u : User) (o : Text) (users : List User) (w : World P)
        → offline_uuid u.player_name ≡ ok o
        → update_offline_uuids tx (u ∷ users) w
          ≡ update_offline_uuids tx users
              (record w { db = (P.tx_update_offline_uuid tx u o w.db).1 })
    unfolding update_offline_uuids
    update_step tx u o users w named = ground (arith, named, succeeds tx u o w.db)

    pub updates :
        (tx : P.Tx) (done todo filled : List User) (w : World P)
        → P.tx_find_users tx w.db ≡ ok (done ++ todo)
        → IsUnique (uuids (done ++ todo))
        → fill_all todo ≡ ok filled
        → (w' : World P) × (update_offline_uuids tx todo w ≡ (next tt, w'))
          × (P.tx_find_users tx w'.db ≡ ok (done ++ filled))
    unfolding update_offline_uuids
    updates tx done [] filled w reads unique h = (w, refl, ground (arith, reads, h))
    updates tx done (u ∷ todo) filled w reads unique h =
        let (o, todo', named, rest, shape) = fill_all_cons u todo filled _ _ refl refl h in
        let db' = (P.tx_update_offline_uuid tx u o w.db).1 in
        let row = with_offline u o in
        let updated =
          laws.update_reads tx u o (done ++ u ∷ todo) w.db db' reads
            (ground (arith, succeeds tx u o w.db)) in
        let reads' : P.tx_find_users tx db' ≡ ok ((done ++ row ∷ []) ++ todo) =
          updated ∙ ap ok (offline_row-middle u o done todo unique ∙ shift done row todo) in
        let unique' : IsUnique (uuids ((done ++ row ∷ []) ++ todo)) =
          rw (sym (shift done row todo), same_uuids done u row todo refl) unique in
        let (w', run, result) =
          updates tx (done ++ row ∷ []) todo todo' (record w { db = db' }) reads' unique' rest in
        (
          w',
          update_step tx u o todo w named ∙ run,
          result ∙ ap ok (sym (shift done row todo') ∙ ap (λ us. done ++ us) (sym shape)),
        )
