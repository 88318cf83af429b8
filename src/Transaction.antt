-- ===== src/Transaction.antt =====
-- Transactions of GORM, as actions: `DB.Begin`, `defer tx.Rollback()` and `DB.Transaction`.
use yggdrasil_authentication.Base.{Option, none, some}
use yggdrasil_authentication.Types.{Error}
use yggdrasil_authentication.Platform.{Platform}
use yggdrasil_authentication.Action.{Action, World, Exit, next, reply, fail, panic}

module _ ⦃P : Platform⦄ where
  -- `app.DB.Begin()`.
  abbrev pub begin : Action P.Tx
  begin w = let (tx, db) = P.begin w.db in (next tx, record w { db = db })

  abbrev pub roll_back : P.Tx → World P → World P
  roll_back tx w = record w { db = P.rollback tx w.db }

  -- `defer tx.Rollback()`, for the rest of a function, however it ends.
  abbrev pub deferred_rollback {ℓ} : {A : Type ℓ} → P.Tx → Action A → Action A
  deferred_rollback tx m w = let (e, w') = m w in (e, roll_back tx w')

  -- `tx.Commit()`.
  abbrev pub commit : P.Tx → Action (Option Error)
  commit tx w = let (e, db) = P.commit tx w.db in (next e, record w { db = db })

  -- How `DB.Transaction` ends: it commits where the function returned nil, and rolls back where it
  -- did not, or where the commit failed.
  abbrev finish : P.Tx → Exit (Unit {0}) → World P → Exit (Unit {0}) × World P
  finish tx (next done) w =
      let (e, db) = P.commit tx w.db in
      elim e [
        | none ↦ (next tt, record w { db = db })
        | some x ↦ (fail x, roll_back tx (record w { db = db }))
      ]
  finish tx (reply r) w = (reply r, roll_back tx w)
  finish tx (fail e) w = (fail e, roll_back tx w)
  finish tx panic w = (panic, roll_back tx w)

  -- `db.Transaction(f)`.
  abbrev pub transaction : (P.Tx → Action (Unit {0})) → Action (Unit {0})
  transaction f w =
      let (tx, db) = P.begin w.db in let (e, w') = f tx (record w { db = db }) in finish tx e w'
