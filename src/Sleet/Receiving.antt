-- ===== src/Sleet/Receiving.antt =====
-- src/sleet/sleet.rs: how a transaction enters: `on_receive_tx` and what it calls.
pub mod Entering
pub mod Reissue
use zfx_subzero.Prelude.{
  ◌≡◌, refl, sym, ◌∙◌, ◌≢◌, eqb, eqb_iff, Bool-cases, Option-cases, inl, inr, if◌then◌else◌, List,
  [], ◌∷◌, Bool, true, false, not, ◌&&◌, ◌||◌, Option, none, some, Result, ok, err, panic, or_panic,
  nat_eq, arith, map_err,
}
use zfx_subzero.Prelude.HashSet.{contains, retain, contains-retain}
use zfx_subzero.Prelude.HashMap
use zfx_subzero.Prelude.HashMap.{contains_key}
use zfx_subzero.Prelude.Action.{
  Action, pure, gets, modify, and_then, lift, throw, ◌>>=◌, ◌>>◌, >>=-eq-ok,
}
use zfx_subzero.Graph.Dag.{Dag, has_vertices, missing, insert_vx, adjacent}
use zfx_subzero.Graph.Dag.Invariant.{IsWellFormed}
use zfx_subzero.Graph.Dag.Invariant.Insertion.{insert_vx-IsWellFormed, insert_vx-ok_iff}
use zfx_subzero.Graph.ConflictGraph.{insert_cell}
use zfx_subzero.Storage.Txs.{is_known_tx, is_removed_tx, insert_tx}
use zfx_subzero.Sleet.{Error, invalid_coinbase_transaction, missing_ancestry}
use zfx_subzero.Sleet.Tx.{TxHash, Tx, pending, hash}
use zfx_subzero.Sleet.State.{Env, Sleet, known, on_conflict_graph, on_dag}
use zfx_subzero.Sleet.Acceptance.{stored}
use zfx_subzero.Sleet.Ancestors.{map_err-ok}
use zfx_subzero.Cell.Types.{Output, Cell, CellType}

is_coinbase : CellType → Bool
is_coinbase CellType.coinbase = true
is_coinbase _ = false

makes_coinbase : List Output → Bool
unfolding is_coinbase
makes_coinbase [] = false
makes_coinbase (o ∷ outputs) = is_coinbase o.cell_type || makes_coinbase outputs

-- `has_coinbase_output` of src/util.rs
unfoldable pub has_coinbase_output : Cell → Bool
unfolding makes_coinbase
has_coinbase_output cell = makes_coinbase cell.outputs

module _ {env : Env} where
  pub all_accepted : Sleet env → List TxHash → Bool
  all_accepted s [] = true
  all_accepted s (p ∷ ps) = stored s p && all_accepted s ps

  unfoldable pub has_parents : Sleet env → Tx → Bool
  has_parents s tx = elim (has_vertices s.dag tx.parents) [
    | ok _ ↦ true
    | err missing_parents ↦ all_accepted s missing_parents
    | panic ↦ false
  ]

  unfoldable pub remove_accepted_parents : Sleet env → List TxHash → List TxHash
  remove_accepted_parents s parents = retain (λ p. not (stored s p)) parents

  unfoldable pub insert : Tx → Action (Sleet env) Error (Unit {0})
  insert tx = do
    on_conflict_graph (insert_cell env.crypto tx.cell)
    parents ← gets (λ s. remove_accepted_parents s tx.parents)
    on_dag (insert_vx (hash env.crypto tx) parents)

  abbrev pub store : Tx → Action (Sleet env) Error (Unit {0})
  store tx s = (record s { known_txs = insert_tx env.sled env.crypto tx s.known_txs }, ok tt)

  -- Unknown, or removed because of its ancestry.
  unfoldable pub is_fresh : Sleet env → TxHash → Result Error Bool
  is_fresh s h = if is_known_tx (known s) h then or_panic (is_removed_tx (known s) h) else ok true

  -- A fresh transaction with its parents.
  unfoldable pub enter : Tx → Action (Sleet env) Error Bool
  enter tx = do
    let pending_tx = record tx { status = pending }
    insert pending_tx
    store pending_tx
    pure true

  unfoldable pub receive_new : Tx → Action (Sleet env) Error Bool
  receive_new tx s = if has_parents s tx then enter tx s else (s, err missing_ancestry)

  unfoldable pub on_receive_tx : Tx → Action (Sleet env) Error Bool
  on_receive_tx tx s =
      let received =
        and_then (is_fresh s (hash env.crypto tx))
          (λ fresh. if fresh then receive_new tx else pure false) s in
      if has_coinbase_output tx.cell
      then (s, err (invalid_coinbase_transaction tx.cell))
      else received
