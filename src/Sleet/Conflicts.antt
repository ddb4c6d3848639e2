-- ===== src/Sleet/Conflicts.antt =====
-- src/sleet/sleet.rs: `remove_conflicts`. The loop over the progeny of the rejected transactions runs
-- on fuel, one unit for each transaction that it takes off its queue: one more than there are
-- conflict sets, since each round but the last takes one away.
pub mod Ending
use zfx_subzero.Prelude.{ℕ, zero, suc, List, [], ◌∷◌, ◌++◌, length, Result, ok, err, panic, nat_eq}
use zfx_subzero.Prelude.HashSet.{HashSet}
use zfx_subzero.Prelude.Action.{Action, pure, gets, modify, ◌>>=◌, ◌>>◌}
use zfx_subzero.Graph
use zfx_subzero.Graph.Dag.{Dag, remove_vx}
use zfx_subzero.Graph.ConflictGraph.{ConflictGraph}
use zfx_subzero.Graph.ConflictGraph.Removal.{accept_cell, remove_cell}
use zfx_subzero.Storage.Txs.{set_status}
use zfx_subzero.Sleet.{Error}
use zfx_subzero.Sleet.Tx.{TxHash, Tx, rejected, removed}
use zfx_subzero.Sleet.State.{Env, Sleet, on_conflict_graph, on_dag, on_known_txs}

-- The children of a vertex that is removed; none if it is not there.
abbrev pub children_or_none : Result Graph.Error (HashSet TxHash) → List TxHash
children_or_none (ok ch) = ch
children_or_none (err e) = []
children_or_none panic = []

module _ {env : Env} where
  unfoldable pub reject_all : List TxHash → List TxHash → Action (Sleet env) Error (List TxHash)
  reject_all [] children = pure children
  reject_all (hash ∷ rest) children = do
    on_known_txs (set_status env.sled hash rejected)
    ch ← on_dag (remove_vx hash)
    reject_all rest (children ++ ch)

  abbrev pub drop_vx : TxHash → Action (Sleet env) Error (List TxHash)
  drop_vx hash s =
      (record s { dag = (remove_vx hash s.dag).0 }, ok (children_or_none (remove_vx hash s.dag).1))

  -- What a round does to a transaction of the queue.
  unfoldable pub remove_one : TxHash → Action (Sleet env) Error (List TxHash)
  remove_one hash = do
    on_known_txs (set_status env.sled hash removed)
    on_conflict_graph (remove_cell env.crypto hash)
    drop_vx hash

  unfoldable pub remove_progeny : ℕ → List TxHash → Action (Sleet env) Error (Unit {0})
  remove_progeny zero children = λ s. (s, panic)
  remove_progeny (suc n) [] = pure tt
  remove_progeny (suc n) (hash ∷ rest) = do ch ← remove_one hash; remove_progeny n (rest ++ ch)

  unfoldable pub remove_conflicts : Tx → Action (Sleet env) Error (Unit {0})
  remove_conflicts tx = do
    hashes ← on_conflict_graph (accept_cell env.crypto tx.cell)
    children ← reject_all hashes []
    fuel ← gets (λ s. suc (length s.conflict_graph.cs))
    remove_progeny fuel children
