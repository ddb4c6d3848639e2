-- ===== src/Sleet/Frontier.antt =====
-- src/sleet/sleet.rs: the accepted frontier, `compute_accepted_frontier`, and the pruning there.
pub mod Covering
use zfx_subzero.Prelude.{
  Bool, true, false, not, List, [], ◌∷◌, if◌then◌else◌, Result, ok, err, panic, nat_eq, ◌>>=◌,
}
use zfx_subzero.Prelude.HashSet
use zfx_subzero.Prelude.HashSet.{HashSet}
use zfx_subzero.Prelude.HashMap.{HashMap}
use zfx_subzero.Prelude.Action.{Action, and_then}
use zfx_subzero.Graph.Dag.{Dag, leaves, remove_vx}
use zfx_subzero.Graph.Dag.Search.{dfs}
use zfx_subzero.Sleet.{Error}
use zfx_subzero.Sleet.Tx.{TxHash}
use zfx_subzero.Sleet.State.{Env, Sleet}
use zfx_subzero.Sleet.Ancestors.{is_accepted_memo}

-- The variables of the loops.
pub record Search : Type 0 where
  pub frontier : HashSet TxHash
  pub above_frontier : HashSet TxHash
  pub memo : HashMap TxHash Bool

unfoldable pub to_be_pruned : Dag TxHash → List TxHash → HashSet TxHash → HashSet TxHash
unfolding HashSet.extend
to_be_pruned dag [] pruned = pruned
to_be_pruned dag (f ∷ frontier) pruned =
    to_be_pruned dag frontier (HashSet.extend pruned (dfs dag f))

-- `let _ = self.dag.remove_vx(a)`: an error is ignored.
unfoldable pub prune : HashSet TxHash → List TxHash → Dag TxHash → Dag TxHash
unfolding HashSet.contains
prune frontier [] dag = dag
prune frontier (a ∷ rest) dag =
    prune frontier rest (if HashSet.contains frontier a then dag else (remove_vx a dag).0)

module _ {env : Env} where
  -- The accepted transaction goes into the frontier, and what can be reached from it above.
  unfoldable pub collect : Sleet env → TxHash → Search → Search
  unfolding HashSet.insert HashSet.extend
  collect s tx_hash v = record v {
    frontier = HashSet.insert tx_hash v.frontier;
    above_frontier = HashSet.extend v.above_frontier (dfs s.dag tx_hash);
  }

  -- The body of the inner loop.
  unfoldable pub look_at : Sleet env → TxHash → Search → Result Error Search
  unfolding HashSet.contains
  look_at s tx_hash v =
      let (memo, r) = is_accepted_memo s tx_hash v.memo in
      let looked = r >>= λ accepts. ok (
        if accepts
        then collect s tx_hash (record v { memo = memo })
        else record v { memo = memo }) in
      if HashSet.contains v.above_frontier tx_hash then ok v else looked

  unfoldable pub search_ancestors : Sleet env → List TxHash → Search → Result Error Search
  search_ancestors s [] v = ok v
  search_ancestors s (tx_hash ∷ rest) v = do v' ← look_at s tx_hash v; search_ancestors s rest v'

  unfoldable pub search_leaves : Sleet env → List TxHash → Search → Result Error Search
  search_leaves s [] v = ok v
  search_leaves s (leaf ∷ rest) v = do
    v' ← search_ancestors s (dfs s.dag leaf) v
    search_leaves s rest v'

  unfoldable pub compute_accepted_frontier : Action (Sleet env) Error (Unit {0})
  compute_accepted_frontier s =
      let start : Search = record { frontier = []; above_frontier = []; memo = [] } in
      elim (search_leaves s (leaves s.dag) start) [
        | ok v ↦ (record s { accepted_frontier = v.frontier }, ok tt)
        | err e ↦ (s, err e)
        | panic ↦ (s, panic)
      ]

  unfoldable pub prune_at_accepted_frontier : Action (Sleet env) Error (Unit {0})
  prune_at_accepted_frontier s =
      let (s', r) = compute_accepted_frontier s in
      and_then r
        (λ _. λ t. (
          record t {
            dag = prune t.accepted_frontier (to_be_pruned t.dag t.accepted_frontier []) t.dag;
          },
          ok tt,
        ))
        s'
