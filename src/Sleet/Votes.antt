-- ===== src/Sleet/Votes.antt =====
-- src/sleet/sleet.rs: the votes along the ancestors: `update_ancestral_preference` and
-- `reset_ancestor_confidence`.
pub mod Reset
use zfx_subzero.Prelude.{Bool, List, [], ◌∷◌, Result, ok, nat_eq, map_err}
use zfx_subzero.Prelude.Action.{Action, pure, modify, ◌>>=◌, ◌>>◌}
use zfx_subzero.Graph
use zfx_subzero.Graph.Dag.Search.{dfs, conviction}
use zfx_subzero.Graph.ConflictGraph.{ConflictGraph}
use zfx_subzero.Graph.ConflictGraph.Votes.{get_preferred, update_conflict_set, reset_count}
use zfx_subzero.Sleet.{Error, graph}
use zfx_subzero.Sleet.Tx.{TxHash}
use zfx_subzero.Sleet.State.{Env, Sleet}

module _ {env : Env} where
  -- An update of the conflict graph that may fail; then nothing changes.
  abbrev pub try_graph :
      (ConflictGraph → Result Graph.Error ConflictGraph) → Action (Sleet env) Error (Unit {0})
  try_graph f = do
    changed ← (λ s. (s, map_err graph (f s.conflict_graph)))
    modify (λ s. record s { conflict_graph = changed })

  unfoldable pub update_preference : TxHash → Action (Sleet env) Error (Unit {0})
  update_preference tx_hash = do
    pref ← (λ s. (s, map_err graph (get_preferred s.conflict_graph tx_hash)))
    d1 ← (λ s. (s, map_err graph (conviction s.dag tx_hash)))
    d2 ← (λ s. (s, map_err graph (conviction s.dag pref)))
    try_graph (update_conflict_set tx_hash d1 d2)

  -- A loop of actions over the ancestors.
  unfoldable pub for_each :
      (TxHash → Action (Sleet env) Error (Unit {0}))
      → List TxHash
      → Action (Sleet env) Error (Unit {0})
  for_each f [] = pure tt
  for_each f (x ∷ xs) = f x >> for_each f xs

  unfoldable pub update_ancestral_preference : TxHash → Action (Sleet env) Error (Unit {0})
  update_ancestral_preference root_txhash s = for_each update_preference (dfs s.dag root_txhash) s

  unfoldable pub reset_ancestor_confidence : TxHash → Action (Sleet env) Error (Unit {0})
  reset_ancestor_confidence root_txhash s =
      for_each (λ tx_hash. try_graph (reset_count tx_hash)) (dfs s.dag root_txhash) s
