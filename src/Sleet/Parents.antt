-- ===== src/Sleet/Parents.antt =====
-- src/sleet/sleet.rs: the choice of parents, `select_parents`.
pub mod Selection
use zfx_subzero.Prelude.{
  ℕ, Bool, true, false, not, ◌&&◌, List, [], ◌∷◌, ◌++◌, leb, length, if◌then◌else◌, Result, ok,
  nat_eq, map_err, ◌>>=◌,
}
use zfx_subzero.Prelude.HashSet
use zfx_subzero.Prelude.HashMap
use zfx_subzero.Graph
use zfx_subzero.Graph.Dag.{leaves}
use zfx_subzero.Graph.Dag.Search.{dfs, conviction}
use zfx_subzero.Graph.ConflictGraph.{ConflictGraph}
use zfx_subzero.Graph.ConflictGraph.Votes.{get_preferred, update_conflict_set, reset_count}
use zfx_subzero.Sleet.{Error, graph}
use zfx_subzero.Sleet.Tx.{TxHash}
use zfx_subzero.Sleet.State.{Env, Sleet}
use zfx_subzero.Sleet.Ancestors.{is_strongly_preferred}

-- `NPARENTS`
abbrev pub nparents : ℕ
nparents = 3

-- The vectors that are filled.
pub record Choices : Type 0 where
  pub parents : List TxHash
  pub accessible : List TxHash

module _ {env : Env} where
  unfoldable pub choose : Sleet env → TxHash → Choices → Choices
  choose s elt c = record {
    parents = c.parents ++ elt ∷ [];
    accessible = c.accessible ++ dfs s.dag elt;
  }

  -- The first loop: leaves that are strongly preferred.
  unfoldable pub prefer_leaves : Sleet env → ℕ → List TxHash → Choices → Result Error Choices
  prefer_leaves s p [] c = ok c
  prefer_leaves s p (leaf ∷ rest) c =
      let looked = is_strongly_preferred s leaf >>= λ preferred.
      prefer_leaves s p rest (if preferred then choose s leaf c else c) in
      if leb p (length c.parents) then ok c else looked

  -- The loop over the ancestors of a leaf, up to the first that is chosen.
  unfoldable pub prefer_ancestor : Sleet env → ℕ → List TxHash → Choices → Result Error Choices
  unfolding HashSet.contains
  prefer_ancestor s p [] c = ok c
  prefer_ancestor s p (elt ∷ rest) c =
      let looked = is_strongly_preferred s elt >>= λ preferred.
      if preferred
        && not (HashSet.contains c.parents elt)
        && not (HashSet.contains c.accessible elt)
      then ok (choose s elt c)
      else prefer_ancestor s p rest c in
      if leb p (length c.parents) then ok c else looked

  -- The second loop. Once `p` parents are found each further round ends at once, like `break 'outer`.
  unfoldable pub prefer_ancestors : Sleet env → ℕ → List TxHash → Choices → Result Error Choices
  prefer_ancestors s p [] c = ok c
  prefer_ancestors s p (leaf ∷ rest) c = do
    c' ← prefer_ancestor s p (dfs s.dag leaf) c
    prefer_ancestors s p rest c'

  unfoldable pub select_parents : Sleet env → ℕ → Result Error (List TxHash)
  select_parents s p =
      let chosen : Result Error (List TxHash) = do
        c ← prefer_leaves s p (leaves s.dag) (record { parents = []; accessible = [] })
        c' ← prefer_ancestors s p (leaves s.dag) c
        ok c'.parents
      in if HashMap.is_empty s.dag.g then ok [] else chosen
