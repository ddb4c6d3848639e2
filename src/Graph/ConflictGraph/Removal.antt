-- ===== src/Graph/ConflictGraph/Removal.antt =====
-- src/graph/conflict_graph.rs: `accept_cell`, `remove_cell` and what they call.
pub mod Acceptance
use zfx_subzero.Prelude.{
  none, some, List, [], ◌∷◌, eqb, if◌then◌else◌, ok, err, panic, unwrap, nat_eq,
}
use zfx_subzero.Prelude.HashSet
use zfx_subzero.Prelude.HashSet.{HashSet}
use zfx_subzero.Prelude.HashMap
use zfx_subzero.Prelude.HashMap.{HashMap}
use zfx_subzero.Prelude.Action.{Action, pure, modify, ◌>>=◌, ◌>>◌}
use zfx_subzero.Graph.{Error, undefined_cell}
use zfx_subzero.Graph.ConflictGraph.{
  ConflictGraph, ConflictSet, VertexData, accepted, rejected, new_set, remove_from_conflict_set,
}
use zfx_subzero.Cell.Types.{CellHash, CellId, Cell, Crypto}
use zfx_subzero.Cell.Ids.{from_inputs, from_outputs}

-- A loop over ids that edits the vertex of each. One without a vertex panics.
unfoldable pub edit_vertices :
    (VertexData → VertexData) → List CellId → Action ConflictGraph Error (Unit {0})
edit_vertices f [] graph = (graph, ok tt)
edit_vertices f (id ∷ ids) graph =
    let later =
      edit_vertices f ids (record graph { vertices = HashMap.modify id f graph.vertices }) in
    if HashMap.contains_key id graph.vertices then later else (graph, panic)

-- The loop that takes a cell out of the other conflict sets.
unfoldable pub leave_sets :
    CellHash → List CellHash → HashMap CellHash ConflictSet → HashMap CellHash ConflictSet
leave_sets cell_hash [] cs = cs
leave_sets cell_hash (conflict ∷ conflicts) cs = leave_sets cell_hash conflicts (
    if eqb cell_hash conflict
    then cs
    else HashMap.modify conflict (remove_from_conflict_set cell_hash) cs)

-- The conflict set of a cell, which is otherwise invalid.
abbrev pub own_conflicts : CellHash → Action ConflictGraph Error ConflictSet
own_conflicts cell_hash graph = elim (HashMap.get cell_hash graph.cs) [
  | some set ↦ (graph, ok set)
  | none ↦ (graph, err undefined_cell)
]

-- What `remove_cell` takes out of the graph besides the vertices.
unfoldable pub forget : CellHash → ConflictSet → ConflictGraph → ConflictGraph
unfolding leave_sets
forget cell_hash set graph = record graph {
  cells = HashMap.remove cell_hash graph.cells;
  cs = HashMap.remove cell_hash (leave_sets cell_hash set.conflicts graph.cs);
  insertion_order = HashSet.remove cell_hash graph.insertion_order;
}

-- The new set of an accepted cell.
unfoldable pub settle : CellHash → ConflictSet → ConflictGraph → ConflictGraph
unfolding new_set
settle cell_hash set graph = record graph {
  cs = HashMap.insert cell_hash (record (new_set cell_hash) { cnt = set.cnt }) graph.cs;
}

module _ (crypto : Crypto) where
  unfoldable pub remove_from_vertices : CellHash → Action ConflictGraph Error (Unit {0})
  unfolding edit_vertices
  remove_from_vertices cell_hash = do
    cell ← (λ graph. (graph, unwrap (HashMap.get cell_hash graph.cells)))
    edit_vertices (λ v. record v { status = rejected }) (from_outputs crypto cell_hash cell.outputs)
    edit_vertices (λ v. record v { spenders = HashSet.remove cell_hash v.spenders })
        (from_inputs crypto cell.inputs)

  unfoldable pub remove_cell : CellHash → Action ConflictGraph Error (Unit {0})
  unfolding remove_from_vertices forget
  remove_cell cell_hash = do
    set ← own_conflicts cell_hash
    remove_from_vertices cell_hash
    modify (forget cell_hash set)

  unfoldable pub remove_cells : CellHash → List CellHash → Action ConflictGraph Error (Unit {0})
  unfolding remove_cell
  remove_cells cell_hash [] = pure tt
  remove_cells cell_hash (conflict ∷ conflicts) = do
    (if eqb cell_hash conflict then pure tt else remove_cell conflict)
    remove_cells cell_hash conflicts

  unfoldable pub accept_cell : Cell → Action ConflictGraph Error (List CellHash)
  unfolding remove_cells edit_vertices settle
  accept_cell cell = do
    let cell_hash = crypto.hash_cell cell
    edit_vertices (λ v. record v { status = accepted }) (from_outputs crypto cell_hash cell.outputs)
    set ← own_conflicts cell_hash
    remove_cells cell_hash set.conflicts
    modify (settle cell_hash set)
    pure (HashSet.remove cell_hash set.conflicts)
