-- ===== src/Graph/DependencyGraph.antt =====
-- src/graph/dependency_graph.rs: the graph that orders the cells of a block, from the ids of the
-- outputs that a cell makes to those that it spends. `sorted` is the deque of the source, its front
-- first; `roots` is a vector, its last element last.
pub mod Ending
pub mod Order
pub mod Complete
pub mod Roots
use zfx_subzero.Prelude.{
  ℕ, zero, suc, ◌+◌, ◌*◌, Bool, true, false, not, ◌||◌, Option, none, some, List, [], ◌∷◌, ◌++◌,
  if◌then◌else◌, length, Result, ok, err, panic, ◌>>=◌, nat_eq,
}
use zfx_subzero.Prelude.HashMap.{is_some}
use zfx_subzero.Cell.Types.{Cell, Crypto}
use zfx_subzero.Cell.Ids.{CellIds, from_inputs, from_outputs, intersects_with}
use zfx_subzero.Cell.Maps.{IdsMap, same_ids, get}
use zfx_subzero.Cell.Maps
use zfx_subzero.Graph.{Error, duplicate_cell, undefined_cell}

pub record DependencyGraph : Type 0 where
  pub dh : IdsMap CellIds
  pub roots : List CellIds

-- `DependencyGraph::new`
abbrev pub empty_graph : DependencyGraph
empty_graph = record { dh = []; roots = [] }

unfoldable pub has_inbound_edges : IdsMap CellIds → CellIds → Bool
has_inbound_edges [] produced = false
has_inbound_edges ((_, consumed) ∷ dh) produced =
    intersects_with produced consumed || has_inbound_edges dh produced

-- The roots that a cell does not spend from.
unfoldable pub keep_roots : CellIds → List CellIds → List CellIds
keep_roots consumed [] = []
keep_roots consumed (root ∷ roots) =
    let rest = keep_roots consumed roots in
    if intersects_with consumed root then rest else root ∷ rest

unfoldable pub insert : Crypto → Cell → DependencyGraph → Result Error DependencyGraph
insert crypto cell g =
    let produced = from_outputs crypto (crypto.hash_cell cell) cell.outputs in
    let consumed = from_inputs crypto cell.inputs in
    let dh = Maps.insert produced consumed g.dh in
    let roots = keep_roots consumed g.roots in
    if is_some (get produced g.dh)
    then err duplicate_cell
    else ok (record {
      dh = dh;
      roots = if has_inbound_edges dh produced then roots else roots ++ produced ∷ [];
    })

-- The producers among the entries of `rest` that lost their last inbound edge, in the graph.
unfoldable pub new_roots : IdsMap CellIds → CellIds → IdsMap CellIds → List CellIds
new_roots graph removed [] = []
new_roots graph removed ((producer, _) ∷ rest) =
    let others = new_roots graph removed rest in
    if intersects_with producer removed
    then (if has_inbound_edges graph producer then others else producer ∷ others)
    else others

-- `roots.pop()`: the last root and those before it.
unfoldable pub pop : CellIds → List CellIds → List CellIds × CellIds
pop root [] = ([], root)
pop root (next ∷ roots) = let (before, last) = pop next roots in (root ∷ before, last)

-- The loop of `topological`, on fuel.
unfoldable pub sort_loop :
    ℕ → List CellIds → IdsMap CellIds → List CellIds → Result Error (List CellIds)
sort_loop fuel [] graph sorted = ok sorted
sort_loop zero (r ∷ rs) graph sorted = panic
sort_loop (suc fuel) (r ∷ rs) graph sorted =
    let (roots, root) = pop r rs in
    let cut = Maps.insert root [] graph in
    elim (get root graph) [
      | none ↦ err undefined_cell
      | some removed ↦ sort_loop fuel (roots ++ new_roots cut removed cut) cut (root ∷ sorted)
    ]

-- The fuel of `topological`: every root of the graph, and for every vertex one round for each vertex.
abbrev pub rounds : DependencyGraph → ℕ
rounds g = length g.roots + length g.dh * length g.dh

unfoldable pub topological : DependencyGraph → Result Error (List CellIds)
topological g = sort_loop (rounds g) g.roots g.dh []

module _ (crypto : Crypto) where
  -- The cells with the ids.
  unfoldable pub cells_with : CellIds → List Cell → List Cell
  cells_with ids [] = []
  cells_with ids (cell ∷ cells) =
      let rest = cells_with ids cells in
      if same_ids (from_outputs crypto (crypto.hash_cell cell) cell.outputs) ids
      then cell ∷ rest
      else rest

  unfoldable pub cells_in_order : List CellIds → List Cell → List Cell
  cells_in_order [] cells = []
  cells_in_order (ids ∷ sorted) cells = cells_with ids cells ++ cells_in_order sorted cells

  unfoldable pub topological_cells : List Cell → DependencyGraph → Result Error (List Cell)
  topological_cells cells g = topological g >>= λ sorted. ok (cells_in_order sorted cells)
