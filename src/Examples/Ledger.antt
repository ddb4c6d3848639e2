-- ===== src/Examples/Ledger.antt =====
-- The state of src/alpha/state.rs and the order of src/graph/dependency_graph.rs, on a coinbase of 100
-- and two cells that both spend it.
use zfx_subzero.Prelude.{ℕ, ◌*◌, ◌≡◌, refl, List, [], ◌∷◌, ok, err, OnOk, nat_eq}
use zfx_subzero.Prelude.HashSet
use zfx_subzero.Cell.Types.{Cell, Input, CellType}
use zfx_subzero.Cell.Ids.{
  CellIds, from_inputs, from_outputs, cell_id, ids_from, intersects_with, intersect,
  left_difference,
}
use zfx_subzero.Cell.Maps
use zfx_subzero.Cell.Maps.{same_ids}
use zfx_subzero.Graph.DependencyGraph.{
  DependencyGraph, empty_graph, insert, keep_roots, has_inbound_edges, topological,
}
use zfx_subzero.Graph.DependencyGraph.Order.{InOrder, without}
use zfx_subzero.Graph.DependencyGraph.Complete.{ListsFree}
use zfx_subzero.Prelude.HashMap.{keys}
use zfx_subzero.Alpha.{existing_cell_ids}
use zfx_subzero.Alpha.State.{
  State, new_state, apply_cell, apply_cells, depend, settle, produce, produce_output, store,
  balance, consume_live, consume_outputs, remove_intersection, remove_live, verify, verify_output,
  verify_outputs,
}
use zfx_subzero.Alpha.State.Order.{depend-InOrder}
use zfx_subzero.Alpha.State.Spending.{Applied, apply_cell-Applied}
use zfx_subzero.Examples.Cells.{toy, output}

abbrev allocation : Cell
allocation = record {
  inputs = [];
  outputs = record { capacity = 100; cell_type = CellType.coinbase; state = []; lock = 7 } ∷ [];
}

-- The output at position 0 of the allocation.
abbrev spend : Input
spend = record {
  output_index = record { cell_hash = 100; index = 0 };
  unlock = record { public_key = 7; signature = 0 };
}

abbrev first : Cell
first = record { inputs = spend ∷ []; outputs = output 8 97 ∷ [] }

abbrev second : Cell
second = record { inputs = spend ∷ []; outputs = output 9 95 ∷ [] }

abbrev live_from : List Cell → List (CellIds × Cell)
live_from [] = []
live_from (c ∷ cells) = (256 * toy.hash_cell c ∷ [], c) ∷ live_from cells

abbrev ledger : ℕ → List Cell → State
ledger spending cells = record new_state {
  total_spending_capacity = spending;
  live_cells = live_from cells;
}

-- Both cells are applied, so that the allocation of 100 is spent twice.
spent_twice :
    apply_cells toy (allocation ∷ first ∷ second ∷ []) new_state
    ≡ ok (ledger 92 (allocation ∷ first ∷ second ∷ []))
unfolding apply_cells apply_cell settle produce produce_output store balance consume_live
    consume_outputs remove_intersection remove_live verify verify_output verify_outputs same_ids
    Maps.get Maps.insert from_inputs from_outputs cell_id ids_from intersects_with intersect
    left_difference HashSet.extend HashSet.insert HashSet.contains HashSet.is_disjoint
    HashSet.intersection HashSet.difference
spent_twice = refl

-- A cell that spends two live cells whole is refused: the keys that they leave are the same.
abbrev spend_from : ℕ → Input
spend_from cell_hash = record {
  output_index = record { cell_hash = cell_hash; index = 0 };
  unlock = record { public_key = 7; signature = 0 };
}

abbrev merged : Cell
merged = record { inputs = spend_from 97 ∷ spend_from 95 ∷ []; outputs = output 8 189 ∷ [] }

two_spent_whole : apply_cell toy merged (ledger 192 (first ∷ second ∷ [])) ≡ err existing_cell_ids
unfolding apply_cell settle produce produce_output store balance consume_live consume_outputs
    remove_intersection remove_live verify verify_output verify_outputs same_ids Maps.get
    Maps.insert from_inputs from_outputs cell_id ids_from intersects_with intersect left_difference
    HashSet.extend HashSet.insert HashSet.contains HashSet.is_disjoint HashSet.intersection
    HashSet.difference
two_spent_whole = refl

apply_cell-Applied_example :
    OnOk
      (Applied toy first (ledger 100 (allocation ∷ [])))
      (apply_cell toy first (ledger 100 (allocation ∷ [])))
apply_cell-Applied_example = apply_cell-Applied toy first (ledger 100 (allocation ∷ []))

-- The cell before the allocation that it spends.
abbrev sorted_out : DependencyGraph
sorted_out = record {
  dh = (24832 ∷ [], 25600 ∷ []) ∷ (25600 ∷ [], []) ∷ [];
  roots = (24832 ∷ []) ∷ [];
}

depended : depend toy (first ∷ allocation ∷ []) empty_graph ≡ ok sorted_out
unfolding depend insert keep_roots has_inbound_edges same_ids Maps.get Maps.insert from_inputs
    from_outputs cell_id ids_from intersects_with left_difference HashSet.extend HashSet.insert
    HashSet.contains HashSet.is_disjoint HashSet.difference
depended = refl

depend-InOrder_example :
    (order : List CellIds) × (topological sorted_out ≡ ok order)
    × InOrder sorted_out.dh order
    × ListsFree (keys sorted_out.dh) (without order sorted_out.dh) order
depend-InOrder_example = depend-InOrder toy (first ∷ allocation ∷ []) sorted_out depended
