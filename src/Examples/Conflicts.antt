-- ===== src/Examples/Conflicts.antt =====
-- Two cells that spend the same output, in the graph of src/graph/conflict_graph.rs.
use zfx_subzero.Prelude.{
  ℕ, ◌≡◌, refl, ◌&&◌, ◌||◌, true, not, none, some, [], ◌∷◌, ok, err, eqb, if◌then◌else◌, arith,
  nat_eq,
}
use zfx_subzero.Prelude.HashSet
use zfx_subzero.Prelude.HashSet.{contains}
use zfx_subzero.Prelude.HashMap
use zfx_subzero.Prelude.HashMap.{HashMap}
use zfx_subzero.Cell.Types.{Cell, CellHash}
use zfx_subzero.Cell.Ids.{from_inputs, from_outputs, cell_id, ids_from}
use zfx_subzero.Graph.{duplicate_cell}
use zfx_subzero.Graph.ConflictGraph.{
  ConflictGraph, ConflictSet, pending, accepted, insert_cell, insert_new, spend, enter,
  open_vertices, link, join_sets, vote_in, own_set, first_conflict, new_set,
  remove_from_conflict_set,
}
use zfx_subzero.Graph.ConflictGraph.Rivals.{rivals}
use zfx_subzero.Graph.ConflictGraph.Insertion.{members, insert_cell-members}
use zfx_subzero.Graph.ConflictGraph.Symmetry.{IsSymmetric, insert_cell-IsSymmetric}
use zfx_subzero.Graph.ConflictGraph.Retry.{insert_cell-retry}
use zfx_subzero.Graph.ConflictGraph.Removal.{
  accept_cell, edit_vertices, remove_cells, remove_cell, remove_from_vertices, leave_sets, forget,
  settle,
}
use zfx_subzero.Graph.ConflictGraph.Removal.Acceptance.{accept_cell-removes}
use zfx_subzero.Examples.Cells.{toy, output}

-- A cell that spends the first output of cell 1; its capacity is its hash in `toy`.
abbrev pub spender : ℕ → Cell
spender capacity = record {
  inputs =
      record {
        output_index = record { cell_hash = 1; index = 0 };
        unlock = record { public_key = 7; signature = 0 };
      }
      ∷ [];
  outputs = output 7 capacity ∷ [];
}

abbrev genesis : ConflictGraph
genesis = record {
  vertices = (256, record { spenders = []; status = accepted }) ∷ [];
  cells = [];
  cs = [];
  insertion_order = [];
}

-- The graph after `insert_cell` of the first spender, and then with `cnt` votes for it.
abbrev pub pending_graph : ℕ → ConflictGraph
pending_graph cnt = record {
  vertices =
      (256, record { spenders = 10 ∷ []; status = accepted })
      ∷ (2560, record { spenders = []; status = pending })
      ∷ [];
  cells = (10, spender 10) ∷ [];
  cs = (10, record { conflicts = 10 ∷ []; pref = 10; last = 10; cnt = cnt }) ∷ [];
  insertion_order = 10 ∷ [];
}

first_insertion : insert_cell toy (spender 10) genesis ≡ (pending_graph 0, ok tt)
unfolding insert_cell insert_new spend enter open_vertices link join_sets vote_in own_set
    first_conflict new_set from_inputs from_outputs cell_id ids_from HashMap.get HashMap.insert
    HashMap.modify HashSet.extend HashSet.insert HashSet.contains
first_insertion = refl

pub second_insertion : (insert_cell toy (spender 20) (pending_graph 20)).1 ≡ ok tt
unfolding insert_cell insert_new spend enter open_vertices link join_sets vote_in own_set
    first_conflict new_set from_inputs from_outputs cell_id ids_from HashMap.get HashMap.insert
    HashMap.modify HashSet.extend HashSet.insert HashSet.contains
second_insertion = refl

insert_cell-members_example :
    members (insert_cell toy (spender 20) (pending_graph 20)).0.cs 10 20 ≡ (
      if eqb 20 10
      then eqb 20 20 || rivals (pending_graph 20).vertices (from_inputs toy (spender 20).inputs) 20
      else (members (pending_graph 20).cs 10 20
          || rivals (pending_graph 20).vertices (from_inputs toy (spender 20).inputs) 10
            && eqb 20 20))
insert_cell-members_example =
    insert_cell-members toy (spender 20) (pending_graph 20) 10 20 second_insertion

pending-IsSymmetric : IsSymmetric (pending_graph 20).cs
unfolding IsSymmetric members HashMap.get HashSet.contains
pending-IsSymmetric a b = ground arith

pending_fresh : HashMap.get 20 (pending_graph 20).cs ≡ none
unfolding HashMap.get
pending_fresh = refl

insert_cell-IsSymmetric_example : IsSymmetric (insert_cell toy (spender 20) (pending_graph 20)).0.cs
insert_cell-IsSymmetric_example =
    insert_cell-IsSymmetric toy (spender 20) (pending_graph 20) pending-IsSymmetric pending_fresh
      second_insertion

insert_cell-retry_example :
    (insert_cell toy
      (spender 10)
      (record (insert_cell toy (spender 10) (record genesis { vertices = [] })).0 {
        vertices = genesis.vertices;
      })).1
    ≡ err duplicate_cell
insert_cell-retry_example =
    insert_cell-retry toy (spender 10) (record genesis { vertices = [] }) genesis.vertices

pending_found :
    HashMap.get 10 (pending_graph 3).cs
    ≡ some (record { conflicts = 10 ∷ []; pref = 10; last = 10; cnt = 3 })
unfolding HashMap.get
pending_found = refl

-- The graph with both spenders, and after the first one is accepted.
abbrev contested : ConflictGraph
contested = record {
  vertices =
      (256, record { spenders = 10 ∷ 20 ∷ []; status = accepted })
      ∷ (2560, record { spenders = []; status = pending })
      ∷ (5120, record { spenders = []; status = pending })
      ∷ [];
  cells = (10, spender 10) ∷ (20, spender 20) ∷ [];
  cs =
      (10, record { conflicts = 10 ∷ 20 ∷ []; pref = 10; last = 10; cnt = 20 })
      ∷ (20, record { conflicts = 20 ∷ 10 ∷ []; pref = 10; last = 10; cnt = 20 })
      ∷ [];
  insertion_order = 10 ∷ 20 ∷ [];
}

contested_made : insert_cell toy (spender 20) (pending_graph 20) ≡ (contested, ok tt)
unfolding insert_cell insert_new spend enter open_vertices link join_sets vote_in own_set
    first_conflict new_set from_inputs from_outputs cell_id ids_from HashMap.get HashMap.insert
    HashMap.modify HashSet.extend HashSet.insert HashSet.contains
contested_made = refl

first_accepted : (accept_cell toy (spender 10) contested).1 ≡ ok (20 ∷ [])
unfolding accept_cell edit_vertices remove_cells remove_cell remove_from_vertices leave_sets forget
    settle new_set remove_from_conflict_set from_inputs from_outputs cell_id ids_from HashMap.get
    HashMap.insert HashMap.modify HashMap.remove HashSet.extend HashSet.insert HashSet.contains
    HashSet.remove
first_accepted = refl

accept_cell-removes_example :
    (set : ConflictSet) × (HashMap.get 10 contested.cs ≡ some set)
    × ((j : CellHash) → contains (20 ∷ []) j ≡ (not (eqb 10 j) && contains set.conflicts j))
    × ((j : CellHash)
        → contains (20 ∷ []) j ≡ true
        → HashMap.get j (accept_cell toy (spender 10) contested).0.cs ≡ none)
    × (HashMap.get 10 (accept_cell toy (spender 10) contested).0.cs
        ≡ some (record { conflicts = 10 ∷ []; pref = 10; last = 10; cnt = set.cnt }))
accept_cell-removes_example =
    accept_cell-removes toy (spender 10) contested (20 ∷ []) first_accepted
