-- ===== src/Graph/ConflictGraph/Symmetry.antt =====
-- src/graph/conflict_graph.rs: conflict is mutual.
use zfx_subzero.Prelude.{◌≡◌, refl, false, none, ok, nat_eq, eqb_iff, arith}
use zfx_subzero.Prelude.HashMap
use zfx_subzero.Prelude.HashMap.{HashMap}
use zfx_subzero.Graph.ConflictGraph.{ConflictGraph, ConflictSet, insert_cell}
use zfx_subzero.Graph.ConflictGraph.Insertion.{members, insert_cell-members}
use zfx_subzero.Cell.Types.{CellHash, Cell, Crypto}

members-none :
    (h x : CellHash) (cs : HashMap CellHash ConflictSet)
    → HashMap.get h cs ≡ none
    → members cs h x ≡ false
unfolding members
members-none h x cs fresh = rw (fresh, members) refl

-- Conflict is mutual.
unfoldable pub IsSymmetric : HashMap CellHash ConflictSet → Type 0
IsSymmetric cs = (a b : CellHash) → members cs a b ≡ members cs b a

-- If conflict is mutual and the cell has no conflict set yet, then conflict is mutual after a
-- successful `insert_cell`.
pub insert_cell-IsSymmetric :
    (crypto : Crypto) (cell : Cell) (graph : ConflictGraph)
    → IsSymmetric graph.cs
    → HashMap.get (crypto.hash_cell cell) graph.cs ≡ none
    → (insert_cell crypto cell graph).1 ≡ ok tt
    → IsSymmetric (insert_cell crypto cell graph).0.cs
unfolding IsSymmetric
insert_cell-IsSymmetric crypto cell graph same fresh e a b =
    let h = crypto.hash_cell cell in
    rw (insert_cell-members crypto cell graph a b e, insert_cell-members crypto cell graph b a e)
      (ground (
        arith,
        same a b,
        same h a,
        same h b,
        members-none h a graph.cs fresh,
        members-none h b graph.cs fresh,
        eqb_iff h a,
        eqb_iff h b,
      ))
