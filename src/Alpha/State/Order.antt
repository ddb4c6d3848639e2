-- ===== src/Alpha/State/Order.antt =====
-- src/alpha/state.rs: the order in which the cells of a block are applied.
use zfx_subzero.Prelude.{
  ◌≡◌, List, [], ◌∷◌, ok, map_err, OnOk, OnOk-bind, OnOk-both, OnOk-map_err, OnOk-elim,
}
use zfx_subzero.Cell.Types.{Cell, Crypto}
use zfx_subzero.Cell.Ids.{CellIds}
use zfx_subzero.Graph.DependencyGraph
use zfx_subzero.Graph.DependencyGraph.{DependencyGraph, empty_graph, topological, topological_cells}
use zfx_subzero.Graph.DependencyGraph.Roots.{insert-ListsFree}
use zfx_subzero.Graph.DependencyGraph.Complete.{ListsFree, topological-ListsFree}
use zfx_subzero.Prelude.HashMap.{keys}
use zfx_subzero.Graph.DependencyGraph.Order.{
  without, HasRoots, InOrder, insert-HasRoots, topological-InOrder,
}
use zfx_subzero.Alpha.{graph}
use zfx_subzero.Alpha.State.{depend}

-- The roots are the vertices that no cell spends from.
abbrev HasFreeRoots : DependencyGraph → Type 0
HasFreeRoots g = HasRoots g × ListsFree (keys g.dh) g.dh g.roots

insert-HasFreeRoots :
    (crypto : Crypto) (c : Cell) (g : DependencyGraph)
    → HasFreeRoots g
    → OnOk HasFreeRoots (DependencyGraph.insert crypto c g)
insert-HasFreeRoots crypto c g (roots, free) =
    OnOk-both HasRoots (λ h. ListsFree (keys h.dh) h.dh h.roots) (DependencyGraph.insert crypto c g)
      (insert-HasRoots crypto c g roots) (insert-ListsFree crypto c g free)

depend-HasFreeRoots :
    (crypto : Crypto) (cells : List Cell) (g : DependencyGraph)
    → HasFreeRoots g
    → OnOk HasFreeRoots (depend crypto cells g)
unfolding depend
depend-HasFreeRoots crypto [] g h = h
depend-HasFreeRoots crypto (c ∷ cells) g h =
    let inserted = map_err graph (DependencyGraph.insert crypto c g) in
    OnOk-bind HasFreeRoots inserted (depend crypto cells) (λ next eq.
      depend-HasFreeRoots crypto cells next (
        OnOk-elim HasFreeRoots eq (
          OnOk-map_err HasFreeRoots graph (DependencyGraph.insert crypto c g)
            (insert-HasFreeRoots crypto c g h))))

-- The cells of a block, once in the dependency graph, get an order: `topological` answers; in its
-- answer a cell that spends an output of another comes after it; and a cell that it leaves out is
-- spent from by another that it leaves out.
pub depend-InOrder :
    (crypto : Crypto) (cells : List Cell) (dg : DependencyGraph)
    → depend crypto cells empty_graph ≡ ok dg
    → (order : List CellIds) × (topological dg ≡ ok order)
      × InOrder dg.dh order
      × ListsFree (keys dg.dh) (without order dg.dh) order
depend-InOrder crypto cells dg h =
    let (roots, free) =
      OnOk-elim HasFreeRoots h (depend-HasFreeRoots crypto cells empty_graph ((tt, tt), tt)) in
    let (order, ends, sorted) = topological-InOrder dg roots in
    let P : List CellIds → Type 0 = λ order. ListsFree (keys dg.dh) (without order dg.dh) order in
    (order, ends, sorted, OnOk-elim P ends (topological-ListsFree dg free))
