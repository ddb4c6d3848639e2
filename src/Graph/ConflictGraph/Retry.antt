-- ===== src/Graph/ConflictGraph/Retry.antt =====
-- src/graph/conflict_graph.rs: a cell that `insert_cell` has refused.
use zfx_subzero.Prelude.{
  ◌≡◌, refl, ◌∙◌, some, List, [], ◌∷◌, eqb_iff, Result, ok, err, panic, nat_eq, arith, ◌⊎◌,
  Option-cases, inl, inr,
}
use zfx_subzero.Prelude.HashSet.{HashSet}
use zfx_subzero.Prelude.HashMap
use zfx_subzero.Prelude.HashMap.{HashMap, get-insert}
use zfx_subzero.Graph.{Error, duplicate_cell}
use zfx_subzero.Graph.ConflictGraph.{
  ConflictGraph, VertexData, spend, join_sets, own_set, link, vote_in, enter, insert_new,
  insert_cell,
}
use zfx_subzero.Cell.Types.{CellHash, CellId, Cell, Crypto}
use zfx_subzero.Cell.Ids.{from_inputs, from_outputs}

Result-cases {ℓ} :
    {A : Type ℓ} (r : Result Error A)
    → ((a : A) × (r ≡ ok a)) ⊎ ((x : Error) × (r ≡ err x)) ⊎ (r ≡ panic)
Result-cases (ok a) = inl (a, refl)
Result-cases (err x) = inr (inl (x, refl))
Result-cases panic = inr (inr refl)

spend-cells :
    (h : CellHash) (ids : List CellId) (acc : HashSet CellHash) (graph : ConflictGraph)
    → (spend h ids acc graph).0.cells ≡ graph.cells
unfolding spend
spend-cells h [] acc graph = refl
spend-cells h (id ∷ ids) acc graph = elim (Option-cases (HashMap.get id graph.vertices)) [
  | inl vacant ↦ rw (vacant, spend) refl
  | inr (v, found) ↦ rw (found, spend) (spend-cells h ids _ _)
]

vote_in-cells :
    (h : CellHash) (conflicts : HashSet CellHash) (graph : ConflictGraph)
    → (vote_in h conflicts graph).0.cells ≡ graph.cells
unfolding vote_in
vote_in-cells h conflicts graph =
    elim (Result-cases (own_set h conflicts graph.insertion_order graph.cs)) [
      | inl (own, e) ↦ rw (e, vote_in) refl
      | inr (inl (x, e)) ↦ rw (e, vote_in) refl
      | inr (inr e) ↦ rw (e, vote_in) refl
    ]

enter-cells :
    (h : CellHash) (produced : List CellId) (conflicts : HashSet CellHash) (graph : ConflictGraph)
    → (enter h produced conflicts graph).0.cells ≡ graph.cells
unfolding enter link
enter-cells h produced conflicts graph = elim (Result-cases (join_sets h conflicts graph.cs).1) [
  | inl (_, e) ↦ rw e (vote_in-cells h conflicts _)
  | inr (inl (x, e)) ↦ rw e refl
  | inr (inr e) ↦ rw e refl
]

insert_new-cells :
    (crypto : Crypto) (cell : Cell) (graph : ConflictGraph)
    → (insert_new crypto cell graph).0.cells ≡ graph.cells
unfolding insert_new
insert_new-cells crypto cell graph =
    let h = crypto.hash_cell cell in
    let ids = from_inputs crypto cell.inputs in
    elim (Result-cases (spend h ids [] graph).1) [
      | inl (c, e) ↦ rw e (
          enter-cells h (from_outputs crypto h cell.outputs) c (spend h ids [] graph).0
          ∙ spend-cells h ids [] graph)
      | inr (inl (x, e)) ↦ rw e (spend-cells h ids [] graph)
      | inr (inr e) ↦ rw e (spend-cells h ids [] graph)
    ]

insert_cell-cells :
    (crypto : Crypto) (cell : Cell) (graph : ConflictGraph)
    → (insert_cell crypto cell graph).0.cells
      ≡ HashMap.insert (crypto.hash_cell cell) cell graph.cells
unfolding insert_cell
insert_cell-cells crypto cell graph =
    elim (Option-cases (HashMap.get (crypto.hash_cell cell) graph.cells)) [
      | inl fresh ↦ rw (fresh, insert_cell) (insert_new-cells crypto cell _)
      | inr (old, known) ↦ rw (known, insert_cell) refl
    ]

-- Whatever `insert_cell` returns, it has kept the cell: a further attempt fails with `DuplicateCell`,
-- also if the vertices, which decide whether its inputs are known, were changed in between.
pub insert_cell-retry :
    (crypto : Crypto) (cell : Cell) (graph : ConflictGraph) (vertices : HashMap CellId VertexData)
    → (insert_cell crypto cell (record (insert_cell crypto cell graph).0 { vertices = vertices })).1
      ≡ err duplicate_cell
unfolding insert_cell
insert_cell-retry crypto cell graph vertices =
    let stored = insert_cell-cells crypto cell graph in
    let known : HashMap.get (crypto.hash_cell cell) (insert_cell crypto cell graph).0.cells
        ≡ some cell =
      rw stored (
        get-insert (crypto.hash_cell cell) cell graph.cells (crypto.hash_cell cell)
        ∙ ground (arith, eqb_iff (crypto.hash_cell cell) (crypto.hash_cell cell))) in
    rw (known, insert_cell) refl
