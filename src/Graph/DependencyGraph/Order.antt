-- ===== src/Graph/DependencyGraph/Order.antt =====
-- src/graph/dependency_graph.rs: the order that `topological` gives.
use zfx_subzero.Prelude.{
  ℕ, zero, suc, ◌≡◌, refl, subst, false, List, [], ◌∷◌, ◌++◌, OnOk, ok, nat_eq, arith, Bool-cases,
  Option-cases, inl, inr, All, All-append, All-map,
}
use zfx_subzero.Prelude.HashMap.{is_some}
use zfx_subzero.Prelude.HashSet
use zfx_subzero.Cell.Types.{Cell, Crypto}
use zfx_subzero.Cell.Ids.{CellIds, from_inputs, from_outputs, intersects_with}
use zfx_subzero.Cell.Maps.{IdsMap, same_ids, get}
use zfx_subzero.Cell.Maps
use zfx_subzero.Graph.DependencyGraph.{
  DependencyGraph, insert, keep_roots, has_inbound_edges, new_roots, pop, sort_loop, topological,
  rounds,
}
use zfx_subzero.Graph.DependencyGraph.Ending.{
  IsVertex, All-pop, topological-ends, IsVertex-insert, IsVertex-inserted, keep_roots-All,
}

-- No cell of the graph spends from the vertex.
abbrev pub IsFree : IdsMap CellIds → CellIds → Type 0
IsFree graph v = has_inbound_edges graph v ≡ false

-- The graph without the edges of the vertices.
unfoldable pub without : List CellIds → IdsMap CellIds → IdsMap CellIds
without [] dh = dh
without (v ∷ vs) dh = Maps.insert v [] (without vs dh)

-- Whoever spends from a vertex of the list comes later in it.
unfoldable pub InOrder : IdsMap CellIds → List CellIds → Type 0
InOrder dh [] = Unit
InOrder dh (v ∷ later) = IsFree (without later dh) v × InOrder dh later

-- A cut frees no vertex less.
IsFree-cut :
    (root v : CellIds) (graph : IdsMap CellIds)
    → IsFree graph v
    → IsFree (Maps.insert root [] graph) v
unfolding has_inbound_edges Maps.insert intersects_with
IsFree-cut root v [] h = ground (arith, HashSet.is_disjoint-empty v)
IsFree-cut root v ((j, edges) ∷ graph) h =
    ground (arith, HashSet.is_disjoint-empty v, IsFree-cut root v graph)

new_roots-IsFree :
    (graph : IdsMap CellIds) (removed : CellIds) (rest : IdsMap CellIds)
    → All (IsFree graph) (new_roots graph removed rest)
unfolding new_roots
new_roots-IsFree graph removed [] = tt
new_roots-IsFree graph removed ((producer, edges) ∷ rest) =
    elim (Bool-cases (intersects_with producer removed)) [
      | inr apart ↦ rw apart (new_roots-IsFree graph removed rest)
      | inl touches ↦ elim (Bool-cases (has_inbound_edges graph producer)) [
        | inl inbound ↦ rw (touches, inbound) (new_roots-IsFree graph removed rest)
        | inr free ↦ rw (touches, free) (free, new_roots-IsFree graph removed rest)
      ]
    ]

sort_loop-InOrder :
    (dh : IdsMap CellIds) (fuel : ℕ) (roots sorted : List CellIds)
    → All (IsFree (without sorted dh)) roots
    → InOrder dh sorted
    → OnOk (InOrder dh) (sort_loop fuel roots (without sorted dh) sorted)
unfolding sort_loop without InOrder
sort_loop-InOrder dh fuel [] sorted free h = h
sort_loop-InOrder dh zero (r ∷ rs) sorted free h = tt
sort_loop-InOrder dh (suc fuel) (r ∷ rs) sorted free h =
    let graph = without sorted dh in
    let (before, last) = All-pop (IsFree graph) r rs free in
    let root = (pop r rs).1 in
    let cut = Maps.insert root [] graph in
    elim (Option-cases (get root graph)) [
      | inl missing ↦ rw (missing, sort_loop) tt
      | inr (removed, found) ↦
          rw (found, sort_loop)
            (sort_loop-InOrder dh fuel ((pop r rs).0 ++ new_roots cut removed cut) (root ∷ sorted)
              (All-append (IsFree cut) (pop r rs).0 (new_roots cut removed cut)
                (All-map (λ v. IsFree-cut root v graph) (pop r rs).0 before)
                (new_roots-IsFree cut removed cut))
              (last, h))
    ]

-- A root is a vertex that no cell spends from.
abbrev pub HasRoots : DependencyGraph → Type 0
HasRoots g = All (IsVertex g.dh) g.roots × All (IsFree g.dh) g.roots

-- A graph whose roots are free vertices gets an order, in which whoever spends comes later.
pub topological-InOrder :
    (g : DependencyGraph)
    → HasRoots g
    → (order : List CellIds) × (topological g ≡ ok order) × InOrder g.dh order
unfolding topological without InOrder
topological-InOrder g (vertices, free) =
    let (order, ends) = topological-ends g vertices in
    (
      order,
      ends,
      subst (OnOk (InOrder g.dh)) ends (sort_loop-InOrder g.dh (rounds g) g.roots [] free tt),
    )

intersects_with-sym : (a b : CellIds) → intersects_with a b ≡ false → intersects_with b a ≡ false
unfolding intersects_with
intersects_with-sym a b h = elim (Bool-cases (HashSet.is_disjoint b a)) [
  | inl apart ↦ rw apart refl
  | inr shared ↦
      let (x, x∈b, x∈a) = HashSet.is_disjoint-witness b a shared in
      absurd (ground (arith, HashSet.is_disjoint-shared a b x x∈a x∈b))
]

IsFree-insert :
    (k edges v : CellIds) (dh : IdsMap CellIds)
    → is_some (get k dh) ≡ false
    → intersects_with v edges ≡ false
    → IsFree dh v
    → IsFree (Maps.insert k edges dh) v
unfolding has_inbound_edges get Maps.insert
IsFree-insert k edges v [] new apart h = ground arith
IsFree-insert k edges v ((j, w) ∷ dh) new apart h = ground (arith, IsFree-insert k edges v dh)

keep_roots-IsFree :
    (k consumed : CellIds) (dh : IdsMap CellIds) (roots : List CellIds)
    → is_some (get k dh) ≡ false
    → All (IsFree dh) roots
    → All (IsFree (Maps.insert k consumed dh)) (keep_roots consumed roots)
unfolding keep_roots
keep_roots-IsFree k consumed dh [] new h = tt
keep_roots-IsFree k consumed dh (root ∷ roots) new h =
    elim (Bool-cases (intersects_with consumed root)) [
      | inl spent ↦ rw spent (keep_roots-IsFree k consumed dh roots new h.1)
      | inr kept ↦ rw kept (
        IsFree-insert k consumed root dh new (intersects_with-sym consumed root kept) h.0,
        keep_roots-IsFree k consumed dh roots new h.1,
      )
    ]

-- The roots stay free vertices.
pub insert-HasRoots :
    (crypto : Crypto) (cell : Cell) (g : DependencyGraph)
    → HasRoots g
    → OnOk HasRoots (insert crypto cell g)
unfolding insert
insert-HasRoots crypto cell g (vertices, free) =
    let produced = from_outputs crypto (crypto.hash_cell cell) cell.outputs in
    let consumed = from_inputs crypto cell.inputs in
    let dh = Maps.insert produced consumed g.dh in
    let kept = keep_roots consumed g.roots in
    let kept_vertices : All (IsVertex dh) kept =
      keep_roots-All (IsVertex dh) consumed g.roots
        (All-map (λ v. IsVertex-insert produced v consumed g.dh) g.roots vertices) in
    elim (Bool-cases (is_some (get produced g.dh))) [
      | inl twice ↦ rw twice tt
      | inr fresh ↦
          let kept_free = keep_roots-IsFree produced consumed g.dh g.roots fresh free in
          elim (Bool-cases (has_inbound_edges dh produced)) [
            | inl spent ↦ rw (fresh, spent) (kept_vertices, kept_free)
            | inr apart ↦
                rw (fresh, apart)
                  (
                    All-append (IsVertex dh) kept (produced ∷ []) kept_vertices
                        (IsVertex-inserted produced consumed g.dh, tt),
                    All-append (IsFree dh) kept (produced ∷ []) kept_free (apart, tt),
                  )
          ]
    ]
