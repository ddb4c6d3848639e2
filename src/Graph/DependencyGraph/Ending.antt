-- ===== src/Graph/DependencyGraph/Ending.antt =====
-- src/graph/dependency_graph.rs: how many rounds the loop of `topological` takes.
use native.Mathlib.Nat.{mul-le-mul_right}
use zfx_subzero.Prelude.{
  ℕ, zero, suc, ◌+◌, ◌*◌, ◌≤◌, ◌≡◌, refl, ap, true, some, List, [], ◌∷◌, ◌++◌, length,
  length-append, All, All-map, All-append, ok, nat_eq, arith, Bool-cases, Option-cases, inl, inr,
  subst,
}
use zfx_subzero.Prelude.HashMap.{is_some, keys}
use zfx_subzero.Prelude.HashSet
use zfx_subzero.Cell.Ids.{CellIds, intersects_with}
use zfx_subzero.Cell.Maps.{IdsMap, same_ids, same_ids_refl, get}
use zfx_subzero.Cell.Maps
use zfx_subzero.Graph.DependencyGraph.{
  DependencyGraph, new_roots, pop, sort_loop, topological, has_inbound_edges, rounds, keep_roots,
}

-- 1 for a vertex that still has edges.
abbrev weight : CellIds → ℕ
weight [] = 0
weight (x ∷ xs) = 1

-- The number of vertices that still have edges.
with_edges : IdsMap CellIds → ℕ
with_edges [] = 0
with_edges ((_, edges) ∷ graph) = weight edges + with_edges graph

with_edges_le : (graph : IdsMap CellIds) → with_edges graph ≤ length graph
unfolding with_edges
with_edges_le [] = omega arith
with_edges_le ((_, []) ∷ graph) = omega (arith, with_edges_le graph)
with_edges_le ((_, x ∷ xs) ∷ graph) = omega (arith, with_edges_le graph)

-- A cut takes the edges of the vertex away, and leaves the others.
with_edges-insert :
    (root : CellIds) (graph : IdsMap CellIds) (removed : CellIds)
    → get root graph ≡ some removed
    → (with_edges graph ≡ weight removed + with_edges (Maps.insert root [] graph))
      × (length (Maps.insert root [] graph) ≡ length graph)
unfolding with_edges get Maps.insert
with_edges-insert root [] removed h = absurd (cc h)
with_edges-insert root ((j, edges) ∷ graph) removed h = elim (Bool-cases (same_ids j root)) [
  | inl same ↦ ground arith
  | inr other ↦ ground (arith, with_edges-insert root graph removed)
]

length-new_roots_le :
    (graph : IdsMap CellIds) (removed : CellIds) (rest : IdsMap CellIds)
    → length (new_roots graph removed rest) ≤ weight removed * length rest
unfolding new_roots intersects_with
length-new_roots_le graph removed [] = ground arith
length-new_roots_le graph [] ((producer, edges) ∷ rest) =
    let rest_small : length (new_roots graph [] rest) ≤ 0 =
      omega (arith, length-new_roots_le graph [] rest) in
    rw (HashSet.is_disjoint-empty producer) (omega arith)
length-new_roots_le graph (x ∷ xs) ((producer, edges) ∷ rest) =
    ground (arith, length-new_roots_le graph (x ∷ xs) rest)

length-pop : (root : CellIds) (roots : List CellIds) → length (pop root roots).0 ≡ length roots
unfolding pop
length-pop root [] = refl
length-pop root (next ∷ roots) = ap suc (length-pop next roots)

-- A vertex of the graph.
abbrev pub IsVertex : IdsMap CellIds → CellIds → Type 0
IsVertex graph v = is_some (get v graph) ≡ true

pub IsVertex-insert :
    (root v edges : CellIds) (graph : IdsMap CellIds)
    → IsVertex graph v
    → IsVertex (Maps.insert root edges graph) v
unfolding get Maps.insert
IsVertex-insert root v new [] h = absurd (cc h)
IsVertex-insert root v new ((j, edges) ∷ graph) h = ground (arith, IsVertex-insert root v new graph)

pub All-pop :
    (P : CellIds → Type 0) (root : CellIds) (roots : List CellIds)
    → All P (root ∷ roots)
    → All P (pop root roots).0 × P (pop root roots).1
unfolding pop
All-pop P root [] h = (tt, h.0)
All-pop P root (next ∷ roots) h =
    let (before, last) = All-pop P next roots h.1 in ((h.0, before), last)

new_roots-All :
    (graph : IdsMap CellIds) (removed : CellIds) (rest : IdsMap CellIds) (P : CellIds → Type 0)
    → All P (keys rest)
    → All P (new_roots graph removed rest)
unfolding new_roots
new_roots-All graph removed [] P h = tt
new_roots-All graph removed ((producer, edges) ∷ rest) P h =
    elim (Bool-cases (intersects_with producer removed)) [
      | inr apart ↦ rw apart (new_roots-All graph removed rest P h.1)
      | inl touches ↦ elim (Bool-cases (has_inbound_edges graph producer)) [
        | inl inbound ↦ rw (touches, inbound) (new_roots-All graph removed rest P h.1)
        | inr free ↦ rw (touches, free) (h.0, new_roots-All graph removed rest P h.1)
      ]
    ]

keys-IsVertex : (graph : IdsMap CellIds) → All (IsVertex graph) (keys graph)
unfolding get
keys-IsVertex [] = tt
keys-IsVertex ((j, edges) ∷ graph) =
    (rw (same_ids_refl j) refl, All-map (λ v h. ground arith) (keys graph) (keys-IsVertex graph))

step_small : (a fuel n w rest : ℕ) → suc a + (w + rest) * n ≤ suc fuel → a + w * n + rest * n ≤ fuel
step_small a fuel n w rest h = omega arith

abbrev cut_at : CellIds → IdsMap CellIds → IdsMap CellIds
cut_at root graph = Maps.insert root [] graph

-- Every round takes one from the measure.
round_small :
    (fuel : ℕ) (r : CellIds) (rs : List CellIds) (graph : IdsMap CellIds) (removed : CellIds)
    → get (pop r rs).1 graph ≡ some removed
    → length (r ∷ rs) + with_edges graph * length graph ≤ suc fuel
    → length (
          (pop r rs).0 ++ new_roots (cut_at (pop r rs).1 graph) removed (cut_at (pop r rs).1 graph))
        + with_edges (cut_at (pop r rs).1 graph) * length (cut_at (pop r rs).1 graph)
      ≤ fuel
round_small fuel r rs graph removed found small =
    let root = (pop r rs).1 in
    let cut = Maps.insert root [] graph in
    let (edges, count) = with_edges-insert root graph removed found in
    let added : length (new_roots cut removed cut) ≤ weight removed * length graph =
      subst (λ n. length (new_roots cut removed cut) ≤ weight removed * n) count
        (length-new_roots_le cut removed cut) in
    let spare =
      step_small (length rs) fuel (length graph) (weight removed) (with_edges cut)
        (subst (λ w. suc (length rs) + w * length graph ≤ suc fuel) edges small) in
    rw (count, length-append (pop r rs).0 (new_roots cut removed cut), length-pop r rs)
      (omega arith)

sort_loop-ends :
    (fuel : ℕ) (roots : List CellIds) (graph : IdsMap CellIds) (sorted : List CellIds)
    → length roots + with_edges graph * length graph ≤ fuel
    → All (IsVertex graph) roots
    → (order : List CellIds) × (sort_loop fuel roots graph sorted ≡ ok order)
unfolding sort_loop
sort_loop-ends fuel [] graph sorted small h = (sorted, refl)
sort_loop-ends zero (r ∷ rs) graph sorted small h = absurd (omega arith)
sort_loop-ends (suc fuel) (r ∷ rs) graph sorted small h =
    let (before, last) = All-pop (IsVertex graph) r rs h in
    let root = (pop r rs).1 in
    elim (Option-cases (get root graph)) [
      | inl missing ↦ absurd (ground arith)
      | inr (removed, found) ↦
          let cut = Maps.insert root [] graph in
          let added = new_roots cut removed cut in
          let (order, ends) =
            sort_loop-ends fuel ((pop r rs).0 ++ added) cut (root ∷ sorted)
              (round_small fuel r rs graph removed found small)
              (All-append (IsVertex cut) (pop r rs).0 added
                (All-map (λ v. IsVertex-insert root v [] graph) (pop r rs).0 before)
                (new_roots-All cut removed cut (IsVertex cut) (keys-IsVertex cut))) in
          (order, rw (found, sort_loop) ends)
    ]

-- If all its roots are vertices, the loop of `topological` ends within its rounds, insert, keep_roots, with an order.
pub topological-ends :
    (g : DependencyGraph)
    → All (IsVertex g.dh) g.roots
    → (order : List CellIds) × (topological g ≡ ok order)
unfolding topological
topological-ends g h =
    sort_loop-ends (rounds g) g.roots g.dh []
      (omega (arith, mul-le-mul_right (length g.dh) (with_edges_le g.dh))) h

pub keep_roots-All :
    (P : CellIds → Type 0) (consumed : CellIds) (roots : List CellIds)
    → All P roots
    → All P (keep_roots consumed roots)
unfolding keep_roots
keep_roots-All P consumed [] h = tt
keep_roots-All P consumed (root ∷ roots) h = elim (Bool-cases (intersects_with consumed root)) [
  | inl spent ↦ rw spent (keep_roots-All P consumed roots h.1)
  | inr kept ↦ rw kept (h.0, keep_roots-All P consumed roots h.1)
]

pub IsVertex-inserted :
    (k : CellIds) (edges : CellIds) (dh : IdsMap CellIds) → IsVertex (Maps.insert k edges dh) k
unfolding get Maps.insert
IsVertex-inserted k edges [] = rw (same_ids_refl k) refl
IsVertex-inserted k edges ((j, w) ∷ dh) = ground (arith, IsVertex-inserted k edges dh)
