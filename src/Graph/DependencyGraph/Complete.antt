-- ===== src/Graph/DependencyGraph/Complete.antt =====
-- src/graph/dependency_graph.rs: which vertices the order of `topological` holds.
use zfx_subzero.Prelude.{
  ℕ, zero, suc, ◌≡◌, refl, ap, subst, ◌∙◌, Bool, true, false, ◌||◌, some, List, [], ◌∷◌, ◌++◌, OnOk,
  nat_eq, arith, Bool-cases, Option-cases, inl, inr, All, All-map, All-map2,
}
use zfx_subzero.Prelude.HashMap.{keys}
use zfx_subzero.Cell.Ids.{CellIds, intersects_with}
use zfx_subzero.Cell.Maps.{IdsMap, same_ids, same_ids_refl, same_ids-contained, get}
use zfx_subzero.Cell.Maps
use zfx_subzero.Graph.DependencyGraph.{
  DependencyGraph, has_inbound_edges, new_roots, pop, sort_loop, topological, rounds,
}
use zfx_subzero.Graph.DependencyGraph.Order.{IsFree, without}

-- The list holds the ids.
unfoldable pub listed : CellIds → List CellIds → Bool
listed v [] = false
listed v (x ∷ xs) = same_ids x v || listed v xs

-- Every vertex of the graph that no cell of it spends from is in the list.
abbrev pub ListsFree : List CellIds → IdsMap CellIds → List CellIds → Type 0
ListsFree vertices graph xs = All (λ v. IsFree graph v → listed v xs ≡ true) vertices

pub listed-append :
    (v : CellIds) (xs ys : List CellIds) → listed v (xs ++ ys) ≡ (listed v xs || listed v ys)
unfolding listed
listed-append v [] ys = refl
listed-append v (x ∷ xs) ys = ground (arith, listed-append v xs ys)

listed-pop :
    (v r : CellIds) (rs : List CellIds)
    → listed v (r ∷ rs) ≡ (listed v (pop r rs).0 || same_ids (pop r rs).1 v)
unfolding listed pop
listed-pop v r [] = ground arith
listed-pop v r (next ∷ rs) = ground (arith, listed-pop v next rs)

keys-cut :
    (root : CellIds) (graph : IdsMap CellIds) (removed : CellIds)
    → get root graph ≡ some removed
    → keys (Maps.insert root [] graph) ≡ keys graph
unfolding get Maps.insert
keys-cut root [] removed h = absurd (cc h)
keys-cut root ((j, edges) ∷ graph) removed h = elim (Bool-cases (same_ids j root)) [
  | inl same ↦ rw same refl
  | inr other ↦ rw other (ap (λ ks. j ∷ ks) (keys-cut root graph removed (ground arith)))
]

-- A vertex that a cut frees is spent by the edges that it removes.
IsFree-uncut :
    (root v : CellIds) (graph : IdsMap CellIds) (removed : CellIds)
    → get root graph ≡ some removed
    → intersects_with v removed ≡ false
    → IsFree (Maps.insert root [] graph) v
    → IsFree graph v
unfolding has_inbound_edges get Maps.insert
IsFree-uncut root v [] removed found apart h = absurd (cc found)
IsFree-uncut root v ((j, edges) ∷ graph) removed found apart h =
    ground (arith, IsFree-uncut root v graph removed)

new_roots-listed :
    (graph : IdsMap CellIds) (removed : CellIds) (rest : IdsMap CellIds)
    → All
        (λ v.
          IsFree graph v
          → intersects_with v removed ≡ true
          → listed v (new_roots graph removed rest) ≡ true)
        (keys rest)
unfolding new_roots listed
new_roots-listed graph removed [] = tt
new_roots-listed graph removed ((producer, edges) ∷ rest) = (
  λ free touches. rw (touches, free, same_ids_refl producer) refl,
  All-map (λ v h free touches. let later = h free touches in ground arith) (keys rest)
      (new_roots-listed graph removed rest),
)

listed-round :
    (v r : CellIds) (rs sorted added : List CellIds)
    → (listed v ((r ∷ rs) ++ sorted) ≡ true)
    → listed v (((pop r rs).0 ++ added) ++ (pop r rs).1 ∷ sorted) ≡ true
unfolding listed
listed-round v r rs sorted added h =
    let before = listed-append v (r ∷ rs) sorted in
    let popped = listed-pop v r rs in
    let inner = listed-append v (pop r rs).0 added in
    let after = listed-append v ((pop r rs).0 ++ added) ((pop r rs).1 ∷ sorted) in ground arith

-- A vertex that the round frees is among the new roots.
listed-added :
    (v r : CellIds) (rs sorted added : List CellIds)
    → listed v added ≡ true
    → listed v (((pop r rs).0 ++ added) ++ (pop r rs).1 ∷ sorted) ≡ true
listed-added v r rs sorted added h =
    let inner = listed-append v (pop r rs).0 added in
    let after = listed-append v ((pop r rs).0 ++ added) ((pop r rs).1 ∷ sorted) in ground arith

sort_loop-ListsFree :
    (vertices : List CellIds) (dh : IdsMap CellIds) (fuel : ℕ) (roots sorted : List CellIds)
    → keys (without sorted dh) ≡ vertices
    → ListsFree vertices (without sorted dh) (roots ++ sorted)
    → OnOk
        (λ order. ListsFree vertices (without order dh) order)
        (sort_loop fuel roots (without sorted dh) sorted)
unfolding sort_loop without
sort_loop-ListsFree vertices dh fuel [] sorted same h = h
sort_loop-ListsFree vertices dh zero (r ∷ rs) sorted same h = tt
sort_loop-ListsFree vertices dh (suc fuel) (r ∷ rs) sorted same h =
    let graph = without sorted dh in
    let root = (pop r rs).1 in
    let cut = Maps.insert root [] graph in
    elim (Option-cases (get root graph)) [
      | inl missing ↦ rw (missing, sort_loop) tt
      | inr (removed, found) ↦
          rw (found, sort_loop)
            (sort_loop-ListsFree vertices dh fuel ((pop r rs).0 ++ new_roots cut removed cut)
              (root ∷ sorted) (keys-cut root graph removed found ∙ same)
              (All-map2
                (λ v before added free. elim (Bool-cases (intersects_with v removed)) [
                  | inl touches ↦
                      listed-added v r rs sorted (new_roots cut removed cut) (added free touches)
                  | inr apart ↦
                      listed-round v r rs sorted (new_roots cut removed cut)
                        (before (IsFree-uncut root v graph removed found apart free))
                ])
                vertices h
                (subst
                  (All (λ v.
                    IsFree cut v
                    → intersects_with v removed ≡ true
                    → listed v (new_roots cut removed cut) ≡ true))
                  (keys-cut root graph removed found ∙ same) (new_roots-listed cut removed cut))))
    ]

-- A vertex that the order leaves out is spent by another that it leaves out.
pub topological-ListsFree :
    (g : DependencyGraph)
    → ListsFree (keys g.dh) g.dh g.roots
    → OnOk (λ order. ListsFree (keys g.dh) (without order g.dh) order) (topological g)
unfolding topological without listed
topological-ListsFree g h = sort_loop-ListsFree (keys g.dh) g.dh (rounds g) g.roots [] refl (
    All-map (λ v before free. let there = before free in ground (arith, listed-append v g.roots []))
      (keys g.dh) h)
