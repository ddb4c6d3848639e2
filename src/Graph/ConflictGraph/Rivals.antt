-- ===== src/Graph/ConflictGraph/Rivals.antt =====
-- src/graph/conflict_graph.rs: which cells spend an output, and what the first loop of `insert_cell`
-- finds.
use zfx_subzero.Prelude.{
  ◌≡◌, refl, ◌∙◌, Bool, false, ◌||◌, none, some, List, [], ◌∷◌, eqb, ok, nat_eq, arith,
  Option-cases, inl, inr,
}
use zfx_subzero.Prelude.HashSet
use zfx_subzero.Prelude.HashSet.{HashSet, contains, contains-insert, contains-extend}
use zfx_subzero.Prelude.HashMap
use zfx_subzero.Prelude.HashMap.{HashMap, get-insert, get-modify}
use zfx_subzero.Graph.ConflictGraph.{ConflictGraph, VertexData, spend}
use zfx_subzero.Cell.Types.{CellHash, CellId}

-- Who spends the output that a vertex stands for.
unfoldable pub spends : HashMap CellId VertexData → CellId → CellHash → Bool
spends vertices id x = elim (HashMap.get id vertices) [
  | none ↦ false
  | some v ↦ contains v.spenders x
]

-- Who spends one of these outputs.
unfoldable pub rivals : HashMap CellId VertexData → List CellId → CellHash → Bool
rivals vertices [] x = false
rivals vertices (id ∷ ids) x = spends vertices id x || rivals vertices ids x

spends-found :
    (m : HashMap CellId VertexData) (id : CellId) (x : CellHash) {v : VertexData}
    → HashMap.get id m ≡ some v
    → spends m id x ≡ contains v.spenders x
unfolding spends
spends-found m id x found = rw (found, spends)

spends-modify :
    (h : CellHash) (id : CellId) (m : HashMap CellId VertexData) (j : CellId) (x : CellHash)
    → eqb h x ≡ false
    → spends (HashMap.modify id (λ v. record v { spenders = HashSet.insert h v.spenders }) m) j x
      ≡ spends m j x
unfolding spends
spends-modify h id m j x other =
    rw (get-modify id (λ v. record v { spenders = HashSet.insert h v.spenders }) m j, spends)
      (elim (Option-cases (HashMap.get j m)) [
        | inl vacant ↦ rw vacant (ground arith)
        | inr (v, found) ↦ rw found (ground (arith, contains-insert h v.spenders x))
      ])

rivals-modify :
    (h : CellHash) (id : CellId) (m : HashMap CellId VertexData) (ids : List CellId) (x : CellHash)
    → eqb h x ≡ false
    → rivals (HashMap.modify id (λ v. record v { spenders = HashSet.insert h v.spenders }) m) ids x
      ≡ rivals m ids x
unfolding rivals
rivals-modify h id m [] x other = refl
rivals-modify h id m (j ∷ ids) x other =
    rw (spends-modify h id m j x other, rivals-modify h id m ids x other)

-- The conflicts that `spend` collects are the rivals; it changes the vertices alone.
pub spend-rivals :
    (h : CellHash) (ids : List CellId) (acc : HashSet CellHash) (graph : ConflictGraph)
    {c : HashSet CellHash} (x : CellHash)
    → eqb h x ≡ false
    → (spend h ids acc graph).1 ≡ ok c
    → contains c x ≡ (contains acc x || rivals graph.vertices ids x)
unfolding spend rivals
spend-rivals h [] acc graph {c} x other e = ground arith
spend-rivals h (id ∷ ids) acc graph {c} x other e =
    elim (Option-cases (HashMap.get id graph.vertices)) [
      | inl vacant ↦ absurd (cc (rw (vacant, spend) at e))
      | inr (v, found) ↦
          let spent : HashMap CellId VertexData =
            HashMap.modify id (λ u. record u { spenders = HashSet.insert h u.spenders })
              graph.vertices in
          let later =
            spend-rivals h ids (HashSet.extend acc v.spenders) (record graph { vertices = spent }) x
              other (rw (found, spend) at e) in
          (later
            ∙ rw (rivals-modify h id graph.vertices ids x other, contains-extend acc v.spenders x)
                (ground (arith, spends-found graph.vertices id x found)))
    ]

pub spend-cs :
    (h : CellHash) (ids : List CellId) (acc : HashSet CellHash) (graph : ConflictGraph)
    → ((spend h ids acc graph).0.cs ≡ graph.cs)
      × ((spend h ids acc graph).0.insertion_order ≡ graph.insertion_order)
unfolding spend
spend-cs h [] acc graph = (refl, refl)
spend-cs h (id ∷ ids) acc graph = elim (Option-cases (HashMap.get id graph.vertices)) [
  | inl vacant ↦ rw (vacant, spend) (refl, refl)
  | inr (v, found) ↦ rw (found, spend) (spend-cs h ids _ _)
]
