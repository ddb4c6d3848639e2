-- ===== src/Graph/ConflictGraph/Removal/Acceptance.antt =====
-- src/graph/conflict_graph.rs: what `accept_cell` leaves of the conflict sets.
use zfx_subzero.Prelude.{
  ◌≡◌, refl, sym, subst, ap, ◌∙◌, true, false, not, ◌&&◌, none, some, List, [], ◌∷◌, eqb, eqb_iff,
  ok, nat_eq, arith, Option-cases, Bool-cases, inl, inr, unwrap,
}
use zfx_subzero.Prelude.HashSet
use zfx_subzero.Prelude.HashSet.{HashSet, contains, contains-remove}
use zfx_subzero.Prelude.HashMap
use zfx_subzero.Prelude.HashMap.{HashMap, get-insert, get-modify, get-remove}
use zfx_subzero.Prelude.Action.{Action, pure, modify, ◌>>=◌, >>=-eq-ok}
use zfx_subzero.Graph.{Error}
use zfx_subzero.Graph.ConflictGraph.{
  ConflictGraph, ConflictSet, VertexData, accepted, rejected, new_set, remove_from_conflict_set,
}
use zfx_subzero.Graph.ConflictGraph.Removal.{
  edit_vertices, leave_sets, own_conflicts, forget, settle, remove_from_vertices, remove_cell,
  remove_cells, accept_cell,
}
use zfx_subzero.Cell.Types.{CellHash, CellId, Cell, Crypto}
use zfx_subzero.Cell.Ids.{from_inputs, from_outputs}

edit_vertices-cs :
    (f : VertexData → VertexData) (ids : List CellId) (graph : ConflictGraph)
    → (edit_vertices f ids graph).0.cs ≡ graph.cs
unfolding edit_vertices
edit_vertices-cs f [] graph = refl
edit_vertices-cs f (id ∷ ids) graph = elim (Bool-cases (HashMap.contains_key id graph.vertices)) [
  | inl there ↦ rw there (edit_vertices-cs f ids _)
  | inr absent ↦ rw absent refl
]

pub own_conflicts-ok :
    (h : CellHash) (graph : ConflictGraph) {set : ConflictSet}
    → (own_conflicts h graph).1 ≡ ok set
    → (own_conflicts h graph ≡ (graph, ok set)) × (HashMap.get h graph.cs ≡ some set)
own_conflicts-ok h graph {set} e = elim (Option-cases (HashMap.get h graph.cs)) [
  | inl vacant ↦ absurd (cc (rw (vacant, own_conflicts) at e))
  | inr (found_set, found) ↦ ground (arith, found)
]

pub remove_from_vertices-cs :
    (crypto : Crypto) (h : CellHash) (graph : ConflictGraph)
    → (remove_from_vertices crypto h graph).1 ≡ ok tt
    → (remove_from_vertices crypto h graph).0.cs ≡ graph.cs
unfolding remove_from_vertices
remove_from_vertices-cs crypto h graph e =
    let reject : VertexData → VertexData = λ v. record v { status = rejected } in
    let release : VertexData → VertexData =
      λ v. record v { spenders = HashSet.remove h v.spenders } in
    let produced : Cell → List CellId = λ cell. from_outputs crypto h cell.outputs in
    let consumed : Cell → List CellId = λ cell. from_inputs crypto cell.inputs in
    let (cell, got, rest) =
      >>=-eq-ok (λ g. (g, unwrap (HashMap.get h g.cells)))
        (λ cell.
          edit_vertices reject (produced cell) >>= λ _. edit_vertices release (consumed cell))
        graph e in
    let (_, rejects, _) =
      >>=-eq-ok (edit_vertices reject (produced cell)) (λ _. edit_vertices release (consumed cell))
        graph rest in
    rw got (
      rw rejects (
        edit_vertices-cs release (consumed cell) (edit_vertices reject (produced cell) graph).0
        ∙ edit_vertices-cs reject (produced cell) graph))

leave_sets-none :
    (h : CellHash) (l : List CellHash) (cs : HashMap CellHash ConflictSet) (j : CellHash)
    → HashMap.get j cs ≡ none
    → HashMap.get j (leave_sets h l cs) ≡ none
unfolding leave_sets
leave_sets-none h [] cs j e = e
leave_sets-none h (x ∷ l) cs j e =
    leave_sets-none h l _ j (ground (arith, get-modify x (remove_from_conflict_set h) cs j, e))

-- A removed cell has no conflict set, and no cell gets one.
remove_cell-none :
    (crypto : Crypto) (h : CellHash) (graph : ConflictGraph) (j : CellHash)
    → (remove_cell crypto h graph).1 ≡ ok tt
    → (HashMap.get h (remove_cell crypto h graph).0.cs ≡ none)
      × (HashMap.get j graph.cs ≡ none → HashMap.get j (remove_cell crypto h graph).0.cs ≡ none)
unfolding remove_cell forget
remove_cell-none crypto h graph j e =
    let (set, found, rest) =
      >>=-eq-ok (own_conflicts h)
        (λ set. remove_from_vertices crypto h >>= λ _. modify (forget h set)) graph e in
    let (same, has) = own_conflicts-ok h graph found in
    let rest' : ((remove_from_vertices crypto h >>= λ _. modify (forget h set)) graph).1 ≡ ok tt =
      rw same at rest in
    let (_, cleared, _) =
      >>=-eq-ok (remove_from_vertices crypto h) (λ _. modify (forget h set)) graph rest' in
    let kept = remove_from_vertices-cs crypto h graph cleared in
    let left = leave_sets h set.conflicts graph.cs in
    rw same (
      rw cleared (
        rw kept (
          get-remove h left h ∙ ground (arith, eqb_iff h h),
          λ absent.
              get-remove h left j
              ∙ ground (arith, leave_sets-none h set.conflicts graph.cs j absent),
        )))

-- The conflicts of an accepted cell have no conflict sets any more.
remove_cells-none :
    (crypto : Crypto) (h : CellHash) (l : List CellHash) (graph : ConflictGraph) (j : CellHash)
    → (remove_cells crypto h l graph).1 ≡ ok tt
    → (contains l j ≡ true
        → eqb h j ≡ false
        → HashMap.get j (remove_cells crypto h l graph).0.cs ≡ none)
      × (HashMap.get j graph.cs ≡ none → HashMap.get j (remove_cells crypto h l graph).0.cs ≡ none)
unfolding remove_cells contains
remove_cells-none crypto h [] graph j e = (λ k. absurd (cc k), λ absent. absent)
remove_cells-none crypto h (x ∷ l) graph j e = elim (Bool-cases (eqb h x)) [
  | inl own ↦
      let later = remove_cells-none crypto h l graph j (rw own at e) in
      rw own
        (λ k other. later.0 (ground (arith, eqb_iff h x, eqb_iff x j, eqb_iff h j)) other, later.1)
  | inr rival ↦
      let (_, gone, rest) =
        >>=-eq-ok (remove_cell crypto x) (λ _. remove_cells crypto h l) graph (rw rival at e) in
      let g = (remove_cell crypto x graph).0 in
      let later = remove_cells-none crypto h l g j rest in
      let here = remove_cell-none crypto x graph j gone in
      rw rival (
        rw gone (
          λ k other. elim (Bool-cases (eqb x j)) [
            | inl it ↦ later.1 (subst (λ i. HashMap.get i g.cs ≡ none) ((eqb_iff x j).0 it) here.0)
            | inr next ↦ later.0 (ground (arith)) other
          ],
          λ absent. later.1 (here.1 absent),
        ))
]

-- If `accept_cell` succeeds, the cell had a conflict set; the cells that are returned are the others
-- in it, and none of them has a conflict set any more; the cell is alone in its new set, prefers
-- itself, and keeps its confidence.
pub accept_cell-removes :
    (crypto : Crypto) (cell : Cell) (graph : ConflictGraph) (removed : List CellHash)
    → (accept_cell crypto cell graph).1 ≡ ok removed
    → (set : ConflictSet) × (HashMap.get (crypto.hash_cell cell) graph.cs ≡ some set)
      × ((j : CellHash)
          → contains removed j ≡ (not (eqb (crypto.hash_cell cell) j) && contains set.conflicts j))
      × ((j : CellHash)
          → contains removed j ≡ true
          → HashMap.get j (accept_cell crypto cell graph).0.cs ≡ none)
      × (HashMap.get (crypto.hash_cell cell) (accept_cell crypto cell graph).0.cs
          ≡ some (record {
            conflicts = crypto.hash_cell cell ∷ [];
            pref = crypto.hash_cell cell;
            last = crypto.hash_cell cell;
            cnt = set.cnt;
          }))
unfolding accept_cell settle new_set
accept_cell-removes crypto cell graph removed e =
    let h = crypto.hash_cell cell in
    let approve : VertexData → VertexData = λ v. record v { status = accepted } in
    let produced = from_outputs crypto h cell.outputs in
    let finish : ConflictSet → Action ConflictGraph Error (List CellHash) =
      λ set. modify (settle h set) >>= λ _. pure (HashSet.remove h set.conflicts) in
    let (_, approved, rest) =
      >>=-eq-ok (edit_vertices approve produced)
        (λ _. own_conflicts h >>= λ set. remove_cells crypto h set.conflicts >>= λ _. finish set)
        graph e in
    let g = (edit_vertices approve produced graph).0 in
    let (set, found, rest') =
      >>=-eq-ok (own_conflicts h) (λ set. remove_cells crypto h set.conflicts >>= λ _. finish set) g
        rest in
    let (same, has) = own_conflicts-ok h g found in
    let (_, gone, last) =
      >>=-eq-ok (remove_cells crypto h set.conflicts) (λ _. finish set) g (rw same at rest') in
    let others : (j : CellHash) → contains removed j ≡ (not (eqb h j) && contains set.conflicts j) =
      λ j. ground (arith, last, contains-remove h set.conflicts j) in
    let left = (remove_cells crypto h set.conflicts g).0.cs in
    rw approved (
      rw same (
        rw gone (
          set,
          sym (ap (HashMap.get h) (edit_vertices-cs approve produced graph)) ∙ has,
          others,
          λ j k.
              get-insert h _ left j
              ∙ ground (arith, others j, (remove_cells-none crypto h set.conflicts g j gone).0),
          get-insert h _ left h ∙ ground (arith, eqb_iff h h),
        )))
