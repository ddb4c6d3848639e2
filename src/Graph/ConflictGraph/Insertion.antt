-- ===== src/Graph/ConflictGraph/Insertion.antt =====
-- src/graph/conflict_graph.rs: the conflict sets after `insert_cell`.
use zfx_subzero.Prelude.{
  ◌≡◌, refl, ◌∙◌, Bool, true, false, ◌&&◌, ◌||◌, none, some, List, [], ◌∷◌, ◌++◌, eqb, eqb_iff,
  if◌then◌else◌, ok, nat_eq, arith, Option-cases, Bool-cases, inl, inr,
}
use zfx_subzero.Prelude.HashSet
use zfx_subzero.Prelude.HashSet.{HashSet, contains, contains-insert, contains-extend}
use zfx_subzero.Prelude.HashMap
use zfx_subzero.Prelude.HashMap.{HashMap, get-insert, get-modify}
use zfx_subzero.Prelude.Action.{>>=-eq-ok}
use zfx_subzero.Graph.ConflictGraph.{
  ConflictGraph, ConflictSet, spend, join_sets, own_set, link, vote_in, enter, insert_new,
  insert_cell, new_set, open_vertices, pending,
}
use zfx_subzero.Cell.Types.{CellHash, CellId, Cell, Crypto}
use zfx_subzero.Cell.Ids.{from_inputs, from_outputs}
use zfx_subzero.Graph.ConflictGraph.Rivals.{rivals, spend-rivals, spend-cs}

-- Who is in the conflict set of a cell; nobody if it has none.
unfoldable pub members : HashMap CellHash ConflictSet → CellHash → CellHash → Bool
members cs j x = elim (HashMap.get j cs) [ none ↦ false | some set ↦ contains set.conflicts x ]

members-modify :
    (h conflict : CellHash) (cs : HashMap CellHash ConflictSet) (j x : CellHash)
    → HashMap.contains_key conflict cs ≡ true
    → members
        (HashMap.modify conflict
          (λ set. record set { conflicts = HashSet.insert h set.conflicts })
          cs)
        j
        x
      ≡ (members cs j x || eqb conflict j && eqb h x)
unfolding members
members-modify h conflict cs j x there =
    rw
      (
        get-modify conflict (λ set. record set { conflicts = HashSet.insert h set.conflicts }) cs j,
        members,
      )
      (elim (Option-cases (HashMap.get j cs)) [
        | inl vacant ↦ rw vacant (ground (arith, eqb_iff conflict j, vacant))
        | inr (set, found) ↦ rw found (ground (arith, contains-insert h set.conflicts x))
      ])

-- The sets of the conflicts take the cell in, the others stay.
join_sets-members :
    (h : CellHash) (conflicts : List CellHash) (cs : HashMap CellHash ConflictSet) (j x : CellHash)
    → (join_sets h conflicts cs).1 ≡ ok tt
    → members (join_sets h conflicts cs).0 j x ≡ (members cs j x || contains conflicts j && eqb h x)
unfolding join_sets contains
join_sets-members h [] cs j x e = ground arith
join_sets-members h (conflict ∷ conflicts) cs j x e =
    elim (Bool-cases (HashMap.contains_key conflict cs)) [
      | inl there ↦
          let later = join_sets-members h conflicts _ j x (rw there at e) in
          rw there (later ∙ rw (members-modify h conflict cs j x there) (ground arith))
      | inr absent ↦ absurd (cc (rw absent at e))
    ]

own_set-conflicts :
    (h : CellHash) (conflicts : HashSet CellHash) (order : List CellHash)
    (cs : HashMap CellHash ConflictSet) {own : ConflictSet}
    → own_set h conflicts order cs ≡ ok own
    → own.conflicts ≡ HashSet.extend (h ∷ []) conflicts
unfolding own_set new_set
own_set-conflicts h conflicts order cs {own} e = ground arith

-- The cell's own set is the cell and its conflicts.
own_set-members :
    (h : CellHash) (conflicts : HashSet CellHash) (order : List CellHash)
    (cs : HashMap CellHash ConflictSet) {own : ConflictSet} (x : CellHash)
    → own_set h conflicts order cs ≡ ok own
    → contains own.conflicts x ≡ (eqb h x || contains conflicts x)
unfolding contains
own_set-members h conflicts order cs x e =
    rw (own_set-conflicts h conflicts order cs e)
      (ground (arith, contains-extend (h ∷ []) conflicts x))

vote_in-members :
    (h : CellHash) (conflicts : HashSet CellHash) (graph : ConflictGraph) (j x : CellHash)
    → (vote_in h conflicts graph).1 ≡ ok tt
    → members (vote_in h conflicts graph).0.cs j x
      ≡ (if eqb h j then eqb h x || contains conflicts x else members graph.cs j x)
unfolding vote_in members
vote_in-members h conflicts graph j x e =
    let (own, made, _) =
      >>=-eq-ok (λ g. (g, own_set h conflicts g.insertion_order g.cs))
        (λ own g. (record g { cs = HashMap.insert h own g.cs }, ok tt)) graph e in
    rw made (
      rw (get-insert h own graph.cs j, members)
        (elim (Bool-cases (eqb h j)) [
          | inl same ↦ rw same (own_set-members h conflicts graph.insertion_order graph.cs x made)
          | inr other ↦ rw other refl
        ]))

enter-members :
    (h : CellHash) (produced : List CellId) (conflicts : HashSet CellHash) (graph : ConflictGraph)
    (j x : CellHash)
    → (enter h produced conflicts graph).1 ≡ ok tt
    → members (enter h produced conflicts graph).0.cs j x ≡ (
        if eqb h j
        then eqb h x || contains conflicts x
        else (members graph.cs j x || contains conflicts j && eqb h x))
unfolding enter link
enter-members h produced conflicts graph j x e =
    let opened = record graph {
      vertices = open_vertices pending produced graph.vertices;
      insertion_order = graph.insertion_order ++ h ∷ [];
    } in
    let (_, linked, voted) = >>=-eq-ok (link h conflicts) (λ _. vote_in h conflicts) opened e in
    let sets = (join_sets h conflicts graph.cs).0 in
    let linked_graph = record opened { cs = sets } in
    rw linked (
      vote_in-members h conflicts linked_graph j x voted
      ∙ rw (join_sets-members h conflicts graph.cs j x linked))

insert_new-members :
    (crypto : Crypto) (cell : Cell) (graph : ConflictGraph) (j x : CellHash)
    → (insert_new crypto cell graph).1 ≡ ok tt
    → (c : HashSet CellHash) × ((y : CellHash)
        → eqb (crypto.hash_cell cell) y ≡ false
        → contains c y ≡ rivals graph.vertices (from_inputs crypto cell.inputs) y)
      × (members (insert_new crypto cell graph).0.cs j x ≡ (
          if eqb (crypto.hash_cell cell) j
          then eqb (crypto.hash_cell cell) x || contains c x
          else (members graph.cs j x || contains c j && eqb (crypto.hash_cell cell) x)))
unfolding insert_new contains
insert_new-members crypto cell graph j x e =
    let h = crypto.hash_cell cell in
    let ids = from_inputs crypto cell.inputs in
    let produced = from_outputs crypto h cell.outputs in
    let (c, spent, entered) =
      >>=-eq-ok (spend h ids []) (λ conflicts. enter h produced conflicts) graph e in
    let kept = spend-cs h ids [] graph in
    (
      c,
      λ y other. spend-rivals h ids [] graph y other spent,
      rw spent (enter-members h produced c (spend h ids [] graph).0 j x entered ∙ rw kept.0),
    )

-- If `insert_cell` succeeds, the conflict set of the new cell is the cell itself and all cells that
-- spent one of its inputs before; the conflict sets of exactly those take the new cell in, and no
-- other membership changes.
pub insert_cell-members :
    (crypto : Crypto) (cell : Cell) (graph : ConflictGraph) (j x : CellHash)
    → (insert_cell crypto cell graph).1 ≡ ok tt
    → members (insert_cell crypto cell graph).0.cs j x ≡ (
        if eqb (crypto.hash_cell cell) j
        then eqb (crypto.hash_cell cell) x
          || rivals graph.vertices (from_inputs crypto cell.inputs) x
        else (members graph.cs j x
            || rivals graph.vertices (from_inputs crypto cell.inputs) j
              && eqb (crypto.hash_cell cell) x))
unfolding insert_cell
insert_cell-members crypto cell graph j x e =
    elim (Option-cases (HashMap.get (crypto.hash_cell cell) graph.cells)) [
      | inl fresh ↦
          let h = crypto.hash_cell cell in
          let (c, found, sets) =
            insert_new-members crypto cell
              (record graph { cells = HashMap.insert h cell graph.cells }) j x
              (rw (fresh, insert_cell) at e) in
          rw (fresh, insert_cell) (sets ∙ ground (arith, found x, found j))
      | inr (old, known) ↦ absurd (cc (rw (known, insert_cell) at e))
    ]
