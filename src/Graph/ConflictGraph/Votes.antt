-- ===== src/Graph/ConflictGraph/Votes.antt =====
-- src/graph/conflict_graph.rs: the vote in a conflict set, and `is_accepted_tx` of src/sleet.
use zfx_subzero.Prelude.{
  ℕ, ◌+◌, ◌≡◌, refl, Bool, true, not, ◌&&◌, none, some, [], ◌∷◌, eqb, eqb_iff, ltb, length,
  if◌then◌else◌, Result, ok, err, nat_eq, arith,
}
use zfx_subzero.Prelude.HashMap
use zfx_subzero.Prelude.HashMap.{HashMap, get-insert}
use zfx_subzero.Graph.{Error, undefined_cell_hash, empty_conflict_graph}
use zfx_subzero.Graph.ConflictGraph.{ConflictGraph, ConflictSet, is_singleton_set, beta2}
use zfx_subzero.Cell.Types.{CellHash}

-- A look at the conflict set of a cell.
abbrev at : {A : Type 0} → ConflictGraph → CellHash → (ConflictSet → A) → Result Error A
at graph cell_hash f = elim (HashMap.get cell_hash graph.cs) [
  | some set ↦ ok (f set)
  | none ↦ err (undefined_cell_hash cell_hash)
]

unfoldable pub is_singleton : ConflictGraph → CellHash → Result Error Bool
is_singleton graph cell_hash = at graph cell_hash is_singleton_set

unfoldable pub get_preferred : ConflictGraph → CellHash → Result Error CellHash
get_preferred graph cell_hash = at graph cell_hash (λ set. set.pref)

unfoldable pub is_preferred : ConflictGraph → CellHash → Result Error Bool
is_preferred graph cell_hash = at graph cell_hash (λ set. eqb set.pref cell_hash)

unfoldable pub get_confidence : ConflictGraph → CellHash → Result Error ℕ
get_confidence graph cell_hash = at graph cell_hash (λ set. set.cnt)

-- An edit of the conflict set of a cell.
abbrev change : (ConflictSet → ConflictSet) → CellHash → ConflictGraph → Result Error ConflictGraph
change f cell_hash graph =
    let found : Result Error ConflictGraph = elim (HashMap.get cell_hash graph.cs) [
      | some set ↦ ok (record graph { cs = HashMap.insert cell_hash (f set) graph.cs })
      | none ↦ err (undefined_cell_hash cell_hash)
    ] in
    if ltb 0 (length graph.cs) then found else err empty_conflict_graph

unfoldable pub updated : CellHash → ℕ → ℕ → ConflictSet → ConflictSet
updated cell_hash d1 d2 set =
    let preferred = record set { pref = if ltb d2 d1 then cell_hash else set.pref } in
    if not (eqb cell_hash set.last)
    then record preferred { last = cell_hash }
    else if ltb set.cnt beta2
    then record preferred { cnt = set.cnt + 1 }
    else preferred

unfoldable pub update_conflict_set : CellHash → ℕ → ℕ → ConflictGraph → Result Error ConflictGraph
unfolding updated
update_conflict_set cell_hash d1 d2 = change (updated cell_hash d1 d2) cell_hash

unfoldable pub reset_count : CellHash → ConflictGraph → Result Error ConflictGraph
reset_count = change (λ set. record set { cnt = 0 })

-- A vote for a cell that has a conflict set changes that set alone. It prefers the cell if its
-- conviction is the greater, and it counts only if the last vote was for the same cell, up to
-- `beta2`; the members stay.
pub update_conflict_set-get :
    (cell_hash : CellHash) (d1 d2 : ℕ) (graph : ConflictGraph) (set : ConflictSet)
    → HashMap.get cell_hash graph.cs ≡ some set
    → (graph' : ConflictGraph) × (after : ConflictSet) × (update_conflict_set cell_hash d1 d2 graph
        ≡ ok graph')
      × ((j : CellHash)
          → HashMap.get j graph'.cs
            ≡ (if eqb cell_hash j then some after else HashMap.get j graph.cs))
      × (after.conflicts ≡ set.conflicts)
      × (after.pref ≡ (if ltb d2 d1 then cell_hash else set.pref))
      × (after.last ≡ cell_hash)
      × (after.cnt ≡ (if eqb cell_hash set.last && ltb set.cnt beta2 then set.cnt + 1 else set.cnt))
unfolding update_conflict_set updated HashMap.get
update_conflict_set-get cell_hash d1 d2 graph set found =
    let filled : ltb 0 (length graph.cs) ≡ true = nonempty graph.cs found in
    (
      record graph { cs = HashMap.insert cell_hash (updated cell_hash d1 d2 set) graph.cs },
      updated cell_hash d1 d2 set,
      rw (filled, found) refl,
      get-insert cell_hash (updated cell_hash d1 d2 set) graph.cs,
      ground arith,
      ground arith,
      ground (arith, eqb_iff cell_hash set.last),
      ground arith,
    )
  where
    nonempty :
        (cs : HashMap CellHash ConflictSet)
        → HashMap.get cell_hash cs ≡ some set
        → ltb 0 (length cs) ≡ true
    nonempty [] h = absurd (cc h)
    nonempty (x ∷ cs) h = ground arith
