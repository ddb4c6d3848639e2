-- ===== src/Graph/ConflictGraph.antt =====
-- src/graph/conflict_graph.rs and src/sleet/conflict_set.rs: which pending cells spend the same
-- outputs, and the vote among them. A method that takes `&mut self` is an action, so that what it
-- wrote before an early return stays.
pub mod Votes
pub mod Rivals
pub mod Insertion
pub mod Retry
pub mod Symmetry
pub mod Inheritance
pub mod Removal
use zfx_subzero.Prelude.{
  ℕ, ◌+◌, ◌≡◌, Bool, true, false, not, Option, none, some, List, [], ◌∷◌, ◌++◌, eqb, ltb, leb,
  length, if◌then◌else◌, Result, ok, err, panic, nat_eq,
}
use zfx_subzero.Prelude.HashSet
use zfx_subzero.Prelude.HashSet.{HashSet}
use zfx_subzero.Prelude.HashMap
use zfx_subzero.Prelude.HashMap.{HashMap}
use zfx_subzero.Prelude.Action.{Action, pure, throw, gets, modify, ◌>>=◌, ◌>>◌}
use zfx_subzero.Graph.{
  Error, duplicate_cell, undefined_cell, undefined_cell_hash, empty_conflict_graph,
}
use zfx_subzero.Cell.Types.{CellHash, CellId, Cell, Crypto}
use zfx_subzero.Cell.Ids.{CellIds, from_inputs, from_outputs}

pub data OutputStatus : Type 0 where
  pending accepted rejected : OutputStatus

pub record VertexData : Type 0 where
  pub spenders : HashSet CellHash
  pub status : OutputStatus

pub record ConflictSet : Type 0 where
  pub conflicts : HashSet CellHash
  pub pref : CellHash
  pub last : CellHash
  pub cnt : ℕ

pub record ConflictGraph : Type 0 where
  pub vertices : HashMap CellId VertexData
  pub cells : HashMap CellHash Cell
  pub cs : HashMap CellHash ConflictSet
  pub insertion_order : List CellHash

-- `BETA2` of src/sleet
abbrev pub beta2 : ℕ
beta2 = 20

-- `ConflictSet::new`
unfoldable pub new_set : CellHash → ConflictSet
new_set t = record { conflicts = t ∷ []; pref = t; last = t; cnt = 0 }

unfoldable pub is_singleton_set : ConflictSet → Bool
is_singleton_set set = eqb (length set.conflicts) 1

unfoldable pub remove_from_conflict_set : CellHash → ConflictSet → ConflictSet
remove_from_conflict_set elt set =
    if leb (length set.conflicts) 1
    then set
    else record set { conflicts = HashSet.remove elt set.conflicts }

abbrev open_vertex : OutputStatus → VertexData
open_vertex status = record { spenders = []; status = status }

-- A loop over ids that opens each as a vertex, whatever was there.
unfoldable pub open_vertices :
    OutputStatus → List CellId → HashMap CellId VertexData → HashMap CellId VertexData
open_vertices status [] m = m
open_vertices status (id ∷ ids) m =
    open_vertices status ids (HashMap.insert id (open_vertex status) m)

-- `ConflictGraph::new`
unfoldable pub new : CellIds → ConflictGraph
unfolding open_vertices
new genesis = record {
  vertices = open_vertices accepted genesis [];
  cells = [];
  cs = [];
  insertion_order = [];
}

unfoldable pub append_vertices : List CellId → HashMap CellId VertexData → HashMap CellId VertexData
append_vertices [] m = m
append_vertices (id ∷ ids) m =
    append_vertices ids
      (if HashMap.contains_key id m then m else HashMap.insert id (open_vertex accepted) m)

unfoldable pub append : CellIds → ConflictGraph → ConflictGraph
unfolding append_vertices
append ids graph = record graph { vertices = append_vertices ids graph.vertices }

-- The loop over the consumed ids, which collects the spenders it finds and adds the cell.
unfoldable pub spend :
    CellHash → List CellId → HashSet CellHash → Action ConflictGraph Error (HashSet CellHash)
spend cell_hash [] conflicts graph = (graph, ok conflicts)
spend cell_hash (id ∷ ids) conflicts graph = elim (HashMap.get id graph.vertices) [
  | some vertex ↦ spend cell_hash ids (HashSet.extend conflicts vertex.spenders) (record graph {
    vertices =
        HashMap.modify id (λ v. record v { spenders = HashSet.insert cell_hash v.spenders })
          graph.vertices;
  })
  | none ↦ (graph, err undefined_cell)
]

-- The loop over the conflicts: each conflict's set takes the cell in. A conflict without a set panics.
unfoldable pub join_sets :
    CellHash → List CellHash → Action (HashMap CellHash ConflictSet) Error (Unit {0})
join_sets cell_hash [] cs = (cs, ok tt)
join_sets cell_hash (conflict ∷ conflicts) cs =
    let later = join_sets cell_hash conflicts (
      HashMap.modify conflict
        (λ set. record set { conflicts = HashSet.insert cell_hash set.conflicts }) cs) in
    if HashMap.contains_key conflict cs then later else (cs, panic)

-- `iter().find(|&h| conflicts.contains(h))`
unfoldable pub first_conflict : List CellHash → HashSet CellHash → Option CellHash
first_conflict [] conflicts = none
first_conflict (h ∷ order) conflicts =
    let rest = first_conflict order conflicts in
    if HashSet.contains conflicts h then some h else rest

-- The conflict set of a new cell: it takes the vote of the conflict that came first.
unfoldable pub own_set :
    CellHash
    → HashSet CellHash
    → List CellHash
    → HashMap CellHash ConflictSet
    → Result Error ConflictSet
unfolding new_set first_conflict
own_set cell_hash conflicts order cs =
    let alone = new_set cell_hash in
    let joined = record alone { conflicts = HashSet.extend alone.conflicts conflicts } in
    let voted : Result Error ConflictSet = elim (first_conflict order conflicts) [
      | none ↦ panic
      | some first ↦ elim (HashMap.get first cs) [
        | none ↦ panic
        | some set ↦ ok (record joined { pref = set.pref; last = set.last; cnt = set.cnt })
      ]
    ] in
    if ltb 0 (length conflicts) then voted else ok joined

unfoldable pub link : CellHash → List CellHash → Action ConflictGraph Error (Unit {0})
unfolding join_sets
link cell_hash conflicts graph =
    let (cs, r) = join_sets cell_hash conflicts graph.cs in (record graph { cs = cs }, r)

unfoldable pub vote_in : CellHash → HashSet CellHash → Action ConflictGraph Error (Unit {0})
unfolding own_set
vote_in cell_hash conflicts = do
  own ← (λ graph. (graph, own_set cell_hash conflicts graph.insertion_order graph.cs))
  modify (λ graph. record graph { cs = HashMap.insert cell_hash own graph.cs })

-- What `insert_cell` does once the conflicts are known.
unfoldable pub enter : CellHash → CellIds → HashSet CellHash → Action ConflictGraph Error (Unit {0})
unfolding open_vertices link vote_in
enter cell_hash produced conflicts = do
  modify (λ graph. record graph {
    vertices = open_vertices pending produced graph.vertices;
    insertion_order = graph.insertion_order ++ cell_hash ∷ [];
  })
  link cell_hash conflicts
  vote_in cell_hash conflicts

module _ (crypto : Crypto) where
  -- What `insert_cell` does once the cell is known to be new.
  unfoldable pub insert_new : Cell → Action ConflictGraph Error (Unit {0})
  unfolding spend enter
  insert_new cell = do
    let cell_hash = crypto.hash_cell cell
    conflicts ← spend cell_hash (from_inputs crypto cell.inputs) []
    enter cell_hash (from_outputs crypto cell_hash cell.outputs) conflicts

  unfoldable pub insert_cell : Cell → Action ConflictGraph Error (Unit {0})
  unfolding insert_new
  insert_cell cell graph =
      let cell_hash = crypto.hash_cell cell in
      let graph' = record graph { cells = HashMap.insert cell_hash cell graph.cells } in
      elim (HashMap.get cell_hash graph.cells) [
        | some old ↦ (graph', err duplicate_cell)
        | none ↦ insert_new cell graph'
      ]
