-- ===== src/Examples/Graphs.antt =====
-- The graph of src/graph/dag.rs, on a diamond of four vertices.
use zfx_subzero.Prelude.{
  ℕ, ◌≡◌, refl, ◌↔◌, true, not, ◌&&◌, ◌||◌, if◌then◌else◌, err, some, List, [], ◌∷◌, ok, arith,
  ◌==◌, nat_eq,
}
use zfx_subzero.Prelude.HashSet
use zfx_subzero.Prelude.HashSet.{HashSet, contains, IsDistinct}
use zfx_subzero.Prelude.HashMap
use zfx_subzero.Prelude.HashMap.{contains_key}
use zfx_subzero.Graph.Dag.{
  Dag, new, insert_vx, remove_vx, set_chit, adjacent, edit_entries, insert_edges,
}
use zfx_subzero.Graph.Dag.Invariant.{IsWellFormed, new-IsWellFormed}
use zfx_subzero.Graph.Dag.Invariant.Insertion.{insert_vx-IsWellFormed}
use zfx_subzero.Graph.Dag.Invariant.Removal.{remove_vx-IsWellFormed}
use zfx_subzero.Graph.Dag.Invariant.Failure.{insert_vx-vertex_exists}
use zfx_subzero.Graph.{vertex_exists}
use zfx_subzero.Graph.Dag.Search.{bfs, dfs, conviction}
use zfx_subzero.Graph.Dag.Search.Walk.{Reach}
use zfx_subzero.Graph.Dag.Search.DepthFirst.{dfs-exact}
use zfx_subzero.Graph.Dag.Search.BreadthFirst.{bfs-exact}
use zfx_subzero.Graph.Dag.Search.Conviction.{byte_sum, total_chits, conviction-sum}

-- The graphs that `insert_vx` makes, vertex by vertex.
abbrev one : Dag ℕ
one = record { g = (1, []) ∷ []; inv = (1, []) ∷ []; chits = (1, 0) ∷ [] }

abbrev two : Dag ℕ
two = record {
  g = (1, []) ∷ (2, 1 ∷ []) ∷ [];
  inv = (1, 2 ∷ []) ∷ (2, []) ∷ [];
  chits = (1, 0) ∷ (2, 0) ∷ [];
}

abbrev three : Dag ℕ
three = record {
  g = (1, []) ∷ (2, 1 ∷ []) ∷ (3, 1 ∷ []) ∷ [];
  inv = (1, 2 ∷ 3 ∷ []) ∷ (2, []) ∷ (3, []) ∷ [];
  chits = (1, 0) ∷ (2, 0) ∷ (3, 0) ∷ [];
}

abbrev diamond : Dag ℕ
diamond = record {
  g = (1, []) ∷ (2, 1 ∷ []) ∷ (3, 1 ∷ []) ∷ (4, 2 ∷ 3 ∷ []) ∷ [];
  inv = (1, 2 ∷ 3 ∷ []) ∷ (2, 4 ∷ []) ∷ (3, 4 ∷ []) ∷ (4, []) ∷ [];
  chits = (1, 0) ∷ (2, 0) ∷ (3, 0) ∷ (4, 0) ∷ [];
}

-- The diamond after a vote for its last vertex.
abbrev voted : Dag ℕ
voted = record diamond { chits = (1, 0) ∷ (2, 0) ∷ (3, 0) ∷ (4, 1) ∷ [] }

two-IsWellFormed : IsWellFormed two
unfolding new insert_vx edit_entries insert_edges set_chit HashMap.get HashMap.insert HashMap.modify
two-IsWellFormed =
    (insert_vx-IsWellFormed 2 (1 ∷ []) one
      (insert_vx-IsWellFormed 1 [] (new {V = ℕ}) new-IsWellFormed refl).0 refl).0

three-IsWellFormed : IsWellFormed three
unfolding new insert_vx edit_entries insert_edges set_chit HashMap.get HashMap.insert HashMap.modify
three-IsWellFormed = (insert_vx-IsWellFormed 3 (1 ∷ []) two two-IsWellFormed refl).0

diamond-IsWellFormed : IsWellFormed diamond
unfolding new insert_vx edit_entries insert_edges set_chit HashMap.get HashMap.insert HashMap.modify
diamond-IsWellFormed = (insert_vx-IsWellFormed 4 (2 ∷ 3 ∷ []) three three-IsWellFormed refl).0

insert_vx-IsWellFormed_example :
    IsWellFormed diamond
    × ((u : ℕ) → contains_key u diamond.g ≡ (4 == u || contains_key u three.g))
    × ((u v : ℕ)
        → contains (adjacent diamond.g u) v
          ≡ (if 4 == u then contains (2 ∷ 3 ∷ []) v else contains (adjacent three.g u) v))
    × ((u : ℕ)
        → HashMap.get u diamond.chits ≡ (if 4 == u then some 0 else HashMap.get u three.chits))
unfolding new insert_vx edit_entries insert_edges set_chit HashMap.get HashMap.insert HashMap.modify
insert_vx-IsWellFormed_example = insert_vx-IsWellFormed 4 (2 ∷ 3 ∷ []) three three-IsWellFormed refl

diamond_has_four : contains_key 4 diamond.g ≡ true
unfolding new insert_vx edit_entries insert_edges set_chit HashMap.get HashMap.insert HashMap.modify
diamond_has_four = refl

diamond_has_one : contains_key 1 diamond.g ≡ true
unfolding new insert_vx edit_entries insert_edges set_chit HashMap.get HashMap.insert HashMap.modify
diamond_has_one = refl

three_has : (j : ℕ) → contains (3 ∷ []) j ≡ true → contains_key j diamond.g ≡ true
unfolding new insert_vx edit_entries insert_edges set_chit HashMap.get HashMap.insert HashMap.modify
    contains
three_has j h = ground arith

insert_vx-vertex_exists_example :
    ((insert_vx 4 (3 ∷ []) diamond).1 ≡ err vertex_exists)
    × ((insert_vx 4 (3 ∷ []) diamond).0.g ≡ diamond.g)
    × ((insert_vx 4 (3 ∷ []) diamond).0.chits ≡ diamond.chits)
    × ((v u : ℕ)
        → contains (adjacent (insert_vx 4 (3 ∷ []) diamond).0.inv v) u
          ≡ (contains (adjacent diamond.inv v) u || contains (3 ∷ []) v && 4 == u))
insert_vx-vertex_exists_example =
    insert_vx-vertex_exists 4 (3 ∷ []) diamond diamond-IsWellFormed diamond_has_four three_has

voted-IsWellFormed : IsWellFormed voted
unfolding new insert_vx edit_entries insert_edges set_chit HashMap.get HashMap.insert HashMap.modify
voted-IsWellFormed =
    let w = diamond-IsWellFormed in
    record {
      same_keys = w.same_keys;
      mirrored = w.mirrored;
      has_chit = λ u h. ground (arith, w.has_chit u h);
    }

voted_has_four : contains_key 4 voted.g ≡ true
unfolding new insert_vx edit_entries insert_edges set_chit HashMap.get HashMap.insert HashMap.modify
voted_has_four = refl

voted_chit : HashMap.get 4 voted.chits ≡ some 1
unfolding new insert_vx edit_entries insert_edges set_chit HashMap.get HashMap.insert HashMap.modify
voted_chit = refl

three_stays : (j : ℕ) → contains (3 ∷ []) j ≡ true → contains_key j (remove_vx 4 voted).0.g ≡ true
unfolding new insert_vx edit_entries insert_edges set_chit HashMap.get HashMap.insert HashMap.modify
    remove_vx HashMap.remove HashSet.remove HashSet.extend contains
three_stays j h = ground arith

remove_vx-IsWellFormed_example :
    (d' : Dag ℕ) × (children : HashSet ℕ) × (remove_vx 4 diamond ≡ (d', ok children))
    × IsWellFormed d'
    × ((u : ℕ) → contains children u ≡ contains (adjacent diamond.g u) 4)
    × ((u : ℕ) → contains_key u d'.g ≡ (not (4 == u) && contains_key u diamond.g))
    × ((u v : ℕ)
        → contains (adjacent d'.g u) v
          ≡ (contains (adjacent diamond.g u) v && not (4 == u) && not (4 == v)))
    × (d'.chits ≡ diamond.chits)
remove_vx-IsWellFormed_example =
    remove_vx-IsWellFormed 4 diamond diamond-IsWellFormed diamond_has_four

dfs-exact_example :
    IsDistinct (dfs diamond 4)
    × ((u : ℕ) → (contains (dfs diamond 4) u ≡ true) ↔ Reach diamond.g 4 u)
dfs-exact_example = dfs-exact diamond 4 diamond-IsWellFormed diamond_has_four

bfs-exact_example :
    (out : List ℕ) × (bfs diamond 4 ≡ ok out)
    × IsDistinct out
    × ((u : ℕ) → (contains out u ≡ true) ↔ Reach diamond.g 4 u)
bfs-exact_example = bfs-exact diamond 4 diamond-IsWellFormed diamond_has_four

conviction-sum_example :
    (progeny : List ℕ) × IsDistinct progeny
    × ((u : ℕ) → (contains progeny u ≡ true) ↔ Reach voted.inv 4 u)
    × (conviction voted 4 ≡ byte_sum (total_chits voted progeny))
conviction-sum_example = conviction-sum voted 4 voted-IsWellFormed voted_has_four
