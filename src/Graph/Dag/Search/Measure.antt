-- ===== src/Graph/Dag/Search/Measure.antt =====
-- The measure by which the searches of src/graph/dag.rs end.
use zfx_subzero.Prelude.{ℕ, ◌≤◌, ◌<◌, ◌≡◌, true, false, List, [], ◌∷◌, arith, length, Eq}
use zfx_subzero.Prelude.HashSet
use zfx_subzero.Prelude.HashSet.{
  HashSet, contains, contains-insert, contains-append, IsDistinct, IsDistinct-snoc,
}

module _ {ℓ} {V : Type ℓ} ⦃e : Eq V⦄ where
  -- The number of vertices of `ks` that were not visited.
  pub unvisited : List V → HashSet V → ℕ
  unvisited ks visited = length (HashSet.difference ks visited)

  pub unvisited-insert_le :
      (ks : List V) (visited : HashSet V) (v : V)
      → unvisited ks (HashSet.insert v visited) ≤ unvisited ks visited
  unfolding unvisited HashSet.difference
  unvisited-insert_le [] visited v = omega arith
  unvisited-insert_le (k ∷ ks) visited v =
      ground (arith, contains-insert v visited k, unvisited-insert_le ks visited v)

  pub unvisited-insert_lt :
      (ks : List V) (visited : HashSet V) (v : V)
      → contains ks v ≡ true
      → contains visited v ≡ false
      → unvisited ks (HashSet.insert v visited) < unvisited ks visited
  unfolding unvisited HashSet.difference contains
  unvisited-insert_lt [] visited v h n = absurd (cc h)
  unvisited-insert_lt (k ∷ ks) visited v h n = ground (
    arith,
    contains-insert v visited k,
    e.eq_iff k v,
    e.eq_iff v k,
    unvisited-insert_le ks visited v,
    unvisited-insert_lt ks visited v,
  )

  pub unvisited-le : (ks : List V) (visited : HashSet V) → unvisited ks visited ≤ length ks
  unfolding unvisited HashSet.difference
  unvisited-le [] visited = omega arith
  unvisited-le (k ∷ ks) visited = ground (arith, unvisited-le ks visited)
