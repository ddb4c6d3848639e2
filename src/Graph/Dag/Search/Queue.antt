-- ===== src/Graph/Dag/Search/Queue.antt =====
-- src/graph/dag.rs: the queue of `bfs` and `conviction`.
use native.Mathlib.Nat.{le_trans}
use zfx_subzero.Prelude.{
  ◌+◌, ◌≤◌, ◌≡◌, ◌∙◌, true, not, ◌&&◌, ◌||◌, List, [], ◌∷◌, ◌++◌, arith, length, length-append,
  Bool-cases, inl, inr, Eq, ◌==◌, ==_refl, if◌then◌else◌,
}
use zfx_subzero.Prelude.HashSet
use zfx_subzero.Prelude.HashSet.{
  HashSet, contains, contains-insert, contains-append, IsDistinct, IsDistinct-snoc,
}
use zfx_subzero.Graph.Dag.Search.{enqueue_unvisited}
use zfx_subzero.Graph.Dag.Search.Measure.{unvisited, unvisited-insert_le, unvisited-insert_lt}
use zfx_subzero.Graph.Dag.Search.DepthFirst.{}

module _ {ℓ} {V : Type ℓ} ⦃e : Eq V⦄ where
  -- The queue after one edge.
  abbrev enqueued : V → List V → HashSet V → List V
  enqueued v queue visited = if contains visited v then queue else queue ++ v ∷ []

  contains-enqueued :
      (v : V) (queue : List V) (visited : HashSet V) (b : V)
      → contains (enqueued v queue visited) b
        ≡ (contains queue b || v == b && not (contains visited v))
  unfolding contains
  contains-enqueued v queue visited b = elim (Bool-cases (contains visited v)) [
    | inl old ↦ rw old (ground arith)
    | inr new ↦ rw new (ground (arith, contains-append queue (v ∷ []) b))
  ]

  pub contains-enqueue_visited :
      (vs queue : List V) (visited : HashSet V) (b : V)
      → contains (enqueue_unvisited vs queue visited).1 b ≡ (contains visited b || contains vs b)
  unfolding enqueue_unvisited contains
  contains-enqueue_visited [] queue visited b = ground arith
  contains-enqueue_visited (v ∷ vs) queue visited b =
      contains-enqueue_visited vs (enqueued v queue visited) (HashSet.insert v visited) b
      ∙ ground (arith, contains-insert v visited b)

  pub contains-enqueue_queue :
      (vs queue : List V) (visited : HashSet V) (b : V)
      → contains (enqueue_unvisited vs queue visited).0 b
        ≡ (contains queue b || contains vs b && not (contains visited b))
  unfolding enqueue_unvisited contains
  contains-enqueue_queue [] queue visited b = ground arith
  contains-enqueue_queue (v ∷ vs) queue visited b =
      contains-enqueue_queue vs (enqueued v queue visited) (HashSet.insert v visited) b
      ∙ ground
          (arith, contains-insert v visited b, contains-enqueued v queue visited b, e.eq_iff v b)

  -- All of the queue is marked as visited.
  abbrev pub IsMarked : List V → HashSet V → Type ℓ
  IsMarked queue visited = (b : V) → contains queue b ≡ true → contains visited b ≡ true

  enqueued-IsMarked :
      (v : V) (queue : List V) (visited : HashSet V)
      → IsMarked queue visited
      → IsMarked (enqueued v queue visited) (HashSet.insert v visited)
  enqueued-IsMarked v queue visited h b k =
      ground (arith, h b, contains-insert v visited b, contains-enqueued v queue visited b)

  enqueued-IsDistinct :
      (v : V) (queue : List V) (visited : HashSet V)
      → IsDistinct queue
      → IsMarked queue visited
      → IsDistinct (enqueued v queue visited)
  enqueued-IsDistinct v queue visited d h = elim (Bool-cases (contains visited v)) [
    | inl old ↦ rw old d
    | inr new ↦ rw new (IsDistinct-snoc queue v d (ground (arith, h v)))
  ]

  pub enqueue-IsDistinct :
      (vs queue : List V) (visited : HashSet V)
      → IsDistinct queue
      → IsMarked queue visited
      → IsDistinct (enqueue_unvisited vs queue visited).0
  unfolding enqueue_unvisited
  enqueue-IsDistinct [] queue visited d h = d
  enqueue-IsDistinct (v ∷ vs) queue visited d h =
      enqueue-IsDistinct vs (enqueued v queue visited) (HashSet.insert v visited)
        (enqueued-IsDistinct v queue visited d h) (enqueued-IsMarked v queue visited h)

  enqueued_measure :
      (ks : List V) (v : V) (queue : List V) (visited : HashSet V)
      → contains ks v ≡ true
      → length (enqueued v queue visited) + unvisited ks (HashSet.insert v visited)
        ≤ length queue + unvisited ks visited
  enqueued_measure ks v queue visited h = ground (
    arith,
    unvisited-insert_le ks visited v,
    unvisited-insert_lt ks visited v,
    length-append queue (v ∷ []),
  )

  pub enqueue_measure :
      (ks vs queue : List V) (visited : HashSet V)
      → ((b : V) → contains vs b ≡ true → contains ks b ≡ true)
      → length (enqueue_unvisited vs queue visited).0
          + unvisited ks (enqueue_unvisited vs queue visited).1
        ≤ length queue + unvisited ks visited
  unfolding enqueue_unvisited contains
  enqueue_measure ks [] queue visited h = omega arith
  enqueue_measure ks (v ∷ vs) queue visited h =
      le_trans
        (enqueue_measure ks vs (enqueued v queue visited) (HashSet.insert v visited)
          (λ b k. h b (ground arith)))
        (enqueued_measure ks v queue visited (h v (ground (arith, ==_refl v))))
