-- ===== src/Graph/Dag/Search/BreadthFirst.antt =====
-- src/graph/dag.rs: the rounds of `bfs` and `conviction`, and what `bfs` returns.
use mathlib.Core.List.{append-nil, append_assoc}
use zfx_subzero.Prelude.{
  ℕ, zero, suc, ◌+◌, ◌≤◌, ◌<◌, ◌≡◌, sym, ◌∙◌, ap, ◌↔◌, true, List, [], ◌∷◌, ◌++◌, arith, length,
  Option-cases, inl, inr, Eq, ◌==◌, ==_refl, Result, ok, unwrap,
}
use zfx_subzero.Prelude.HashSet.{HashSet, contains, IsDistinct}
use zfx_subzero.Prelude.HashMap
use zfx_subzero.Prelude.HashMap.{contains_key, keys, contains-keys}
use zfx_subzero.Graph.Dag.{Adjacency, Dag, adjacent}
use zfx_subzero.Graph.Dag.Invariant.{IsWellFormed}
use zfx_subzero.Graph.Dag.Search.{enqueue_unvisited, bfs_loop, bfs}
use zfx_subzero.Graph.Dag.Search.Measure.{unvisited}
use zfx_subzero.Graph.Dag.Search.DepthFirst.{
  IsClosed, IsWithin, IsWellFormed-IsClosed, start-IsWithin, start_fuel,
}
use zfx_subzero.Graph.Dag.Search.Walk.{Walk, done, visit, Expands, Reach, Walk-exact}
use zfx_subzero.Graph.Dag.Search.Queue.{
  contains-enqueue_visited, contains-enqueue_queue, IsMarked, enqueue-IsDistinct, enqueue_measure,
}

module _ {ℓ} {V : Type ℓ} ⦃e : Eq V⦄ where
  -- The queue and the visited set after the round of `v`.
  abbrev pub after : Adjacency V → V → List V → HashSet V → List V × HashSet V
  after m v rest visited = enqueue_unvisited (adjacent m v) rest visited

  after-Expands :
      (m : Adjacency V) (v : V) (rest : List V) (visited : HashSet V)
      → IsMarked (v ∷ rest) visited
      → Expands m v rest visited (after m v rest visited).0 (after m v rest visited).1
  unfolding contains
  after-Expands m v rest visited h = record {
    added = λ b.
        contains-enqueue_queue (adjacent m v) rest visited b ∙ ground (arith, e.eq_iff v b, h v);
    marked = λ b.
        contains-enqueue_visited (adjacent m v) rest visited b ∙ ground (arith, e.eq_iff v b, h v);
    distinct = λ d k. enqueue-IsDistinct (adjacent m v) rest visited d (λ b q. h b (ground arith));
  }

  after-IsMarked :
      (m : Adjacency V) (v : V) (rest : List V) (visited : HashSet V)
      → IsMarked (v ∷ rest) visited
      → IsMarked (after m v rest visited).0 (after m v rest visited).1
  unfolding contains
  after-IsMarked m v rest visited h b k = ground (
    arith,
    h b,
    contains-enqueue_queue (adjacent m v) rest visited b,
    contains-enqueue_visited (adjacent m v) rest visited b,
  )

  pub after-IsWithin :
      (m : Adjacency V) (v : V) (rest : List V) (visited : HashSet V)
      → IsClosed m
      → IsWithin m (v ∷ rest)
      → IsWithin m (after m v rest visited).0
  unfolding contains
  after-IsWithin m v rest visited c k b h =
      ground (arith, c v b, k b, contains-enqueue_queue (adjacent m v) rest visited b)

  -- The vertices in the order in which the queue gives them.
  unfoldable pub visits : Adjacency V → ℕ → List V → HashSet V → List V
  visits m zero queue visited = []
  visits m (suc n) [] visited = []
  visits m (suc n) (v ∷ rest) visited =
      v ∷ visits m n (after m v rest visited).0 (after m v rest visited).1

  pub after_measure :
      (m : Adjacency V) (v : V) (rest : List V) (visited : HashSet V)
      → IsClosed m
      → length (after m v rest visited).0 + unvisited (keys m) (after m v rest visited).1
        ≤ length rest + unvisited (keys m) visited
  after_measure m v rest visited c =
      enqueue_measure (keys m) (adjacent m v) rest visited (λ b h. contains-keys m b ∙ c v b h)

  pub visits-Walk :
      (m : Adjacency V) (n : ℕ) (queue : List V) (visited : HashSet V)
      → IsClosed m
      → IsMarked queue visited
      → length queue + unvisited (keys m) visited < n
      → Walk m queue visited (visits m n queue visited)
  unfolding visits
  visits-Walk m zero queue visited c k h = absurd (omega arith)
  visits-Walk m (suc n) [] visited c k h = done visited
  visits-Walk m (suc n) (v ∷ rest) visited c k h =
      visit v rest visited _ _ _ (after-Expands m v rest visited k) (
        visits-Walk m n (after m v rest visited).0 (after m v rest visited).1 c
          (after-IsMarked m v rest visited k) (omega (arith, after_measure m v rest visited c)))

  pub unwrap-adjacent {κ} :
      {E : Type κ} (m : Adjacency V) (v : V)
      → contains_key v m ≡ true
      → ◌≡◌ {A = Result E (List V)} (unwrap (HashMap.get v m)) (ok (adjacent m v))
  unwrap-adjacent m v h = elim (Option-cases (HashMap.get v m)) [
    | inl vacant ↦ cc (rw vacant at h)
    | inr (adj, found) ↦ rw (found, adjacent)
  ]

  bfs_loop-visits :
      (m : Adjacency V) (n : ℕ) (queue : List V) (visited : HashSet V) (result : List V)
      → IsClosed m
      → IsWithin m queue
      → length queue + unvisited (keys m) visited < n
      → bfs_loop m n queue visited result ≡ ok (result ++ visits m n queue visited)
  unfolding bfs_loop visits
  bfs_loop-visits m zero queue visited result c k h = absurd (omega arith)
  bfs_loop-visits m (suc n) [] visited result c k h = ap ok (sym (append-nil result))
  bfs_loop-visits m (suc n) (v ∷ rest) visited result c k h =
      rw (unwrap-adjacent m v (k v (unfold contains in ground (arith, ==_refl v)))) (
        bfs_loop-visits m n (after m v rest visited).0 (after m v rest visited).1 (result ++ v ∷ [])
          c (after-IsWithin m v rest visited c k) (omega (arith, after_measure m v rest visited c))
        ∙ ap ok (append_assoc result (v ∷ []) _))

  -- The start of a search by a queue.
  pub start-Walk :
      (m : Adjacency V) (vx : V)
      → IsClosed m
      → Walk m (vx ∷ []) (vx ∷ []) (visits m (suc (suc (length m))) (vx ∷ []) (vx ∷ []))
  start-Walk m vx c =
      visits-Walk m (suc (suc (length m))) (vx ∷ []) (vx ∷ []) c (λ b h. h) (start_fuel m (vx ∷ []))

  pub start_only : (vx b : V) → contains (vx ∷ []) b ≡ true → (vx == b) ≡ true
  unfolding contains
  start_only vx b h = ground arith

  -- In a well-formed graph `bfs` from a vertex returns, with no panic, a list of exactly the vertices
  -- that can be reached along the edges, each once.
  pub bfs-exact :
      (d : Dag V) (vx : V)
      → IsWellFormed d
      → contains_key vx d.g ≡ true
      → (out : List V) × (bfs d vx ≡ ok out)
        × IsDistinct out
        × ((u : V) → (contains out u ≡ true) ↔ Reach d.g vx u)
  unfolding bfs
  bfs-exact d vx w h =
      let closed = IsWellFormed-IsClosed d w in
      let (distinct, exact) = Walk-exact vx (start_only vx) (start-Walk d.g vx closed) in
      (
        visits d.g (suc (suc (length d.g))) (vx ∷ []) (vx ∷ []),
        bfs_loop-visits d.g (suc (suc (length d.g))) (vx ∷ []) (vx ∷ []) [] closed
            (start-IsWithin d.g vx h) (start_fuel d.g (vx ∷ [])),
        distinct,
        exact,
      )
