-- ===== src/Graph/Dag/Search/DepthFirst.antt =====
-- src/graph/dag.rs: the iterator `DFS` ends, and yields each vertex that can be reached, once.
use zfx_subzero.Prelude.{
  ◌↔◌, ℕ, zero, suc, ◌+◌, ◌≤◌, ◌<◌, ◌≡◌, sym, ◌∙◌, true, not, ◌&&◌, ◌||◌, some, List, [], ◌∷◌,
  arith, length, length-map, Bool-cases, Option-cases, inl, inr, Eq, ==_refl, if◌then◌else◌,
}
use zfx_subzero.Prelude.HashSet
use zfx_subzero.Prelude.HashSet.{
  HashSet, contains, contains-insert, contains-append, IsDistinct, IsDistinct-snoc,
}
use zfx_subzero.Prelude.HashMap
use zfx_subzero.Prelude.HashMap.{contains_key, keys, contains-keys}
use zfx_subzero.Graph.Dag.{Adjacency, Dag, adjacent}
use native.Mathlib.Nat.{le_trans}
use zfx_subzero.Graph.Dag.Invariant.{IsWellFormed}
use zfx_subzero.Graph.Dag.Search.{dfs, Dfs, push_unvisited, next, next_from, collect}
use zfx_subzero.Graph.Dag.Search.Walk.{Walk, done, visit, Expands, Reach, Walk-exact}
use zfx_subzero.Graph.Dag.Search.Measure.{
  unvisited, unvisited-insert_le, unvisited-insert_lt, unvisited-le,
}

module _ {ℓ} {V : Type ℓ} ⦃e : Eq V⦄ where
  -- The loop of `dfs` over the edges of a vertex.
  contains-push_visited :
      (vs : List V) (s : Dfs V) (b : V)
      → contains (push_unvisited vs s).visited b ≡ (contains s.visited b || contains vs b)
  unfolding push_unvisited contains
  contains-push_visited [] s b = ground arith
  contains-push_visited (v ∷ vs) s b =
      contains-push_visited vs _ b ∙ ground (arith, contains-insert v s.visited b)

  contains-push_stack :
      (vs : List V) (s : Dfs V) (b : V)
      → contains (push_unvisited vs s).stack b
        ≡ (contains s.stack b || contains vs b && not (contains s.visited b))
  unfolding push_unvisited contains
  contains-push_stack [] s b = ground arith
  contains-push_stack (v ∷ vs) s b =
      contains-push_stack vs _ b ∙ ground (arith, contains-insert v s.visited b, e.eq_iff v b)

  abbrev pushed : V → Dfs V → Dfs V
  pushed v s = record {
    stack = if contains s.visited v then s.stack else v ∷ s.stack;
    visited = HashSet.insert v s.visited;
  }

  pushed-IsDistinct :
      (v : V) (s : Dfs V)
      → IsDistinct s.stack
      → ((b : V) → contains s.stack b ≡ true → contains s.visited b ≡ true)
      → IsDistinct (pushed v s).stack
  pushed-IsDistinct v s d h = elim (Bool-cases (contains s.visited v)) [
    | inl old ↦ rw old d
    | inr new ↦ rw new (ground (arith, h v), d)
  ]

  pushed_visited :
      (v : V) (s : Dfs V)
      → ((b : V) → contains s.stack b ≡ true → contains s.visited b ≡ true)
      → (b : V) → contains (pushed v s).stack b ≡ true
      → contains (pushed v s).visited b ≡ true
  unfolding contains
  pushed_visited v s h b k =
      contains-insert v s.visited b ∙ elim (Bool-cases (contains s.visited v)) [
        | inl old ↦ ground (arith, h b (rw old at k))
        | inr new ↦ ground (arith, h b, rw new at k)
      ]

  push-IsDistinct :
      (vs : List V) (s : Dfs V)
      → IsDistinct s.stack
      → ((b : V) → contains s.stack b ≡ true → contains s.visited b ≡ true)
      → IsDistinct (push_unvisited vs s).stack
  unfolding push_unvisited
  push-IsDistinct [] s d h = d
  push-IsDistinct (v ∷ vs) s d h =
      push-IsDistinct vs (pushed v s) (pushed-IsDistinct v s d h) (pushed_visited v s h)

  push-measure :
      (ks vs : List V) (s : Dfs V)
      → ((b : V) → contains vs b ≡ true → contains ks b ≡ true)
      → length (push_unvisited vs s).stack + unvisited ks (push_unvisited vs s).visited
        ≤ length s.stack + unvisited ks s.visited
  unfolding push_unvisited contains
  push-measure ks [] s h = omega arith
  push-measure ks (v ∷ vs) s h = ground (
    arith,
    unvisited-insert_le ks s.visited v,
    unvisited-insert_lt ks s.visited v,
    h v (ground (arith, ==_refl v)),
    push-measure ks vs (pushed v s) (λ b k. h b (ground arith)),
  )

  -- Each edge leads to a vertex of the graph.
  abbrev pub IsClosed : Adjacency V → Type ℓ
  IsClosed m = (u v : V) → contains (adjacent m u) v ≡ true → contains_key v m ≡ true

  pub IsWellFormed-IsClosed : (d : Dag V) → IsWellFormed d → IsClosed d.g
  unfolding contains
  IsWellFormed-IsClosed d w u v h = elim (Option-cases (HashMap.get v d.inv)) [
    | inl vacant ↦ cc (rw (vacant, adjacent) at (sym (w.mirrored u v) ∙ h))
    | inr (edges, found) ↦ w.same_keys v ∙ rw found
  ]

  -- The state after `v` was taken off the stack.
  abbrev after : Adjacency V → V → List V → HashSet V → Dfs V
  after m v rest visited =
      push_unvisited (adjacent m v) (record { stack = rest; visited = HashSet.insert v visited })

  next-eq_some :
      (m : Adjacency V) (v : V) (rest : List V) (visited : HashSet V)
      → contains_key v m ≡ true
      → next m (record { stack = v ∷ rest; visited = visited }) ≡ some (v, after m v rest visited)
  unfolding next
  next-eq_some m v rest visited h = elim (Option-cases (HashMap.get v m)) [
    | inl vacant ↦ cc (rw vacant at h)
    | inr (adj, found) ↦ rw (found, next_from, adjacent)
  ]

  after-Expands :
      (m : Adjacency V) (v : V) (rest : List V) (visited : HashSet V)
      → Expands m v rest visited (after m v rest visited).stack (after m v rest visited).visited
  after-Expands m v rest visited = record {
    added =
        λ b. contains-push_stack (adjacent m v) _ b ∙ ground (arith, contains-insert v visited b);
    marked =
        λ b. contains-push_visited (adjacent m v) _ b ∙ ground (arith, contains-insert v visited b);
    distinct =
        λ d h. push-IsDistinct (adjacent m v) _ d (λ b k. contains-insert v visited b ∙ h b k);
  }

  collect-next :
      (m : Adjacency V) (n : ℕ) (s : Dfs V) {v : V} {s' : Dfs V}
      → next m s ≡ some (v, s')
      → collect m (suc n) s ≡ v ∷ collect m n s'
  unfolding collect
  collect-next m n s h = rw (h, collect)

  -- The stack holds vertices of the graph alone.
  abbrev pub IsWithin : Adjacency V → List V → Type ℓ
  IsWithin m vs = (b : V) → contains vs b ≡ true → contains_key b m ≡ true

  after-IsWithin :
      (m : Adjacency V) (v : V) (rest : List V) (visited : HashSet V)
      → IsClosed m
      → IsWithin m rest
      → IsWithin m (after m v rest visited).stack
  after-IsWithin m v rest visited c k b h = ground (
    arith,
    c v b,
    k b,
    contains-push_stack (adjacent m v) (record { stack = rest; visited = HashSet.insert v visited })
        b,
  )

  after-measure :
      (m : Adjacency V) (v : V) (rest : List V) (visited : HashSet V)
      → IsClosed m
      → length (after m v rest visited).stack + unvisited (keys m) (after m v rest visited).visited
        ≤ length rest + unvisited (keys m) visited
  after-measure m v rest visited c =
      le_trans (push-measure (keys m) (adjacent m v) _ (λ b h. contains-keys m b ∙ c v b h))
        (omega (arith, unvisited-insert_le (keys m) visited v))

  collect-Walk :
      (m : Adjacency V) (n : ℕ) (stack : List V) (visited : HashSet V)
      → IsClosed m
      → IsWithin m stack
      → length stack + unvisited (keys m) visited < n
      → Walk m stack visited (collect m n (record { stack = stack; visited = visited }))
  collect-Walk m zero stack visited c k h = absurd (omega arith)
  collect-Walk m (suc n) [] visited c k h = unfold collect in done visited
  collect-Walk m (suc n) (v ∷ rest) visited c k h =
      rw
        (collect-next m n (record { stack = v ∷ rest; visited = visited })
          (next-eq_some m v rest visited (k v (unfold contains in ground (arith, ==_refl v)))))
        (visit v rest visited _ _ _ (after-Expands m v rest visited) (
          collect-Walk m n (after m v rest visited).stack (after m v rest visited).visited c
            (after-IsWithin m v rest visited c (λ b q. k b (unfold contains in ground arith)))
            (omega (arith, after-measure m v rest visited c))))

  pub start-IsWithin : (m : Adjacency V) (vx : V) → contains_key vx m ≡ true → IsWithin m (vx ∷ [])
  unfolding contains
  start-IsWithin m vx h b k = ground (arith, e.eq_iff vx b)

  pub start_fuel :
      (m : Adjacency V) (visited : HashSet V)
      → 1 + unvisited (keys m) visited < suc (suc (length m))
  start_fuel m visited =
      omega (arith, unvisited-le (keys m) visited, length-map (λ (p : V × List V). p.0) m)

  -- In a well-formed graph `dfs` from a vertex yields exactly the vertices that can be reached
  -- along the edges, each once.
  pub dfs-exact :
      (d : Dag V) (vx : V)
      → IsWellFormed d
      → contains_key vx d.g ≡ true
      → IsDistinct (dfs d vx) × ((u : V) → (contains (dfs d vx) u ≡ true) ↔ Reach d.g vx u)
  unfolding dfs
  dfs-exact d vx w h =
      Walk-exact vx (λ b k. absurd (unfold contains in cc k))
        (collect-Walk d.g (suc (suc (length d.g))) (vx ∷ []) [] (IsWellFormed-IsClosed d w)
          (start-IsWithin d.g vx h) (start_fuel d.g []))
