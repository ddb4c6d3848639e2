-- ===== src/Graph/Dag/Search.antt =====
-- src/graph/dag.rs: the searches `dfs`, `bfs` and `conviction`. A search runs on fuel, one unit for
-- each vertex that it takes off its stack or queue; it gets two more than the number of vertices,
-- since each vertex is put there at most once. Where `bfs` and `conviction` would panic, or run out
-- of fuel, they `panic`.
pub mod Walk
pub mod Measure
pub mod DepthFirst
pub mod Queue
pub mod BreadthFirst
pub mod Conviction
pub mod Ancestry
use zfx_subzero.Prelude.{
  ℕ, zero, suc, ◌+◌, Option, none, some, List, [], ◌∷◌, ◌++◌, if◌then◌else◌, ltb, length, Result,
  ok, err, panic, unwrap, Eq, ◌>>=◌,
}
use zfx_subzero.Prelude.HashSet
use zfx_subzero.Prelude.HashSet.{HashSet}
use zfx_subzero.Prelude.HashMap
use zfx_subzero.Graph.{Error, chit_overflow}
use zfx_subzero.Graph.Dag.{Adjacency, Dag, get_chit}

-- `u8::checked_add`
pub checked_add : ℕ → ℕ → Result Error ℕ
checked_add sum chit = if ltb (sum + chit) 256 then ok (sum + chit) else err chit_overflow

-- The state of the `DFS` iterator; the top of the stack comes first.
pub record Dfs {ℓ} (V : Type ℓ) : Type ℓ where
  pub stack : List V
  pub visited : HashSet V

module _ {ℓ} {V : Type ℓ} ⦃e : Eq V⦄ where
  -- The loop over the edges of a vertex, which pushes those that were not visited.
  unfoldable pub push_unvisited : List V → Dfs V → Dfs V
  unfolding HashSet.contains HashSet.insert
  push_unvisited [] s = s
  push_unvisited (v ∷ vs) s = push_unvisited vs record {
    stack = if HashSet.contains s.visited v then s.stack else v ∷ s.stack;
    visited = HashSet.insert v s.visited;
  }

  unfoldable pub next_from : Adjacency V → V → Dfs V → Option (V × Dfs V)
  unfolding push_unvisited HashMap.get
  next_from g v s = elim (HashMap.get v g) [
    | none ↦ none
    | some adj ↦ some (v, push_unvisited adj (record s { visited = HashSet.insert v s.visited }))
  ]

  unfoldable pub next : Adjacency V → Dfs V → Option (V × Dfs V)
  unfolding next_from
  next g s = elim s.stack [ [] ↦ none | v ∷ rest ↦ next_from g v (record s { stack = rest }) ]

  -- What a `for` loop over the iterator sees: all up to the first `None`.
  unfoldable pub collect : Adjacency V → ℕ → Dfs V → List V
  unfolding next
  collect g zero s = []
  collect g (suc n) s = elim (next g s) [ none ↦ [] | some (v, s') ↦ v ∷ collect g n s' ]

  unfoldable pub dfs : Dag V → V → List V
  unfolding collect
  dfs d vx = collect d.g (suc (suc (length d.g))) (record { stack = vx ∷ []; visited = [] })

  -- The loop over the edges that enqueues those that were not visited: queue and visited set.
  unfoldable pub enqueue_unvisited : List V → List V → HashSet V → List V × HashSet V
  unfolding HashSet.contains HashSet.insert
  enqueue_unvisited [] queue visited = (queue, visited)
  enqueue_unvisited (v ∷ vs) queue visited =
      enqueue_unvisited vs (if HashSet.contains visited v then queue else queue ++ v ∷ [])
        (HashSet.insert v visited)

  unfoldable pub bfs_loop : Adjacency V → ℕ → List V → HashSet V → List V → Result Error (List V)
  unfolding enqueue_unvisited HashMap.get
  bfs_loop g zero queue visited result = panic
  bfs_loop g (suc n) [] visited result = ok result
  bfs_loop g (suc n) (elt ∷ rest) visited result = do
    adj ← unwrap (HashMap.get elt g)
    bfs_loop g n (enqueue_unvisited adj rest visited).0 (enqueue_unvisited adj rest visited).1
        (result ++ elt ∷ [])

  unfoldable pub bfs : Dag V → V → Result Error (List V)
  unfolding bfs_loop
  bfs d vx = bfs_loop d.g (suc (suc (length d.g))) (vx ∷ []) (vx ∷ []) []

  unfoldable pub conviction_loop : Dag V → ℕ → List V → HashSet V → ℕ → Result Error ℕ
  unfolding enqueue_unvisited get_chit checked_add HashMap.get
  conviction_loop d zero queue visited sum = panic
  conviction_loop d (suc n) [] visited sum = ok sum
  conviction_loop d (suc n) (elt ∷ rest) visited sum = do
    chit ← get_chit d elt
    sum' ← checked_add sum chit
    adj ← unwrap (HashMap.get elt d.inv)
    conviction_loop d n (enqueue_unvisited adj rest visited).0
        (enqueue_unvisited adj rest visited).1 sum'

  unfoldable pub conviction : Dag V → V → Result Error ℕ
  unfolding conviction_loop
  conviction d vx = conviction_loop d (suc (suc (length d.inv))) (vx ∷ []) (vx ∷ []) 0
