-- ===== src/Graph/Dag/Search/Ancestry.antt =====
-- A test of each vertex that `dfs` yields, as `is_strongly_preferred` and `is_accepted` of src/sleet
-- and src/hail make it.
use zfx_subzero.Prelude.{[], ◌∷◌, arith, ◌≡◌, ◌↔◌, Bool, true, false, Result, ok, Eq}
use zfx_subzero.Prelude.HashSet.{contains}
use zfx_subzero.Prelude.HashMap
use zfx_subzero.Prelude.HashMap.{contains_key}
use zfx_subzero.Prelude.Checks.{all_ok, all_ok-true, all_ok-false, all_ok-ends}
use zfx_subzero.Graph.Dag.{Dag, Adjacency, leaves, childless}
use zfx_subzero.Graph.Dag.Invariant.{IsWellFormed}
use zfx_subzero.Graph.Dag.Search.{dfs}
use zfx_subzero.Graph.Dag.Search.Walk.{Reach, here, step}
use zfx_subzero.Graph.Dag.Search.DepthFirst.{dfs-exact, IsClosed}

module _ {ℓ κ} {V : Type ℓ} {E : Type κ} ⦃e : Eq V⦄ (f : V → Result E Bool) (d : Dag V) (vx : V)
    (w : IsWellFormed d) (h : contains_key vx d.g ≡ true) where
  -- It says yes exactly if each vertex that can be reached passes.
  pub all_ok-dfs-true : (all_ok f (dfs d vx) ≡ ok true) ↔ ((u : V) → Reach d.g vx u → f u ≡ ok true)
  all_ok-dfs-true =
      let (_, exact) = dfs-exact d vx w h in
      let (to, from) = all_ok-true f (dfs d vx) in
      (λ k u r. to k u ((exact u).1 r), λ k. from (λ u c. k u ((exact u).0 c)))

  -- If it says no, one of them fails.
  pub all_ok-dfs-false :
      all_ok f (dfs d vx) ≡ ok false → (u : V) × Reach d.g vx u × (f u ≡ ok false)
  all_ok-dfs-false k =
      let (u, c, bad) = all_ok-false f (dfs d vx) k in (u, ((dfs-exact d vx w h).1 u).0 c, bad)

  -- It ends if each test does.
  pub all_ok-dfs-ends :
      ((u : V) → Reach d.g vx u → (b : Bool) × (f u ≡ ok b))
      → (b : Bool) × (all_ok f (dfs d vx) ≡ ok b)
  all_ok-dfs-ends k = all_ok-ends f (dfs d vx) (λ u c. k u (((dfs-exact d vx w h).1 u).0 c))

module _ {ℓ} {V : Type ℓ} ⦃e : Eq V⦄ {m : Adjacency V} where
  pub Reach-trans : {u v w : V} → Reach m u v → Reach m v w → Reach m u w
  Reach-trans r here = r
  Reach-trans r (step w r' h) = step w (Reach-trans r r') h

  -- What is reached from a vertex of the graph is a vertex of the graph.
  pub Reach-contains_key :
      {u v : V} → IsClosed m → contains_key u m ≡ true → Reach m u v → contains_key v m ≡ true
  Reach-contains_key c h here = h
  Reach-contains_key c h (step {v} w r k) = c v w k

module _ {ℓ} {V : Type ℓ} ⦃e : Eq V⦄ where
  childless-contains_key :
      (m : Adjacency V) (v : V) → contains (childless m) v ≡ true → contains_key v m ≡ true
  unfolding childless contains HashMap.get
  childless-contains_key [] v h = absurd (cc h)
  childless-contains_key ((u, []) ∷ m) v h = ground (arith, childless-contains_key m v)
  childless-contains_key ((u, x ∷ xs) ∷ m) v h = ground (arith, childless-contains_key m v)

  -- The leaves are among the vertices of the inverted graph.
  pub leaves-contains_key :
      (d : Dag V) (v : V) → contains (leaves d) v ≡ true → contains_key v d.inv ≡ true
  unfolding leaves
  leaves-contains_key d v h = childless-contains_key d.inv v h
