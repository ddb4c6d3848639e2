-- ===== src/Graph/Dag/Search/Walk.antt =====
-- A search of a graph, whatever the order in which it takes vertices off its worklist: `Walk m w s
-- out` says that from the worklist `w` and the visited set `s` the vertices `out` are taken off.
use zfx_subzero.Prelude.{
  ◌≡◌, refl, sym, subst, ◌↔◌, inl, inr, true, not, ◌&&◌, ◌||◌, List, [], ◌∷◌, arith, Bool-cases,
  or-true, Eq, ◌==◌, ==_refl, ==_sound,
}
use zfx_subzero.Prelude.HashSet.{HashSet, contains, IsDistinct}
use zfx_subzero.Graph.Dag.{Adjacency, adjacent}

-- There is a path along the edges of `m` from `u`.
pub data Reach {ℓ} {V : Type ℓ} ⦃e : Eq V⦄ (m : Adjacency V) (u : V) : V → Type ℓ where
  here : Reach m u u
  step : {v : V} (w : V) → Reach m u v → contains (adjacent m v) w ≡ true → Reach m u w

-- One round: `v` was taken off, and its unvisited edges were added.
pub record Expands {ℓ} {V : Type ℓ} ⦃e : Eq V⦄ (m : Adjacency V) (v : V) (rest : List V)
    (visited : HashSet V) (work' : List V) (visited' : HashSet V) : Type ℓ where
  pub added :
      (b : V)
      → contains work' b
        ≡ (contains rest b || contains (adjacent m v) b && not (v == b || contains visited b))
  pub marked :
      (b : V) → contains visited' b ≡ (v == b || contains visited b || contains (adjacent m v) b)
  pub distinct :
      IsDistinct rest
      → ((b : V) → contains rest b ≡ true → (v == b || contains visited b) ≡ true)
      → IsDistinct work'

pub data Walk {ℓ} {V : Type ℓ} ⦃e : Eq V⦄ (m : Adjacency V)
    : List V → HashSet V → List V → Type ℓ where
  done : (visited : HashSet V) → Walk m [] visited []
  visit :
      (v : V) (rest : List V) (visited : HashSet V) (work' : List V) (visited' : HashSet V)
      (out : List V)
      → Expands m v rest visited work' visited'
      → Walk m work' visited' out
      → Walk m (v ∷ rest) visited (v ∷ out)

module _ {ℓ} {V : Type ℓ} ⦃e : Eq V⦄ where
  -- The worklist behind its first vertex was visited before.
  abbrev pub IsSeen : List V → HashSet V → Type ℓ
  IsSeen [] visited = Unit
  IsSeen (v ∷ rest) visited =
      (b : V) → contains rest b ≡ true → (v == b || contains visited b) ≡ true

  IsSeen-of_subset :
      (work visited : List V)
      → ((b : V) → contains work b ≡ true → contains visited b ≡ true)
      → IsSeen work visited
  unfolding contains
  IsSeen-of_subset [] visited h = tt
  IsSeen-of_subset (v ∷ rest) visited h = λ b k. ground (arith, h b)

module _ {ℓ} {V : Type ℓ} ⦃e : Eq V⦄ {m : Adjacency V} where
  pub Walk-work :
      {work visited out : List V} (b : V)
      → Walk m work visited out
      → contains work b ≡ true
      → contains out b ≡ true
  unfolding contains
  Walk-work b (done visited) h = h
  Walk-work b (visit v rest visited work' visited' out x w) h =
      ground (arith, x.added b, Walk-work b w)

  pub Walk-closed :
      {work visited out : List V} (u b : V)
      → Walk m work visited out
      → contains out u ≡ true
      → contains (adjacent m u) b ≡ true
      → (contains visited b || contains out b) ≡ true
  unfolding contains
  Walk-closed u b (done visited) h k = absurd (cc h)
  Walk-closed u b (visit v rest visited work' visited' out x w) h k = elim (Bool-cases (v == u)) [
    | inl same ↦
        let k' = subst (λ t. contains (adjacent m t) b ≡ true) (sym (==_sound v u same)) k in
        ground (arith, x.added b, Walk-work b w)
    | inr other ↦ ground (arith, x.added b, x.marked b, Walk-work b w, Walk-closed u b w)
  ]

  pub Walk-fresh :
      {work visited out : List V} (b : V)
      → Walk m work visited out
      → contains out b ≡ true
      → (contains work b || not (contains visited b)) ≡ true
  unfolding contains
  Walk-fresh b (done visited) h = absurd (cc h)
  Walk-fresh b (visit v rest visited work' visited' out x w) h =
      ground (arith, x.added b, x.marked b, Walk-fresh b w)

  pub Walk-sound :
      {work visited out : List V} (s b : V)
      → ((a : V) → contains work a ≡ true → Reach m s a)
      → Walk m work visited out
      → contains out b ≡ true
      → Reach m s b
  unfolding contains
  Walk-sound s b r (done visited) h = absurd (cc h)
  Walk-sound s b r (visit v rest visited work' visited' out x w) h =
      let start : Reach m s v = r v (ground (arith, ==_refl v)) in
      let grow : (a : V) → contains work' a ≡ true → Reach m s a = λ a k.
        elim (Bool-cases (contains rest a)) [
          | inl old ↦ r a (ground arith)
          | inr new ↦ step a start (ground (arith, x.added a))
        ] in
      elim (Bool-cases (v == b)) [
        | inl same ↦ subst (λ t. Reach m s t) (==_sound v b same) start
        | inr other ↦ Walk-sound s b grow w (ground arith)
      ]

  pub Walk-IsDistinct :
      {work visited out : List V}
      → IsDistinct work
      → IsSeen work visited
      → Walk m work visited out
      → IsDistinct out
  unfolding contains
  Walk-IsDistinct d seen (done visited) = tt
  Walk-IsDistinct d seen (visit v rest visited work' visited' out x w) = (
    ground (arith, x.added v, x.marked v, Walk-fresh v w, ==_refl v),
    Walk-IsDistinct (x.distinct d.1 seen)
        (IsSeen-of_subset work' visited' (λ b k. ground (arith, x.added b, x.marked b, seen b))) w,
  )

  -- A search from `s` takes off each vertex that can be reached from `s`, once, and no other.
  pub Walk-exact :
      {visited out : List V} (s : V)
      → ((b : V) → contains visited b ≡ true → (s == b) ≡ true)
      → Walk m (s ∷ []) visited out
      → IsDistinct out × ((b : V) → (contains out b ≡ true) ↔ Reach m s b)
  unfolding contains
  Walk-exact {visited} {out} s only w = (
    Walk-IsDistinct (refl, tt) (λ b k. absurd (cc k)) w,
    λ b. (Walk-sound s b starts w, complete b),
  )
    where
      starts : (a : V) → contains (s ∷ []) a ≡ true → Reach m s a
      starts a h = subst (λ t. Reach m s t) (==_sound s a (ground arith)) here

      first : contains out s ≡ true
      first = Walk-work s w (ground (arith, ==_refl s))

      complete : (b : V) → Reach m s b → contains out b ≡ true
      complete b here = first
      complete b (step {v} c r k) = elim (or-true _ _ (Walk-closed v c w (complete v r) k)) [
        | inl old ↦ subst (λ t. contains out t ≡ true) (==_sound s c (only c old)) first
        | inr new ↦ new
      ]
