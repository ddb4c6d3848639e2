-- ===== src/Graph/Dag/Invariant/Insertion.antt =====
-- src/graph/dag.rs: `insert_vx` keeps the graph well-formed, and when it succeeds.
use zfx_subzero.Prelude.{
  ℕ, ◌≡◌, ◌≢◌, false, ◌||◌, some, List, arith, ap, ◌∙◌, ◌↔◌, eqb, eqb_iff, Option-cases, Bool-cases,
  inl, inr, Eq, ◌==◌, ok, if◌then◌else◌,
}
use zfx_subzero.Prelude.HashSet.{contains}
use zfx_subzero.Prelude.HashMap
use zfx_subzero.Prelude.HashMap.{contains_key, get-insert}
use zfx_subzero.Prelude.Action.{◌>>=◌, >>=-eq-ok}
use zfx_subzero.Graph.Dag.{
  Dag, Adjacency, adjacent, edit_entries, open_entry, on_inv, on_g, insert_edges, set_chit,
  insert_vx,
}
use zfx_subzero.Graph.Dag.Entries.{
  push, HasAll, contains_key-edit, edit-ok, edit-HasAll, adjacent-edit_push, adjacent-open_entry,
  contains_key-open_entry,
}
use zfx_subzero.Graph.Dag.Invariant.{IsWellFormed}

module _ {ℓ} {V : Type ℓ} ⦃e : Eq V⦄ where
  -- What a successful insertion leaves.
  abbrev pub inserted : V → List V → Dag V → Dag V
  inserted vx edges d = record {
    g = HashMap.insert vx edges d.g;
    inv = (edit_entries (push vx) edges (open_entry vx d.inv)).0;
    chits = HashMap.insert vx 0 d.chits;
  }

  -- The conditions of a successful insertion.
  pub record CanInsert (vx : V) (edges : List V) (d : Dag V) : Type ℓ where
    pub parents : HasAll edges (open_entry vx d.inv)
    pub vacant : contains_key vx d.g ≡ false
    pub no_vote : HashMap.get vx d.chits ≢ some 1

  set_chit-ok :
      (vx : V) (chit : ℕ) (d : Dag V)
      → HashMap.get vx d.chits ≢ some 1
      → set_chit vx chit d ≡ (record d { chits = HashMap.insert vx chit d.chits }, ok tt)
  unfolding set_chit
  set_chit-ok vx chit d h = elim (Option-cases (HashMap.get vx d.chits)) [
    | inl vacant ↦ rw (vacant, set_chit)
    | inr (old, found) ↦ elim (Bool-cases (eqb old 1)) [
      | inl voted ↦ absurd (h (found ∙ ap some ((eqb_iff old 1).0 voted)))
      | inr fresh ↦ rw (found, set_chit, fresh)
    ]
  ]

  ok-set_chit :
      (vx : V) (chit : ℕ) (d : Dag V)
      → (set_chit vx chit d).1 ≡ ok tt
      → HashMap.get vx d.chits ≢ some 1
  unfolding set_chit
  ok-set_chit vx chit d h found = cc (rw (found, set_chit) at h)

  insert_edges-ok :
      (vx : V) (edges : List V) (m : Adjacency V)
      → contains_key vx m ≡ false
      → insert_edges vx edges m ≡ (HashMap.insert vx edges m, ok tt)
  unfolding insert_edges
  insert_edges-ok vx edges m h = rw h

  ok-insert_edges :
      (vx : V) (edges : List V) (m : Adjacency V)
      → (insert_edges vx edges m).1 ≡ ok tt
      → contains_key vx m ≡ false
  unfolding insert_edges
  ok-insert_edges vx edges m h = elim (Bool-cases (contains_key vx m)) [
    | inl found ↦ cc (rw found at h)
    | inr vacant ↦ vacant
  ]

  pub insert_vx-inserted :
      (vx : V) (edges : List V) (d : Dag V)
      → CanInsert vx edges d
      → insert_vx vx edges d ≡ (inserted vx edges d, ok tt)
  unfolding insert_vx
  insert_vx-inserted vx edges d c =
      rw (edit-ok (push vx) edges (open_entry vx d.inv) c.parents, c.vacant)
        (set_chit-ok vx 0 _ c.no_vote)

  pub insert_vx-CanInsert :
      (vx : V) (edges : List V) (d : Dag V)
      → (insert_vx vx edges d).1 ≡ ok tt
      → CanInsert vx edges d
  unfolding insert_vx
  insert_vx-CanInsert vx edges d h =
      let opened = record d { inv = open_entry vx d.inv } in
      let (_, pushed, h') =
        >>=-eq-ok (on_inv (edit_entries (push vx) edges))
          (λ _. on_g (insert_edges vx edges) >>= λ _. set_chit vx 0) opened h in
      let (_, linked, voted) =
        >>=-eq-ok (on_g (insert_edges vx edges)) (λ _. set_chit vx 0)
          (on_inv (edit_entries (push vx) edges) opened).0 h' in
      record {
        parents = edit-HasAll (push vx) edges (open_entry vx d.inv) pushed;
        vacant = ok-insert_edges vx edges d.g linked;
        no_vote = ok-set_chit vx 0 _ voted;
      }

  contains-adjacent-insert :
      (vx : V) (edges : List V) (m : Adjacency V) (u v : V)
      → contains (adjacent (HashMap.insert vx edges m) u) v
        ≡ (if vx == u then contains edges v else contains (adjacent m u) v)
  contains-adjacent-insert vx edges m u v =
      rw (get-insert vx edges m u, adjacent)
        (elim (Bool-cases (vx == u)) [ inl same ↦ rw same | inr other ↦ rw other ])

  inserted-mirrored :
      (vx : V) (edges : List V) (d : Dag V)
      → CanInsert vx edges d
      → IsWellFormed d
      → (u v : V)
      → contains (adjacent (HashMap.insert vx edges d.g) u) v
        ≡ contains (adjacent (edit_entries (push vx) edges (open_entry vx d.inv)).0 v) u
  unfolding contains
  inserted-mirrored vx edges d c w u v =
      rw
        (adjacent-edit_push vx edges (open_entry vx d.inv) (edit-ok (push vx) edges _ c.parents) v
          u)
        (rw (adjacent-open_entry vx d.inv v, contains-adjacent-insert vx edges d.g u v)
          (ground (arith, w.mirrored u v, c.vacant, e.eq_iff vx u)))

  pub inserted-IsWellFormed :
      (vx : V) (edges : List V) (d : Dag V)
      → CanInsert vx edges d
      → IsWellFormed d
      → IsWellFormed (inserted vx edges d)
  inserted-IsWellFormed vx edges d c w = record {
    same_keys = λ u. ground (
      arith,
      w.same_keys u,
      get-insert vx edges d.g u,
      contains_key-edit (push vx) edges (open_entry vx d.inv) u,
      contains_key-open_entry vx d.inv u,
    );
    mirrored = inserted-mirrored vx edges d c w;
    has_chit =
        λ u. ground (arith, w.has_chit u, get-insert vx edges d.g u, get-insert vx 0 d.chits u);
  }

  -- `insert_vx` succeeds exactly if the vertex is new, each of the edges leads to a vertex of `inv`
  -- or to the vertex itself, and the vertex has no chit of 1.
  pub insert_vx-ok_iff :
      (vx : V) (edges : List V) (d : Dag V)
      → ((insert_vx vx edges d).1 ≡ ok tt) ↔ CanInsert vx edges d
  insert_vx-ok_iff vx edges d =
      (insert_vx-CanInsert vx edges d, λ c. rw (insert_vx-inserted vx edges d c))

  -- A successful `insert_vx` on a well-formed graph leaves a well-formed graph, with the vertex and
  -- all those before, the vertex with its edges and chit 0, and the edges and chits of all others.
  pub insert_vx-IsWellFormed :
      (vx : V) (edges : List V) (d : Dag V)
      → IsWellFormed d
      → (insert_vx vx edges d).1 ≡ ok tt
      → IsWellFormed (insert_vx vx edges d).0
        × ((u : V) → contains_key u (insert_vx vx edges d).0.g ≡ (vx == u || contains_key u d.g))
        × ((u v : V)
            → contains (adjacent (insert_vx vx edges d).0.g u) v
              ≡ (if vx == u then contains edges v else contains (adjacent d.g u) v))
        × ((u : V)
            → HashMap.get u (insert_vx vx edges d).0.chits
              ≡ (if vx == u then some 0 else HashMap.get u d.chits))
  insert_vx-IsWellFormed vx edges d w h =
      let c = insert_vx-CanInsert vx edges d h in
      rw (insert_vx-inserted vx edges d c) (
        inserted-IsWellFormed vx edges d c w,
        λ u. ground (arith, get-insert vx edges d.g u),
        contains-adjacent-insert vx edges d.g,
        get-insert vx 0 d.chits,
      )
