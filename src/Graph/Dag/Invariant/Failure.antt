-- ===== src/Graph/Dag/Invariant/Failure.antt =====
-- src/graph/dag.rs: what a failed `insert_vx` leaves, and a vertex that comes back after its removal.
use zfx_subzero.Prelude.{
  ◌≡◌, refl, true, false, ◌&&◌, ◌||◌, some, List, arith, Eq, ◌==◌, ==_refl, ok, err,
}
use zfx_subzero.Prelude.HashSet.{contains}
use zfx_subzero.Prelude.HashMap
use zfx_subzero.Prelude.HashMap.{contains_key, get-insert}
use zfx_subzero.Graph.{vertex_exists, chit_replace}
use zfx_subzero.Graph.Dag.{
  Dag, adjacent, edit_entries, open_entry, insert_edges, set_chit, insert_vx, remove_vx,
}
use zfx_subzero.Graph.Dag.Entries.{
  push, contains_key-open_entry, edit-ok, adjacent-edit_push, adjacent-open_entry,
}
use zfx_subzero.Graph.Dag.Invariant.{IsWellFormed}
use zfx_subzero.Graph.Dag.Invariant.Removal.{
  removed, remove_vx-removed, removed-IsWellFormed, removed_keys,
}

module _ {ℓ} {V : Type ℓ} ⦃e : Eq V⦄ where
  -- On a well-formed graph, `insert_vx` of a vertex that is there, with edges to vertices that are
  -- there, fails with `VertexExists` and leaves `g` and the chits as they are; but each of the edges
  -- has then the vertex among its children in `inv`.
  pub insert_vx-vertex_exists :
      (vx : V) (edges : List V) (d : Dag V)
      → IsWellFormed d
      → contains_key vx d.g ≡ true
      → ((j : V) → contains edges j ≡ true → contains_key j d.g ≡ true)
      → ((insert_vx vx edges d).1 ≡ err vertex_exists)
        × ((insert_vx vx edges d).0.g ≡ d.g)
        × ((insert_vx vx edges d).0.chits ≡ d.chits)
        × ((v u : V)
            → contains (adjacent (insert_vx vx edges d).0.inv v) u
              ≡ (contains (adjacent d.inv v) u || contains edges v && vx == u))
  unfolding insert_vx insert_edges
  insert_vx-vertex_exists vx edges d w there all =
      let pushed : (edit_entries (push vx) edges (open_entry vx d.inv)).1 ≡ ok tt =
        edit-ok (push vx) edges (open_entry vx d.inv)
          (λ j k. ground (arith, all j k, w.same_keys j, contains_key-open_entry vx d.inv j)) in
      rw (pushed, there)
        (
          refl,
          refl,
          refl,
          λ v u.
              rw (← adjacent-open_entry vx d.inv v)
                (adjacent-edit_push vx edges (open_entry vx d.inv) pushed v u),
        )

  -- A vertex with chit 1 that is removed from a well-formed graph cannot come back: `insert_vx` with
  -- edges to vertices that are left fails with `ChitReplace`, after it has written the vertex into
  -- `g`.
  pub insert_vx-remove_vx :
      (vx : V) (edges : List V) (d : Dag V)
      → IsWellFormed d
      → contains_key vx d.g ≡ true
      → HashMap.get vx d.chits ≡ some 1
      → ((j : V) → contains edges j ≡ true → contains_key j (remove_vx vx d).0.g ≡ true)
      → ((insert_vx vx edges (remove_vx vx d).0).1 ≡ err chit_replace)
        × (contains_key vx (insert_vx vx edges (remove_vx vx d).0).0.g ≡ true)
  unfolding insert_vx insert_edges set_chit
  insert_vx-remove_vx vx edges d w there voted all =
      let gone = remove_vx-removed vx d w there in
      let r = removed vx d in
      let w' = removed-IsWellFormed vx d w in
      let vacant : contains_key vx r.g ≡ false =
        ground (arith, removed_keys vx d w vx, ==_refl vx) in
      let pushed : (edit_entries (push vx) edges (open_entry vx r.inv)).1 ≡ ok tt =
        edit-ok (push vx) edges (open_entry vx r.inv) (λ j k.
          ground
            (arith, rw gone at (all j k), w'.same_keys j, contains_key-open_entry vx r.inv j)) in
      rw gone (
        rw (pushed, vacant)
          (rw (voted, set_chit) (refl, ground (arith, get-insert vx edges r.g vx, ==_refl vx))))
