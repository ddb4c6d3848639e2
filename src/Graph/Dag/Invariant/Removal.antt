-- ===== src/Graph/Dag/Invariant/Removal.antt =====
-- src/graph/dag.rs: `remove_vx` on a well-formed graph.
use zfx_subzero.Prelude.{
  ◌≡◌, refl, sym, ◌∙◌, true, not, ◌&&◌, List, [], arith, Option-cases, Bool-cases, inl, inr, Eq,
  ◌==◌, Result, ok, ok_or,
}
use zfx_subzero.Prelude.HashSet
use zfx_subzero.Prelude.HashSet.{HashSet, contains, contains-extend}
use zfx_subzero.Prelude.HashMap
use zfx_subzero.Prelude.HashMap.{contains_key, get-remove}
use zfx_subzero.Graph.{Error, undefined_vertex}
use zfx_subzero.Graph.Dag.{Dag, Adjacency, adjacent, edit_entries, remove_vx}
use zfx_subzero.Graph.Dag.Entries.{HasAll, contains_key-edit, edit-ok, adjacent-edit_remove}
use zfx_subzero.Graph.Dag.Invariant.{IsWellFormed}

module _ {ℓ} {V : Type ℓ} ⦃e : Eq V⦄ where
  ok_or-adjacent :
      (vx : V) (m : Adjacency V)
      → contains_key vx m ≡ true
      → ◌≡◌ {A = Result Error (List V)}
          (ok_or (HashMap.get vx m) undefined_vertex)
          (ok (adjacent m vx))
  ok_or-adjacent vx m h = elim (Option-cases (HashMap.get vx m)) [
    | inl vacant ↦ absurd (cc (rw vacant at h))
    | inr (edges, found) ↦ rw (found, adjacent)
  ]

  abbrev pub cut_g : V → Dag V → Adjacency V
  cut_g vx d = (edit_entries (HashSet.remove vx) (adjacent d.inv vx) d.g).0

  abbrev pub cut_inv : V → Dag V → Adjacency V
  cut_inv vx d = (edit_entries (HashSet.remove vx) (adjacent (cut_g vx d) vx) d.inv).0

  -- What a successful removal leaves. The chit stays.
  abbrev pub removed : V → Dag V → Dag V
  removed vx d = record {
    g = HashMap.remove vx (cut_g vx d);
    inv = HashMap.remove vx (cut_inv vx d);
    chits = d.chits;
  }

  contains_key-of_adjacent :
      (m : Adjacency V) (u v : V) → contains (adjacent m u) v ≡ true → contains_key u m ≡ true
  unfolding contains
  contains_key-of_adjacent m u v h = elim (Option-cases (HashMap.get u m)) [
    | inl vacant ↦ cc (rw (vacant, adjacent) at h)
    | inr (edges, found) ↦ rw found
  ]

  contains-adjacent-remove :
      (vx : V) (m : Adjacency V) (u v : V)
      → contains (adjacent (HashMap.remove vx m) u) v ≡ (not (vx == u) && contains (adjacent m u) v)
  unfolding contains
  contains-adjacent-remove vx m u v =
      rw (get-remove vx m u, adjacent)
        (elim (Bool-cases (vx == u)) [ inl same ↦ rw same | inr other ↦ rw other ])

  module _ (vx : V) (d : Dag V) (w : IsWellFormed d) where
    children_HasAll : HasAll (adjacent d.inv vx) d.g
    children_HasAll j h = contains_key-of_adjacent d.g j vx (w.mirrored j vx ∙ h)

    -- The edges into `vx` are gone.
    cut_g_edges :
        (u v : V)
        → contains (adjacent (cut_g vx d) u) v
          ≡ (contains (adjacent d.g u) v && not (contains (adjacent d.g u) vx && vx == v))
    cut_g_edges u v =
        rw (← w.mirrored u vx) at
          (adjacent-edit_remove vx (adjacent d.inv vx) d.g (edit-ok _ _ d.g children_HasAll) u v)

    parents_HasAll : HasAll (adjacent (cut_g vx d) vx) d.inv
    parents_HasAll j h =
        contains_key-of_adjacent d.inv j vx (ground (arith, w.mirrored vx j, cut_g_edges vx j))

    cut_inv_edges :
        (v u : V)
        → contains (adjacent (cut_inv vx d) v) u ≡ (
            contains (adjacent d.inv v) u && not (contains (adjacent (cut_g vx d) vx) v && vx == u))
    cut_inv_edges =
        adjacent-edit_remove vx (adjacent (cut_g vx d) vx) d.inv (edit-ok _ _ d.inv parents_HasAll)

    pub remove_vx-removed :
        contains_key vx d.g ≡ true
        → remove_vx vx d ≡ (removed vx d, ok (HashSet.extend [] (adjacent d.inv vx)))
    unfolding remove_vx
    remove_vx-removed h = rw (ok_or-adjacent vx d.inv (sym (w.same_keys vx) ∙ h)) (
        rw (edit-ok (HashSet.remove vx) (adjacent d.inv vx) d.g children_HasAll) (
          rw (ok_or-adjacent vx (cut_g vx d) (contains_key-edit _ _ d.g vx ∙ h))
            (rw (edit-ok (HashSet.remove vx) (adjacent (cut_g vx d) vx) d.inv parents_HasAll))))

    pub removed_keys :
        (u : V) → contains_key u (removed vx d).g ≡ (not (vx == u) && contains_key u d.g)
    removed_keys u = ground (
      arith,
      get-remove vx (cut_g vx d) u,
      contains_key-edit (HashSet.remove vx) (adjacent d.inv vx) d.g u,
    )

    pub removed_edges :
        (u v : V)
        → contains (adjacent (removed vx d).g u) v
          ≡ (contains (adjacent d.g u) v && not (vx == u) && not (vx == v))
    removed_edges u v =
        rw (contains-adjacent-remove vx (cut_g vx d) u v)
          (ground (arith, cut_g_edges u v, e.eq_iff vx v))

    pub removed-IsWellFormed : IsWellFormed (removed vx d)
    removed-IsWellFormed = record {
      same_keys = λ u.
          removed_keys u
          ∙ ground (
            arith,
            w.same_keys u,
            get-remove vx (cut_inv vx d) u,
            contains_key-edit (HashSet.remove vx) (adjacent (cut_g vx d) vx) d.inv u,
          );
      mirrored = λ u v.
          removed_edges u v
          ∙ rw (contains-adjacent-remove vx (cut_inv vx d) v u) (
              ground (
                arith,
                w.mirrored u v,
                cut_inv_edges v u,
                cut_g_edges vx v,
                e.eq_iff vx u,
                e.eq_iff vx v,
              ));
      has_chit = λ u h. w.has_chit u (ground (arith, removed_keys u));
    }

  -- On a well-formed graph `remove_vx` of a vertex that is there succeeds, and returns its children. It
  -- leaves a well-formed graph with all other vertices, without that vertex, with the edges between
  -- the others, and with every chit.
  pub remove_vx-IsWellFormed :
      (vx : V) (d : Dag V)
      → IsWellFormed d
      → contains_key vx d.g ≡ true
      → (d' : Dag V) × (children : HashSet V) × (remove_vx vx d ≡ (d', ok children))
        × IsWellFormed d'
        × ((u : V) → contains children u ≡ contains (adjacent d.g u) vx)
        × ((u : V) → contains_key u d'.g ≡ (not (vx == u) && contains_key u d.g))
        × ((u v : V)
            → contains (adjacent d'.g u) v
              ≡ (contains (adjacent d.g u) v && not (vx == u) && not (vx == v)))
        × (d'.chits ≡ d.chits)
  unfolding contains
  remove_vx-IsWellFormed vx d w h = (
    removed vx d,
    HashSet.extend [] (adjacent d.inv vx),
    remove_vx-removed vx d w h,
    removed-IsWellFormed vx d w,
    λ u. contains-extend [] (adjacent d.inv vx) u ∙ sym (w.mirrored u vx),
    removed_keys vx d w,
    removed_edges vx d w,
    refl,
  )
