-- ===== src/Hail/Actor/Orphans.antt =====
-- src/hail/hail.rs: a block whose parent is not in the graph.
use zfx_subzero.Prelude.{◌≡◌, refl, ◌∙◌, false, some, err, ◌==◌}
use zfx_subzero.Prelude.HashMap.{contains_key}
use zfx_subzero.Graph.{vacant_entry}
use zfx_subzero.Graph.Dag.{insert_vx, edit_entries, open_entry}
use zfx_subzero.Graph.Dag.Entries.{contains_key-open_entry}
use zfx_subzero.Hail.{BlockHash, Vertex, graph, vertex_eq}
use zfx_subzero.Hail.ConflictMap.{insert_block}
use zfx_subzero.Hail.Actor.{
  Env, HailBlock, Hail, vertex, enter, insert, is_known_block, on_receive_block,
}

module _ {env : Env} where
  -- A block that is not known, whose parent is another vertex that the graph does not have, is
  -- refused with `VacantEntry`, and no block becomes known; but the conflict map has taken it in.
  pub on_receive_block-orphan :
      (b : HailBlock) (parent : Vertex) (s : Hail env)
      → is_known_block s (env.hash_block b.block) ≡ false
      → b.parent ≡ some parent
      → contains_key (vertex env b) s.dag.g ≡ false
      → contains_key parent s.dag.inv ≡ false
      → (vertex env b == parent) ≡ false
      → let (s', r) = on_receive_block b s in
        (r ≡ err (graph vacant_entry))
        × ((h : BlockHash) → is_known_block s' h ≡ is_known_block s h)
        × (s'.dag.g ≡ s.dag.g)
        × (s'.conflict_map ≡ (insert_block env.hash_block b.block s.conflict_map).0)
  unfolding on_receive_block insert enter insert_vx edit_entries
  on_receive_block-orphan b parent s unknown has_parent fresh absent other =
      let still_absent : contains_key parent (open_entry (vertex env b) s.dag.inv) ≡ false =
        contains_key-open_entry (vertex env b) s.dag.inv parent ∙ rw (other, absent) refl in
      rw (unknown, fresh, has_parent) (rw still_absent (refl, λ h. refl, refl, refl))
