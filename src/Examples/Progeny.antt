-- ===== src/Examples/Progeny.antt =====
-- The loop of `remove_conflicts`, src/sleet/sleet.rs, on a queue that names a transaction twice.
use zfx_subzero.Prelude.{◌≡◌, refl, [], ◌∷◌, ok, err, nat_eq}
use zfx_subzero.Prelude.HashSet
use zfx_subzero.Prelude.HashMap
use zfx_subzero.Graph.{undefined_cell}
use zfx_subzero.Graph.Dag.{remove_vx, edit_entries}
use zfx_subzero.Graph.ConflictGraph.{remove_from_conflict_set}
use zfx_subzero.Graph.ConflictGraph.Removal.{
  remove_cell, remove_from_vertices, edit_vertices, forget, leave_sets,
}
use zfx_subzero.Cell.Ids.{from_inputs, from_outputs, cell_id, ids_from}
use zfx_subzero.Storage.Txs.{set_status, update_and_fetch}
use zfx_subzero.Sleet.{graph}
use zfx_subzero.Sleet.Conflicts.{remove_progeny, remove_one}
use zfx_subzero.Examples.Mempool.{mempool}

-- The second removal of the transaction ends the loop with an error.
twice_queued : (remove_progeny 5 (10 ∷ 10 ∷ []) (mempool [] [])).1 ≡ err (graph undefined_cell)
unfolding remove_progeny remove_one set_status update_and_fetch remove_cell remove_from_vertices
    edit_vertices forget leave_sets remove_from_conflict_set remove_vx edit_entries from_inputs
    from_outputs cell_id ids_from HashMap.get HashMap.insert HashMap.modify HashMap.remove
    HashSet.extend HashSet.insert HashSet.contains HashSet.remove
twice_queued = refl

-- Named once, it is removed with success.
once_queued : (remove_progeny 5 (10 ∷ []) (mempool [] [])).1 ≡ ok tt
unfolding remove_progeny remove_one set_status update_and_fetch remove_cell remove_from_vertices
    edit_vertices forget leave_sets remove_from_conflict_set remove_vx edit_entries from_inputs
    from_outputs cell_id ids_from HashMap.get HashMap.insert HashMap.modify HashMap.remove
    HashSet.extend HashSet.insert HashSet.contains HashSet.remove
once_queued = refl
