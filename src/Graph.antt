-- ===== src/Graph.antt =====
-- src/graph/mod.rs: the errors of the graphs, and the graphs.
pub mod Dag
pub mod ConflictGraph
pub mod DependencyGraph
use Prim.Native.Nat.{ℕ}
use zfx_subzero.Cell

pub data Error : Type 0 where
  cell : Cell.Error → Error
  vertex_exists vacant_entry undefined_chit undefined_vertex chit_replace chit_overflow : Error
  empty_conflict_graph duplicate_cell undefined_cell : Error
  undefined_cell_hash : ℕ → Error
