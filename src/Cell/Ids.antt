-- ===== src/Cell/Ids.antt =====
-- src/cell/cell_id.rs, src/cell/output_index.rs and src/cell/cell_ids.rs: the names of the outputs
-- that a cell spends and makes. They are hashes of a cell's hash and the position, a `u8`.
use zfx_subzero.Prelude.{ℕ, ◌+◌, ◌%◌, ◌^◌, Bool, not, List, [], ◌∷◌, map, nat_eq}
use zfx_subzero.Prelude.HashSet
use zfx_subzero.Prelude.HashSet.{HashSet}
use zfx_subzero.Cell.Types.{CellHash, CellId, Output, Input, Crypto}

abbrev pub CellIds : Type 0
CellIds = HashSet CellId

module _ (crypto : Crypto) where
  open crypto use {hash_index}

  unfoldable pub cell_id : Input → CellId
  cell_id input = hash_index input.output_index.cell_hash input.output_index.index

  unfoldable pub from_inputs : HashSet Input → CellIds
  unfolding cell_id
  from_inputs inputs = HashSet.extend [] (map cell_id inputs)

  -- The ids of the outputs from the position on.
  unfoldable pub ids_from : CellHash → ℕ → List Output → List CellId
  ids_from cell_hash i [] = []
  ids_from cell_hash i (output ∷ outputs) =
      hash_index cell_hash (i % 2 ^ 8) ∷ ids_from cell_hash (i + 1) outputs

  unfoldable pub from_outputs : CellHash → List Output → CellIds
  unfolding ids_from
  from_outputs cell_hash outputs = HashSet.extend [] (ids_from cell_hash 0 outputs)

unfoldable pub intersects_with : CellIds → CellIds → Bool
intersects_with a b = not (HashSet.is_disjoint a b)

unfoldable pub intersect : CellIds → CellIds → CellIds
intersect a b = HashSet.intersection a b

unfoldable pub left_difference : CellIds → CellIds → CellIds
left_difference a b = HashSet.difference a b
