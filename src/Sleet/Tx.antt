-- ===== src/Sleet/Tx.antt =====
-- src/sleet/tx.rs: a transaction of `sleet`.
use zfx_subzero.Prelude.{Bool, true, false, List}
use zfx_subzero.Cell.Types.{CellHash, Cell, Crypto}

abbrev pub TxHash : Type 0
TxHash = CellHash

pub data TxStatus : Type 0 where
  pending queried accepted rejected removed : TxStatus

abbrev pub status_beq : TxStatus → TxStatus → Bool
status_beq pending pending = true
status_beq queried queried = true
status_beq accepted accepted = true
status_beq rejected rejected = true
status_beq removed removed = true
status_beq _ _ = false

pub record Tx : Type 0 where
  pub parents : List TxHash
  pub cell : Cell
  pub status : TxStatus

unfoldable pub new : List TxHash → Cell → Tx
new parents cell = record { parents = parents; cell = cell; status = pending }

abbrev pub hash : Crypto → Tx → TxHash
hash crypto tx = crypto.hash_cell tx.cell
